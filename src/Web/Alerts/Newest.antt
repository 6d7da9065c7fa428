-- ===== src/Web/Alerts/Newest.antt =====
-- What handleAlerts of runtime/web/server.go shows of the log of the alerts.
use jarvinx.Shared.{
  ℕ, ◌≡◌, refl, sym, ap, ◌≤◌, arith, true, false, List, [], ◌∷◌, ◌++◌, Option, none, some,
  Bool-cases, inl, inr, ltb, length, take, length-take, reverse_in_place,
}
use jarvinx.Shared.Int.{ℤ, pos, negsuc}
use jarvinx.Shared.Reverse.{reverse_in_place-reverse, length-reverse, take-all}
use jarvinx.Shared.Text.{Text, codes, text_eq}
use jarvinx.Shared.Parse.{atoi}
use jarvinx.Memory.Logger.{Logger}
use jarvinx.Web.Server.{Server, World, opened}
use jarvinx.Web.Responses.{Request, Reply, StoredAlert, AlertsResponse, alerts_json, write_json}
use jarvinx.Shared.Scan.{scan_lines}
use jarvinx.Web.Alerts.{
  accepted_limit, limit_of, has_level, keep_alert, collect, cut, read_alerts, logged_alerts,
  handle_alerts,
}
use mathlib.Core.Path.{subst}
use mathlib.Core.List.{append_assoc, append-nil, reverse}

fits→le : (n limit : ℕ) → ltb limit n ≡ false → n ≤ limit
fits→le n limit h = ground arith

module _ {F : Type 0} where
  -- The alerts of a level that the lines hold; a line that does not decode holds none.
  abbrev pub matching :
      (List ℕ → Option (StoredAlert F)) → Text → List (List ℕ) → List (StoredAlert F)
  unfolding keep_alert
  matching decode level [] = []
  matching decode level (line ∷ lines) =
      keep_alert level [] (decode line) ++ matching decode level lines

  keep_alert-append :
      (level : Text) (all : List (StoredAlert F)) (a : Option (StoredAlert F))
      → keep_alert level all a ≡ all ++ keep_alert level [] a
  unfolding keep_alert
  keep_alert-append level all none = sym (append-nil all)
  keep_alert-append level all (some a) = elim (Bool-cases (has_level level a)) [
    | inl keeps ↦ rw keeps refl
    | inr drops ↦ rw drops (sym (append-nil all))
  ]

  collect-matching :
      (decode : List ℕ → Option (StoredAlert F)) (level : Text) (all : List (StoredAlert F))
      (lines : List (List ℕ))
      → collect decode level all lines ≡ all ++ matching decode level lines
  unfolding collect
  collect-matching decode level all [] = sym (append-nil all)
  collect-matching decode level all (line ∷ lines) =
      rw
        (
          collect-matching decode level (keep_alert level all (decode line)) lines,
          keep_alert-append level all (decode line),
        )
        (append_assoc all (keep_alert level [] (decode line)) (matching decode level lines))

  -- The newest `limit` of some alerts, newest first, and how many there are.
  abbrev pub newest : ℕ → List (StoredAlert F) → AlertsResponse F
  newest limit all = record { alerts = take limit (reverse all); total = length all }

  cut-newest :
      (limit : ℕ) (all : List (StoredAlert F)) → cut limit (reverse_in_place all) ≡ newest limit all
  unfolding cut
  cut-newest limit all =
      rw (reverse_in_place-reverse all, length-reverse all)
        (elim (Bool-cases (ltb limit (length all))) [
          | inl more ↦ rw more refl
          | inr fits ↦
              rw
                (
                  fits,
                  take-all limit (reverse all) (
                      subst (λ n. n ≤ limit) (sym (length-reverse all))
                        (fits→le (length all) limit fits)),
                )
                refl
        ])

limit_of-IsBounded : (lq : Text) → (1 ≤ limit_of lq) × (limit_of lq ≤ 500)
unfolding limit_of
limit_of-IsBounded lq = elim (Bool-cases (text_eq lq [])) [
  | inl missing ↦ rw missing (omega arith, omega arith)
  | inr given ↦ rw given (go (atoi lq))
]
  where
    go : (n : Option ℤ) → (1 ≤ accepted_limit n) × (accepted_limit n ≤ 500)
    go none = (omega arith, omega arith)
    go (some (negsuc n)) = (omega arith, omega arith)
    go (some (pos n)) = (ground arith, ground arith)

module _ {F : Type 0} where
  -- A GET of the alerts, when there is a log that opens, is answered with the newest alerts of the level
  -- that is asked for, newest first, at most as many as the limit, which is from 1 to 500; the total is
  -- that of all alerts of the level. Lines that do not decode are passed over.
  pub handle_alerts-newest :
      (w : World F) (r : Request) (s : Server F) (reply : Reply F) (l : Logger) (bytes : List ℕ)
      → text_eq r.method (codes "GET") ≡ true
      → s.alert_logger ≡ some l
      → w.alert_file ≡ opened bytes
      → let shown =
          newest (limit_of r.limit) (matching w.decode_alert r.level (scan_lines bytes)) in
        (handle_alerts w r s reply ≡ write_json w.failure (alerts_json shown) reply)
        × (1 ≤ limit_of r.limit)
        × (length shown.alerts ≤ 500)
  unfolding handle_alerts logged_alerts read_alerts
  handle_alerts-newest w r s reply l bytes get logs opens =
      let all = matching w.decode_alert r.level (scan_lines bytes) in
      let bound = limit_of-IsBounded r.limit in
      (
        rw (get, logs, opens, collect-matching w.decode_alert r.level [] (scan_lines bytes))
            (ap (λ v. write_json w.failure (alerts_json v) reply)
              (cut-newest (limit_of r.limit) all)),
        bound.0,
        omega (arith, bound.1, length-take (limit_of r.limit) (reverse all)),
      )
