-- ===== src/Web/Alerts.antt =====
-- handleAlerts of runtime/web/server.go. The file is a list of bytes, read by a bufio.Scanner, which stops
-- at a line that does not fit its buffer of 64 KB.
pub mod Newest
use jarvinx.Shared.{
  ℕ, suc, Bool, true, false, ◌&&◌, ◌||◌, List, [], ◌∷◌, ◌++◌, Option, none, some, ltb, leb, ◌==◌,
  if◌then◌else◌, length, take, reverse_in_place,
}
use jarvinx.Shared.Int.{ℤ, pos, negsuc}
use jarvinx.Shared.Float.{Float64}
use jarvinx.Shared.Text.{Text, codes, text_eq}
use jarvinx.Shared.Parse.{atoi}
use jarvinx.Shared.Scan.{scan_lines}
use jarvinx.Memory.Logger.{Logger}
use jarvinx.Web.Server.{Server, World, Opening, opened, not_existing, unreadable}
use jarvinx.Web.Responses.{
  Request, Reply, StoredAlert, AlertsResponse, alerts_json, http_error, write_json,
}

-- A limit from 1 to 500.
accepted_limit : Option ℤ → ℕ
accepted_limit none = 100
accepted_limit (some (negsuc n)) = 100
accepted_limit (some (pos n)) = if ltb 0 n && leb n 500 then n else 100

unfoldable pub limit_of : Text → ℕ
unfolding accepted_limit atoi text_eq
limit_of lq = if text_eq lq [] then 100 else accepted_limit (atoi lq)

module _ {F : Type 0} where
  unfoldable pub has_level : Text → StoredAlert F → Bool
  unfolding text_eq
  has_level filter a = text_eq filter [] || text_eq a.level filter

  keep_alert : Text → List (StoredAlert F) → Option (StoredAlert F) → List (StoredAlert F)
  unfolding has_level
  keep_alert filter all none = all
  keep_alert filter all (some a) = if has_level filter a then all ++ a ∷ [] else all

  -- The loop over the lines.
  unfoldable pub collect :
      (List ℕ → Option (StoredAlert F))
      → Text
      → List (StoredAlert F)
      → List (List ℕ)
      → List (StoredAlert F)
  unfolding keep_alert
  collect decode filter all [] = all
  collect decode filter all (line ∷ lines) =
      collect decode filter (keep_alert filter all (decode line)) lines

  unfoldable pub cut : ℕ → List (StoredAlert F) → AlertsResponse F
  cut limit all =
      let total = length all in
      record { alerts = if ltb limit total then take limit all else all; total = total }

  unfoldable pub read_alerts : World F → Request → Opening → Reply F → Reply F
  unfolding scan_lines limit_of collect cut http_error write_json
  read_alerts w r (opened bytes) reply =
      let all = collect w.decode_alert r.level [] (scan_lines bytes) in
      write_json w.failure (alerts_json (cut (limit_of r.limit) (reverse_in_place all))) reply
  read_alerts w r not_existing reply =
      write_json w.failure (alerts_json (record { alerts = []; total = 0 })) reply
  read_alerts w r unreadable reply = http_error (codes "cannot read alerts") 500 reply

  unfoldable pub logged_alerts : World F → Request → Option Logger → Reply F → Reply F
  unfolding read_alerts write_json
  logged_alerts w r none reply =
      write_json w.failure (alerts_json (record { alerts = []; total = 0 })) reply
  logged_alerts w r (some logger) reply = read_alerts w r w.alert_file reply

  unfoldable pub handle_alerts : World F → Request → Server F → Reply F → Reply F
  unfolding logged_alerts text_eq http_error
  handle_alerts w r s reply =
      if text_eq r.method (codes "GET")
      then logged_alerts w r s.alert_logger reply
      else http_error (codes "method not allowed") 405 reply
