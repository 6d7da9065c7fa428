-- ===== src/Web/Middleware/Effects.antt =====
-- Which requests switch an agent, of runtime/web/server.go.
use jarvinx.Shared.{
  ◌≡◌, refl, sym, ap, ◌∙◌, ◌⊎◌, inl, inr, Bool, true, false, not, ◌&&◌, ◌||◌, List, [], ◌∷◌, Option,
  none, some, All, Bool-cases, if◌then◌else◌,
}
use mathlib.Core.Path.{subst}
use jarvinx.Shared.Float.{Float64}
use jarvinx.Shared.Text.{Text, codes, text_eq, text_eq→≡, has_prefix}
use jarvinx.Agents.Registry.{Agent, get}
use jarvinx.Web.RateLimit.{TokenBucket, allow}
use jarvinx.Web.Server.{Server, World}
use jarvinx.Web.Responses.{Request, Reply}
use jarvinx.Web.Changes.{Served, replied, admitted_send, sendable, handle_daily_report_send}
use jarvinx.Web.Changes.Toggle.{acts, toggled, handle_agent_toggle-get}
use jarvinx.Web.Routes.{
  Endpoint, status, history, agents, agents_toggle, docker, logs_status, file, daily_report,
  daily_report_send, alerts, llm_context, history_full, patterns, match, handle, dispatch, mux,
  answered,
}
use jarvinx.Web.Middleware.{carries, auth_middleware, cors_middleware, serve}

abbrev toggle_path : Text
toggle_path = codes "/api/agents/toggle"

abbrev is_toggle : Endpoint → Bool
is_toggle agents_toggle = true
is_toggle _ = false

abbrev is_toggle_of : Option Endpoint → Bool
is_toggle_of none = false
is_toggle_of (some e) = is_toggle e

match-other :
    (rest : List (Text × Endpoint)) (path : Text)
    → All (λ e. (is_toggle e.1 ≡ false) ⊎ (e.0 ≡ toggle_path)) rest
    → text_eq path toggle_path ≡ false
    → is_toggle_of (match rest path) ≡ false
unfolding match
match-other [] path own other = refl
match-other ((p, e) ∷ rest) path (first, own) other = elim (Bool-cases (text_eq path p)) [
  | inr differs ↦ rw differs (match-other rest path own other)
  | inl same ↦ rw same (go same first)
]
  where
    go : text_eq path p ≡ true → (is_toggle e ≡ false) ⊎ (p ≡ toggle_path) → is_toggle e ≡ false
    go same (inl stays) = stays
    go same (inr toggles) = absurd (cc (same, other, ap (λ t. text_eq path t) toggles))

match-toggle : (path : Text) → is_toggle_of (match patterns path) ≡ text_eq path toggle_path
unfolding match text_eq
match-toggle path = elim (Bool-cases (text_eq path toggle_path)) [
  | inl here ↦ rw (text_eq→≡ path toggle_path here) refl
  | inr other ↦
      match-other patterns path
        (
          inl refl,
          (
            inl refl,
            (
              inl refl,
              (
                inr refl,
                (
                  inl refl,
                  (
                    inl refl,
                    (inl refl, (inl refl, (inl refl, (inl refl, (inl refl, (inl refl, tt)))))),
                  ),
                ),
              ),
            ),
          ),
        )
        other
      ∙ sym other
]

module _ (clean : Text → Text) where
  -- A request for the path of handleAgentToggle that ServeMux does not redirect.
  abbrev pub for_toggle : Request → Bool
  for_toggle r = text_eq (clean r.path) r.path && text_eq r.path toggle_path

  outside-for_toggle :
      (r : Request) → has_prefix r.path (codes "/api/") ≡ false → for_toggle r ≡ false
  unfolding has_prefix text_eq
  outside-for_toggle r outside = elim (Bool-cases (text_eq r.path toggle_path)) [
    | inl here ↦ absurd (
        cc (
          outside,
          ap (λ path. has_prefix path (codes "/api/")) (text_eq→≡ r.path toggle_path here),
        ))
    | inr apart ↦ elim (Bool-cases (text_eq (clean r.path) r.path)) [
      | inl same ↦ rw (same, apart) refl
      | inr moves ↦ rw moves refl
    ]
  ]

module _ {F : Type 0} where
  -- What Get finds under a name after a request, if its handler does not panic.
  abbrev pub Finds : Text → Option (Agent F) → Option (Served F) → Type 0
  Finds name found none = Unit
  Finds name found (some served) = get name served.server.registry ≡ found

  answered-Finds :
      (name : Text) (s : Server F) (o : Option (Reply F))
      → Finds name (get name s.registry) (answered s o)
  unfolding answered replied
  answered-Finds name s none = tt
  answered-Finds name s (some reply) = refl

  admitted_send-get :
      (name : Text) (w : World F) (b : TokenBucket F × Bool) (s : Server F) (reply : Reply F)
      → get name (admitted_send w b s reply).server.registry ≡ get name s.registry
  unfolding admitted_send replied
  admitted_send-get name w (bucket, false) s reply = refl
  admitted_send-get name w (bucket, true) s reply =
      elim (Bool-cases (sendable s.cfg.daily_report_enabled s.daily_reporter)) [
        | inl sends ↦ rw sends refl
        | inr idle ↦ rw idle refl
      ]

  module _ ⦃fl : Float64 F⦄ where
    send-get :
        (name : Text) (w : World F) (r : Request) (s : Server F) (reply : Reply F)
        → get name (handle_daily_report_send w r s reply).server.registry ≡ get name s.registry
    unfolding handle_daily_report_send replied
    send-get name w r s reply = elim (Bool-cases (text_eq r.method (codes "POST"))) [
      | inl post ↦
          rw post (admitted_send-get name w (allow w.seconds w.now s.limit_send_report) s reply)
      | inr other ↦ rw other refl
    ]

    -- What Get finds after a request that is or is not one for handleAgentToggle.
    abbrev pub found_after : Bool → World F → Request → Server F → Text → Option (Agent F)
    found_after reaches w r s name =
        if reaches && acts w r s name then toggled (get name s.registry) else get name s.registry

    handle-Finds :
        (name : Text) (w : World F) (r : Request) (e : Endpoint) (s : Server F) (reply : Reply F)
        → Finds name (found_after (is_toggle e) w r s name) (handle w r e s reply)
    unfolding handle replied
    handle-Finds name w r status s reply = answered-Finds name s _
    handle-Finds name w r history s reply = answered-Finds name s _
    handle-Finds name w r agents s reply = refl
    handle-Finds name w r agents_toggle s reply = handle_agent_toggle-get w r name s reply
    handle-Finds name w r docker s reply = answered-Finds name s _
    handle-Finds name w r logs_status s reply = refl
    handle-Finds name w r file s reply = refl
    handle-Finds name w r daily_report s reply = refl
    handle-Finds name w r daily_report_send s reply = send-get name w r s reply
    handle-Finds name w r alerts s reply = refl
    handle-Finds name w r llm_context s reply = answered-Finds name s _
    handle-Finds name w r history_full s reply = refl

    dispatch-Finds :
        (name : Text) (w : World F) (r : Request) (e : Option Endpoint) (s : Server F)
        (reply : Reply F) (on_toggle : Bool)
        → is_toggle_of e ≡ on_toggle
        → Finds name (found_after on_toggle w r s name) (dispatch w r e s reply)
    unfolding dispatch replied
    dispatch-Finds name w r (some e) s reply on_toggle agrees =
        rw (← agrees) (handle-Finds name w r e s reply)
    dispatch-Finds name w r none s reply on_toggle agrees =
        rw (← agrees) (elim (Bool-cases (has_prefix r.path (codes "/static/"))) [
          | inl static ↦ rw static refl
          | inr index ↦ rw index refl
        ])

    module _ (clean : Text → Text) where
      mux-Finds :
          (name : Text) (w : World F) (r : Request) (s : Server F) (reply : Reply F)
          → Finds name (found_after (for_toggle clean r) w r s name) (mux clean w r s reply)
      unfolding mux replied
      mux-Finds name w r s reply = elim (Bool-cases (text_eq (clean r.path) r.path)) [
        | inl same ↦
            rw same
              (dispatch-Finds name w r (match patterns r.path) s reply _ (match-toggle r.path))
        | inr moves ↦ rw moves refl
      ]

      -- Such a request that no token guards, or that carries it.
      abbrev pub admitted : Server F → Request → Bool
      admitted s r = (text_eq s.cfg.api_token [] || carries s.cfg.api_token r) && for_toggle clean r

      auth_middleware-Finds :
          (name : Text) (w : World F) (r : Request) (s : Server F) (reply : Reply F)
          → Finds name (found_after (admitted s r) w r s name) (auth_middleware clean w r s reply)
      unfolding auth_middleware replied
      auth_middleware-Finds name w r s reply = elim (Bool-cases (text_eq s.cfg.api_token [])) [
        | inl unguarded ↦ rw unguarded (mux-Finds name w r s reply)
        | inr guarded ↦ elim (Bool-cases (has_prefix r.path (codes "/api/"))) [
          | inl api ↦ elim (Bool-cases (carries s.cfg.api_token r)) [
            | inl bears ↦ rw (guarded, api, bears) (mux-Finds name w r s reply)
            | inr lacks ↦ rw (guarded, api, lacks) refl
          ]
          | inr outside ↦
              let passed =
                subst (λ b. Finds name (found_after b w r s name) (mux clean w r s reply))
                  (outside-for_toggle clean r outside) (mux-Finds name w r s reply) in
              elim (Bool-cases (carries s.cfg.api_token r)) [
                | inl bears ↦
                    rw (guarded, outside, outside-for_toggle clean r outside, bears) passed
                | inr lacks ↦
                    rw (guarded, outside, outside-for_toggle clean r outside, lacks) passed
              ]
        ]
      ]

      -- Such a request that is no preflight.
      abbrev pub reaches : Server F → Request → Bool
      reaches s r = not (text_eq r.method (codes "OPTIONS")) && admitted s r

      -- Whatever the request and the server, Get finds under every name after the request what it found
      -- before, unless the request goes to the path of handleAgentToggle, is no preflight, carries the
      -- token if there is one, is a POST that the rate limiter lets through and has a body that names this
      -- agent: then the agent is enabled exactly if it was not. A handler that panics is left out.
      pub serve-get :
          (name : Text) (w : World F) (r : Request) (s : Server F)
          → Finds name (found_after (reaches s r) w r s name) (serve clean w r s)
      unfolding serve cors_middleware replied
      serve-get name w r s = elim (Bool-cases (text_eq r.method (codes "OPTIONS"))) [
        | inl preflight ↦ rw preflight refl
        | inr request ↦ rw request (auth_middleware-Finds name w r s _)
      ]
