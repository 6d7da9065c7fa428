-- ===== src/Web/Middleware/Origins/Handlers.antt =====
-- No handler of runtime/web/server.go names an origin.
use jarvinx.Shared.{
  ℕ, ◌≡◌, refl, ap, ◌∙◌, Bool, true, false, List, [], ◌∷◌, Option, none, some, Bool-cases, inl, inr,
  if◌then◌else◌, ◌>>=◌,
}
use jarvinx.Shared.Float.{Float64}
use jarvinx.Shared.Text.{Text, codes, text_eq, text_eq→≡, has_prefix}
use jarvinx.Web.Server.{Server, World, Opening, opened, not_existing, unreadable}
use jarvinx.Web.Responses.{
  Request, Reply, Json, docker_json, status_json, history_json, context_json, set_header, header,
  set, http_error, finished, write_json,
}
use jarvinx.Memory.Logger.{Logger}
use jarvinx.Web.Changes.{
  Served, replied, limited, found_agent, decoded, admitted_toggle, admitted_send,
  handle_agent_toggle, handle_daily_report_send, sendable, decode_body,
}
use jarvinx.Shared.Int.{pos}
use jarvinx.Memory.State.{last, last_cycles}
use jarvinx.Agents.Registry.{Agent}
use jarvinx.Web.RateLimit.{TokenBucket, allow}
use jarvinx.Web.Reads.{
  handle_status, handle_history, handle_agents, handle_file, handle_index, handle_logs_status,
  handle_docker, docker_listing, docker_part, index_part, status_response, history_response,
}
use jarvinx.Web.Reads.Past.{
  handle_daily_report, handle_llm_context, handle_history_full, context_response,
}
use jarvinx.Web.Alerts.{handle_alerts, logged_alerts, read_alerts}
use jarvinx.Web.Routes.{
  Endpoint, status, history, agents, agents_toggle, docker, logs_status, file, daily_report,
  daily_report_send, alerts, llm_context, history_full, patterns, match, handle, dispatch, mux,
  answered, moved, static_part,
}
use jarvinx.Tools.Docker.{docker_available, list_containers}

-- The other fields keep their values.
pub header-set_header :
    (name other value : Text) (headers : List (Text × Text))
    → text_eq name other ≡ false
    → header other (set_header name value headers) ≡ header other headers
unfolding header set_header
header-set_header name other value [] apart = rw apart refl
header-set_header name other value ((n, v) ∷ headers) apart = elim (Bool-cases (text_eq n name)) [
  | inl same ↦
      let missed : text_eq n other ≡ false =
        ap (λ t. text_eq t other) (text_eq→≡ n name same) ∙ apart in
      rw (same, apart, missed) refl
  | inr differs ↦ rw (differs, header-set_header name other value headers apart) refl
]

module _ {F : Type 0} where
  -- The origin that a reply names.
  abbrev pub origin_of : Reply F → Text
  origin_of reply = header (codes "Access-Control-Allow-Origin") reply.headers

  pub set-origin :
      (name value : Text) (reply : Reply F)
      → text_eq name (codes "Access-Control-Allow-Origin") ≡ false
      → origin_of (set name value reply) ≡ origin_of reply
  unfolding set
  set-origin name value reply apart = header-set_header name _ value reply.headers apart

  pub http_error-origin :
      (text : Text) (code : ℕ) (reply : Reply F)
      → origin_of (http_error text code reply) ≡ origin_of reply
  unfolding http_error text_eq
  http_error-origin text code reply =
      set-origin (codes "X-Content-Type-Options") _ (set _ _ reply) refl
      ∙ set-origin (codes "Content-Type") _ reply refl

  finished-origin :
      (failure : Option Text) (v : Json F) (reply : Reply F)
      → origin_of (finished failure v reply) ≡ origin_of reply
  unfolding finished
  finished-origin none v reply = refl
  finished-origin (some error) v reply = http_error-origin error 500 reply

  pub write_json-origin :
      (failure : Json F → Option Text) (v : Json F) (reply : Reply F)
      → origin_of (write_json failure v reply) ≡ origin_of reply
  unfolding write_json text_eq
  write_json-origin failure v reply =
      finished-origin (failure v) v (set _ _ reply) ∙ set-origin (codes "Content-Type") _ reply refl

  -- What a request leaves names the origin t, if its handler does not panic.
  abbrev pub Names : Text → Option (Served F) → Type 0
  Names t none = Unit
  Names t (some served) = origin_of served.reply ≡ t

  answered-Names :
      {A : Type 0} (s : Server F) (t : Text) (o : Option A) (f : A → Option (Reply F))
      → ((a : A) → Names t (answered s (f a)))
      → Names t (answered s (o >>= f))
  unfolding answered replied
  answered-Names s t none f k = tt
  answered-Names s t (some a) f k = k a

  index_part-origin :
      ⦃fl : Float64 F⦄ (index : Option (List ℕ)) (reply : Reply F)
      → origin_of (index_part index reply) ≡ origin_of reply
  unfolding index_part text_eq
  index_part-origin none reply = http_error-origin [] 404 reply
  index_part-origin (some bytes) reply = set-origin (codes "Content-Type") _ reply refl

  read_alerts-origin :
      (w : World F) (r : Request) (o : Opening) (reply : Reply F)
      → origin_of (read_alerts w r o reply) ≡ origin_of reply
  unfolding read_alerts
  read_alerts-origin w r (opened bytes) reply = write_json-origin w.failure _ reply
  read_alerts-origin w r not_existing reply = write_json-origin w.failure _ reply
  read_alerts-origin w r unreadable reply = http_error-origin [] 500 reply

  logged_alerts-origin :
      (w : World F) (r : Request) (o : Option Logger) (reply : Reply F)
      → origin_of (logged_alerts w r o reply) ≡ origin_of reply
  unfolding logged_alerts
  logged_alerts-origin w r none reply = write_json-origin w.failure _ reply
  logged_alerts-origin w r (some l) reply = read_alerts-origin w r w.alert_file reply

  limited-origin : (reply : Reply F) → origin_of (limited reply) ≡ origin_of reply
  unfolding limited text_eq
  limited-origin reply =
      http_error-origin [] 429 (set _ _ reply) ∙ set-origin (codes "Retry-After") _ reply refl

  found_agent-origin :
      (w : World F) (name : Text) (a : Option (Agent F)) (s : Server F) (reply : Reply F)
      → origin_of (found_agent w name a s reply).reply ≡ origin_of reply
  unfolding found_agent replied
  found_agent-origin w name none s reply = http_error-origin [] 404 reply
  found_agent-origin w name (some a) s reply = write_json-origin w.failure _ reply

  decoded-origin :
      (w : World F) (name : Option Text) (s : Server F) (reply : Reply F)
      → origin_of (decoded w name s reply).reply ≡ origin_of reply
  unfolding decoded replied
  decoded-origin w none s reply = http_error-origin [] 400 reply
  decoded-origin w (some []) s reply = http_error-origin [] 400 reply
  decoded-origin w (some (c ∷ name)) s reply = found_agent-origin w (c ∷ name) _ s reply

  admitted_toggle-origin :
      (w : World F) (r : Request) (b : TokenBucket F × Bool) (s : Server F) (reply : Reply F)
      → origin_of (admitted_toggle w r b s reply).reply ≡ origin_of reply
  unfolding admitted_toggle replied
  admitted_toggle-origin w r (bucket, false) s reply = limited-origin reply
  admitted_toggle-origin w r (bucket, true) s reply =
      decoded-origin w (decode_body w r.body) (record s { limit_toggle = bucket }) reply

  admitted_send-origin :
      (w : World F) (b : TokenBucket F × Bool) (s : Server F) (reply : Reply F)
      → origin_of (admitted_send w b s reply).reply ≡ origin_of reply
  unfolding admitted_send replied
  admitted_send-origin w (bucket, false) s reply = limited-origin reply
  admitted_send-origin w (bucket, true) s reply =
      elim (Bool-cases (sendable s.cfg.daily_report_enabled s.daily_reporter)) [
        | inl sends ↦ rw sends (write_json-origin w.failure _ reply)
        | inr idle ↦ rw idle (write_json-origin w.failure _ reply)
      ]

  -- A guard on the method before a handler.
  guarded-origin :
      (b : Bool) (x y reply : Reply F)
      → origin_of x ≡ origin_of reply
      → origin_of y ≡ origin_of reply
      → origin_of (if b then x else y) ≡ origin_of reply
  guarded-origin true x y reply h k = h
  guarded-origin false x y reply h k = k

  guarded_served-origin :
      (b : Bool) (x y : Served F) (reply : Reply F)
      → origin_of x.reply ≡ origin_of reply
      → origin_of y.reply ≡ origin_of reply
      → origin_of (if b then x else y).reply ≡ origin_of reply
  guarded_served-origin true x y reply h k = h
  guarded_served-origin false x y reply h k = k

module _ {F : Type 0} ⦃fl : Float64 F⦄ where
  json_after-Names :
      {A : Type 0} (w : World F) (s : Server F) (reply : Reply F) (o : Option A) (v : A → Json F)
      → Names (origin_of reply) (answered s (o >>= λ a. some (write_json w.failure (v a) reply)))
  unfolding answered replied
  json_after-Names w s reply o v =
      answered-Names s (origin_of reply) o (λ a. some (write_json w.failure (v a) reply))
        (λ a. write_json-origin w.failure (v a) reply)

  docker_listing-Names :
      (w : World F) (s : Server F) (reply : Reply F)
      → Names (origin_of reply) (answered s (docker_listing w reply))
  unfolding docker_listing
  docker_listing-Names w s reply =
      json_after-Names w s reply (list_containers w.unix w.parse_containers w.docker_list)
        (λ answer. docker_json (docker_part answer))

  handle_docker-Names :
      (w : World F) (s : Server F) (reply : Reply F)
      → Names (origin_of reply) (answered s (handle_docker w reply))
  unfolding handle_docker answered replied
  handle_docker-Names w s reply = elim (Bool-cases (docker_available w.docker_version)) [
    | inl there ↦ rw there (docker_listing-Names w s reply)
    | inr absent ↦ rw absent (write_json-origin w.failure _ reply)
  ]

  pub handle-Names :
      (w : World F) (r : Request) (e : Endpoint) (s : Server F) (reply : Reply F)
      → Names (origin_of reply) (handle w r e s reply)
  unfolding handle answered replied handle_status handle_history handle_agents handle_file
      handle_logs_status handle_docker docker_listing handle_daily_report handle_llm_context
      handle_history_full handle_alerts handle_agent_toggle handle_daily_report_send
  handle-Names w r status s reply =
      json_after-Names w s reply (last_cycles (pos 1) s.state)
        (λ cycles. status_json (status_response w s cycles))
  handle-Names w r history s reply =
      json_after-Names w s reply (last_cycles (pos 10) s.state)
        (λ cycles. history_json (history_response s cycles))
  handle-Names w r agents s reply = write_json-origin w.failure _ reply
  handle-Names w r agents_toggle s reply =
      guarded_served-origin (text_eq r.method (codes "POST")) _ _ reply
        (admitted_toggle-origin w r (allow w.seconds w.now s.limit_toggle) s reply)
        (http_error-origin [] 405 reply)
  handle-Names w r docker s reply = handle_docker-Names w s reply
  handle-Names w r logs_status s reply = write_json-origin w.failure _ reply
  handle-Names w r file s reply = write_json-origin w.failure _ reply
  handle-Names w r daily_report s reply = write_json-origin w.failure _ reply
  handle-Names w r daily_report_send s reply =
      guarded_served-origin (text_eq r.method (codes "POST")) _ _ reply
        (admitted_send-origin w (allow w.seconds w.now s.limit_send_report) s reply)
        (http_error-origin [] 405 reply)
  handle-Names w r alerts s reply =
      guarded-origin (text_eq r.method (codes "GET")) _ _ reply
        (logged_alerts-origin w r s.alert_logger reply) (http_error-origin [] 405 reply)
  handle-Names w r llm_context s reply =
      answered-Names s (origin_of reply) (last_cycles (pos 20) s.state)
        (λ cycles. last (pos 10) s.state >>= λ snaps.
          some (write_json w.failure (context_json (context_response w s cycles snaps)) reply))
        (λ cycles.
          json_after-Names w s reply (last (pos 10) s.state)
            (λ snaps. context_json (context_response w s cycles snaps)))
  handle-Names w r history_full s reply =
      guarded-origin (text_eq r.method (codes "GET")) _ _ reply
        (write_json-origin w.failure _ reply) (http_error-origin [] 405 reply)

  pub mux-Names :
      (clean : Text → Text) (w : World F) (r : Request) (s : Server F) (reply : Reply F)
      → Names (origin_of reply) (mux clean w r s reply)
  unfolding mux dispatch moved static_part handle_index replied text_eq
  mux-Names clean w r s reply = elim (Bool-cases (text_eq (clean r.path) r.path)) [
    | inr moves ↦ rw moves (set-origin (codes "Location") _ reply refl)
    | inl stays ↦ rw stays (go (match patterns r.path))
  ]
    where
      go : (e : Option Endpoint) → Names (origin_of reply) (dispatch w r e s reply)
      go (some e) = handle-Names w r e s reply
      go none = elim (Bool-cases (has_prefix r.path (codes "/static/"))) [
        | inl static ↦ rw static refl
        | inr index ↦ rw index (index_part-origin s.index reply)
      ]
