-- ===== src/Web/Changes.antt =====
-- The handlers of runtime/web/server.go that change something: handleAgentToggle and
-- handleDailyReportSend.
pub mod Toggle
use jarvinx.Shared.{
  ℕ, Bool, true, false, not, ◌||◌, List, [], ◌∷◌, ◌++◌, Option, none, some, ltb, if◌then◌else◌,
  length, take,
}
use jarvinx.Shared.Float.{Float64}
use jarvinx.Shared.Text.{Text, codes, text_eq}
use jarvinx.Agents.Base
use jarvinx.Agents.Base.{BaseAgent}
use jarvinx.Agents.DailyReport.{DailyReporter}
use jarvinx.Agents.Registry.{Agent, Registry, base, on_base, get, change}
use jarvinx.Web.RateLimit.{TokenBucket, allow}
use jarvinx.Web.Server.{Server, World}
use jarvinx.Web.Responses.{
  Request, Reply, ToggleResponse, toggle_json, sent_json, http_error, write_json, set,
}

-- A goroutine that a handler starts.
pub data Job : Type 0 where
  send_now : Job

-- What a request leaves: the server, the reply and the goroutines that it started.
pub record Served (F : Type 0) : Type 0 where
  pub server : Server F
  pub reply : Reply F
  pub jobs : List Job

unfoldable pub toggle_message : Bool → Text → Text
toggle_message enabled name =
    codes "agent '" ++ name ++ (if enabled then codes "' activé" else codes "' désactivé")

unfoldable pub sendable : Bool → Option DailyReporter → Bool
sendable enabled none = false
sendable enabled (some r) = enabled

module _ {F : Type 0} where
  unfoldable pub replied : Server F → Reply F → Served F
  replied s reply = record { server = s; reply = reply; jobs = [] }

  unfoldable pub limited : Reply F → Reply F
  unfolding set http_error
  limited reply =
      http_error (codes "rate limit exceeded") 429 (set (codes "Retry-After") (codes "1") reply)

  -- http.MaxBytesReader, and the decoder.
  unfoldable pub decode_body : World F → List ℕ → Option Text
  decode_body w body = w.decode_toggle (take 4096 body) (ltb 4096 (length body))

  -- The method that is called on an agent.
  unfoldable pub toggle : Agent F → BaseAgent → BaseAgent
  unfolding base Base.enable Base.disable
  toggle a = if (base a).enabled then Base.disable else Base.enable

  -- The agent that Get found is switched through its pointer.
  unfoldable pub switched : Text → Agent F → Server F → Server F
  unfolding toggle change
  switched name a s =
      let (agents, found) = change (toggle a) name s.registry.agents in
      record s { registry = record { agents = agents } }

  unfoldable pub found_agent : World F → Text → Option (Agent F) → Server F → Reply F → Served F
  unfolding replied toggle_message toggle switched base on_base http_error write_json
  found_agent w name none s reply =
      replied s (http_error (codes "agent '" ++ name ++ codes "' not found") 404 reply)
  found_agent w name (some a) s reply = replied (switched name a s) (
      write_json w.failure
        (toggle_json (record {
          name = name;
          enabled = (base (on_base (toggle a) a)).enabled;
          message = toggle_message (not (base a).enabled) name;
        }))
        reply)

  unfoldable pub decoded : World F → Option Text → Server F → Reply F → Served F
  unfolding replied found_agent get http_error
  decoded w none s reply = replied s (http_error (codes "invalid JSON body") 400 reply)
  decoded w (some []) s reply = replied s (http_error (codes "name is required") 400 reply)
  decoded w (some (c ∷ name)) s reply = found_agent w (c ∷ name) (get (c ∷ name) s.registry) s reply

  unfoldable pub admitted_toggle :
      World F → Request → TokenBucket F × Bool → Server F → Reply F → Served F
  unfolding replied limited decoded decode_body
  admitted_toggle w r (bucket, false) s reply =
      replied (record s { limit_toggle = bucket }) (limited reply)
  admitted_toggle w r (bucket, true) s reply =
      decoded w (decode_body w r.body) (record s { limit_toggle = bucket }) reply

  unfoldable pub admitted_send : World F → TokenBucket F × Bool → Server F → Reply F → Served F
  unfolding replied limited sendable write_json
  admitted_send w (bucket, false) s reply =
      replied (record s { limit_send_report = bucket }) (limited reply)
  admitted_send w (bucket, true) s reply =
      let s' = record s { limit_send_report = bucket } in
      if sendable s.cfg.daily_report_enabled s.daily_reporter
      then record {
        server = s';
        reply =
            write_json w.failure
              (sent_json (record { sent = true; message = codes "Rapport en cours d'envoi" }))
              reply;
        jobs = send_now ∷ [];
      }
      else replied s' (
          write_json w.failure
            (sent_json (record {
              sent = false;
              message = codes "DailyReporter non configuré — active JARVINX_DAILY_REPORT=true";
            }))
            reply)

  module _ ⦃fl : Float64 F⦄ where
    unfoldable pub handle_agent_toggle : World F → Request → Server F → Reply F → Served F
    unfolding text_eq replied admitted_toggle allow http_error
    handle_agent_toggle w r s reply =
        if text_eq r.method (codes "POST")
        then admitted_toggle w r (allow w.seconds w.now s.limit_toggle) s reply
        else replied s (http_error (codes "method not allowed") 405 reply)

    unfoldable pub handle_daily_report_send : World F → Request → Server F → Reply F → Served F
    unfolding text_eq replied admitted_send allow http_error
    handle_daily_report_send w r s reply =
        if text_eq r.method (codes "POST")
        then admitted_send w (allow w.seconds w.now s.limit_send_report) s reply
        else replied s (http_error (codes "method not allowed") 405 reply)
