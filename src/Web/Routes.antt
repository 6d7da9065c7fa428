-- ===== src/Web/Routes.antt =====
-- The routes and the middlewares of runtime/web/server.go. `http.ServeMux` matches a path that is clean
-- against its patterns and redirects another one to its clean form, which `clean` gives; an escaped slash
-- in a path is not told apart from a slash. Serving the files under /static/ changes nothing; what
-- `http.FileServer` answers is the file of the path.

use jarvinx.Shared.{List, [], ◌∷◌, Option, none, some, if◌then◌else◌}
use jarvinx.Shared.Float.{Float64}
use jarvinx.Shared.Text.{Text, codes, text_eq, has_prefix, trim_prefix}
use jarvinx.Web.Server.{Server, World}
use jarvinx.Web.Responses.{Request, Reply, empty, static_file, set}
use jarvinx.Web.Reads.{
  handle_status, handle_history, handle_agents, handle_file, handle_index, handle_logs_status,
  handle_docker,
}
use jarvinx.Web.Reads.Past.{handle_daily_report, handle_llm_context, handle_history_full}
use jarvinx.Web.Alerts.{handle_alerts}
use jarvinx.Web.Changes.{Served, replied, handle_agent_toggle, handle_daily_report_send}

pub data Endpoint : Type 0 where
  status history agents agents_toggle docker logs_status file : Endpoint
  daily_report daily_report_send alerts llm_context history_full : Endpoint

-- The patterns of the API.
abbrev pub patterns : List (Text × Endpoint)
patterns =
    (codes "/api/status", status)
    ∷ (codes "/api/history", history)
    ∷ (codes "/api/agents", agents)
    ∷ (codes "/api/agents/toggle", agents_toggle)
    ∷ (codes "/api/docker", docker)
    ∷ (codes "/api/logs/status", logs_status)
    ∷ (codes "/api/file", file)
    ∷ (codes "/api/daily-report", daily_report)
    ∷ (codes "/api/daily-report/send", daily_report_send)
    ∷ (codes "/api/alerts", alerts)
    ∷ (codes "/api/llm-context", llm_context)
    ∷ (codes "/api/history/full", history_full)
    ∷ []

unfoldable pub match : List (Text × Endpoint) → Text → Option Endpoint
unfolding text_eq
match [] path = none
match ((pattern', e) ∷ rest) path =
    let later = match rest path in if text_eq path pattern' then some e else later

module _ {F : Type 0} where
  unfoldable pub answered : Server F → Option (Reply F) → Option (Served F)
  unfolding replied
  answered s none = none
  answered s (some reply) = some (replied s reply)

  -- http.StatusMovedPermanently, without the text of its body.
  unfoldable pub moved : Text → Reply F → Reply F
  unfolding set
  moved path reply =
      let w1 = set (codes "Location") path reply in record w1 { status = 301; body = empty }

  unfoldable pub static_part : Text → Reply F → Reply F
  unfolding trim_prefix
  static_part path reply = record reply { body = static_file (trim_prefix path (codes "/static/")) }

  module _ ⦃fl : Float64 F⦄ where
    -- `none`: the handler panicked, and the connection is closed.
    unfoldable pub handle : World F → Request → Endpoint → Server F → Reply F → Option (Served F)
    unfolding answered replied handle_status handle_history handle_agents handle_file
        handle_logs_status handle_docker handle_daily_report handle_llm_context handle_history_full
        handle_alerts handle_agent_toggle handle_daily_report_send
    handle w r status s reply = answered s (handle_status w s reply)
    handle w r history s reply = answered s (handle_history w s reply)
    handle w r agents s reply = some (replied s (handle_agents w s reply))
    handle w r agents_toggle s reply = some (handle_agent_toggle w r s reply)
    handle w r docker s reply = answered s (handle_docker w reply)
    handle w r logs_status s reply = some (replied s (handle_logs_status w s reply))
    handle w r file s reply = some (replied s (handle_file w s reply))
    handle w r daily_report s reply = some (replied s (handle_daily_report w s reply))
    handle w r daily_report_send s reply = some (handle_daily_report_send w r s reply)
    handle w r alerts s reply = some (replied s (handle_alerts w r s reply))
    handle w r llm_context s reply = answered s (handle_llm_context w s reply)
    handle w r history_full s reply = some (replied s (handle_history_full w r s reply))

    unfoldable pub dispatch :
        World F → Request → Option Endpoint → Server F → Reply F → Option (Served F)
    unfolding handle replied static_part handle_index has_prefix
    dispatch w r (some e) s reply = handle w r e s reply
    dispatch w r none s reply =
        if has_prefix r.path (codes "/static/")
        then some (replied s (static_part r.path reply))
        else some (replied s (handle_index s reply))

    module _ (clean : Text → Text) where
      unfoldable pub mux : World F → Request → Server F → Reply F → Option (Served F)
      unfolding dispatch match replied moved text_eq
      mux w r s reply =
          if text_eq (clean r.path) r.path
          then dispatch w r (match patterns r.path) s reply
          else some (replied s (moved (clean r.path) reply))
