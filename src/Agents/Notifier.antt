-- ===== src/Agents/Notifier.antt =====
-- runtime/agents/notifier.go. A Send is one HTTP request; the network's answer is an argument, and
-- what a dispatch does is the list of what it logs and of the requests that it makes. Texts that
-- are formatted from an alert keep the alert; encoding them as JSON cannot fail.
pub mod Laws
use jarvinx.Shared.{
  ℕ, zero, suc, ◌+◌, Bool, true, false, List, [], ◌∷◌, ◌++◌, Option, none, some, ◌==◌,
  if◌then◌else◌,
}
use jarvinx.Shared.Text.{Text, codes}
use jarvinx.Agents.Records.{Alert, AlertLevel, alert_warning, alert_critical}

-- The implementations of the interface `Notifier`.
pub data Notifier : Type 0 where
  discord : (webhook_url : Text) → Notifier
  slack : (webhook_url : Text) → Notifier
  ntfy : (server_url topic : Text) → Notifier
  gotify : (server_url token : Text) → Notifier

unfoldable pub name : Notifier → Text
name (discord url) = codes "discord"
name (slack url) = codes "slack"
name (ntfy url topic) = codes "ntfy"
name (gotify url token) = codes "gotify"

-- The body of a request, with what it computes from the alert's level.
pub data Body (F : Type 0) : Type 0 where
  embed : (color : ℕ) (critical : Bool) → Alert F → Body F
  text : (emoji : Text) → Alert F → Body F
  plain : Alert F → Body F
  titled : (title : Text) (priority : ℕ) → Alert F → Body F

pub record Request (F : Type 0) : Type 0 where
  pub url : Text
  pub headers : List (Text × Text)
  pub body : Body F

-- The answer: none if the request could not be made or got no response, else a status code.
pub data SendError : Type 0 where
  post_failed : SendError
  bad_status : ℕ → SendError

unfoldable pub is_critical : AlertLevel → Bool
is_critical alert_critical = true
is_critical alert_warning = false

json_type : Text × Text
json_type = (codes "Content-Type", codes "application/json")

unfoldable pub level_name : AlertLevel → Text
level_name alert_warning = codes "warning"
level_name alert_critical = codes "critical"

module _ {F : Type 0} where
  unfoldable pub title : Alert F → Text
  unfolding level_name
  title alert = codes "JARVINx — " ++ level_name alert.level ++ codes " " ++ alert.metric

  unfoldable pub request : Notifier → Alert F → Request F
  unfolding is_critical json_type title
  request (discord url) alert = record {
    url = url;
    headers = json_type ∷ [];
    body =
        embed (if is_critical alert.level then 16711680 else 16776960) (is_critical alert.level)
          alert;
  }
  request (slack url) alert = record {
    url = url;
    headers = json_type ∷ [];
    body =
        text (if is_critical alert.level then codes ":rotating_light:" else codes ":warning:")
          alert;
  }
  request (ntfy url topic) alert = record {
    url = url ++ codes "/" ++ topic;
    headers =
        (codes "Title", title alert)
        ∷ (codes "Priority", if is_critical alert.level then codes "urgent" else codes "default")
        ∷ (codes "Tags", codes "jarvinx,alert")
        ∷ [];
    body = plain alert;
  }
  request (gotify url token) alert = record {
    url = url ++ codes "/message";
    headers = json_type ∷ (codes "X-Gotify-Key", token) ∷ [];
    body = titled (title alert) (if is_critical alert.level then 10 else 5) alert;
  }

-- http.StatusNoContent for Discord, http.StatusOK for the others.
unfoldable pub wanted_status : Notifier → ℕ
wanted_status (discord url) = 204
wanted_status (slack url) = 200
wanted_status (ntfy url topic) = 200
wanted_status (gotify url token) = 200

unfoldable pub send : Notifier → Option ℕ → Option SendError
unfolding wanted_status
send n none = some post_failed
send n (some code) = if code == wanted_status n then none else some (bad_status code)

pub record NotifierDispatcher : Type 0 where
  pub notifiers : List Notifier
  pub dry_run : Bool

unfoldable pub new_notifier_dispatcher : Bool → NotifierDispatcher
new_notifier_dispatcher dry_run = record { notifiers = []; dry_run = dry_run }

unfoldable pub register : Notifier → NotifierDispatcher → NotifierDispatcher
register n d = record d { notifiers = d.notifiers ++ n ∷ [] }

pub data Outcome : Type 0 where
  simulated : Text → Outcome
  send_failed : Text → SendError → Outcome
  notified : Text → Outcome

outcome : Text → Option SendError → Outcome
outcome n none = notified n
outcome n (some error) = send_failed n error

module _ {F : Type 0} where
  -- The loop of Dispatch; `net i` answers its request number i.
  unfoldable pub dispatch_from :
      (ℕ → Request F → Option ℕ)
      → Bool
      → Alert F
      → ℕ
      → List Notifier
      → List Outcome × List (Request F)
  unfolding outcome send name
  dispatch_from net dry_run alert i [] = ([], [])
  dispatch_from net dry_run alert i (n ∷ ns) =
      let (outcomes, requests) = dispatch_from net dry_run alert (i + 1) ns in
      if dry_run then (simulated (name n) ∷ outcomes, requests) else (
        outcome (name n) (send n (net i (request n alert))) ∷ outcomes,
        request n alert ∷ requests,
      )

  unfoldable pub dispatch :
      (ℕ → Request F → Option ℕ) → NotifierDispatcher → Alert F → List Outcome × List (Request F)
  unfolding dispatch_from
  dispatch net d alert = dispatch_from net d.dry_run alert 0 d.notifiers
