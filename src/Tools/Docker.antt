-- ===== src/Tools/Docker.antt =====
-- runtime/tools/docker.go. The answer of the Docker daemon is an argument, and `encoding/json` and
-- `time.Unix` are parameters.
use jarvinx.Shared.{
  ℕ, Bool, false, ◌&&◌, ◌||◌, not, List, [], ◌∷◌, ◌++◌, Option, none, some, ltb, leb, ◌==◌,
  if◌then◌else◌, length, take, ◌>>=◌,
}
use jarvinx.Shared.Int.{ℤ, pos}
use jarvinx.Shared.Clock.{Time}
use jarvinx.Shared.Text.{Text, codes, text_eq, has_prefix, contains}
use jarvinx.Shared.Parse.{atoi}

pub record ContainerState : Type 0 where
  pub id : Text
  pub name : Text
  pub image : Text
  pub status : Text
  pub running : Bool
  pub exited : Bool
  pub unhealthy : Bool
  pub restart_count : ℤ
  pub created_at : Time

-- An element of the daemon's answer.
pub record RawContainer : Type 0 where
  pub id : Text
  pub names : List Text
  pub image : Text
  pub state : Text
  pub status : Text
  pub created : ℤ

pub data DockerError : Type 0 where
  create_failed docker_failed read_failed parse_failed : DockerError
  docker_status : ℕ → DockerError

-- A request that could not be made, or that was made and failed, or its answer: the status and the
-- body, unless reading it failed.
pub data DockerAnswer : Type 0 where
  not_created : DockerAnswer
  unanswered : DockerAnswer
  answered : ℕ → Option Text → DockerAnswer

unfoldable pub docker_available : DockerAnswer → Bool
docker_available not_created = false
docker_available unanswered = false
docker_available (answered status body) = status == 200

-- The class \s of a regular expression.
is_blank : ℕ → Bool
is_blank c = c == 32 || c == 9 || c == 10 || c == 12 || c == 13

after_blanks : Text → Text
unfolding is_blank
after_blanks [] = []
after_blanks (c ∷ s) = let rest = after_blanks s in if is_blank c then rest else c ∷ s

-- The digits of the first match of (\d+)\s+restarts?, after the digits just read.
find_restarts : Text → Text → Option Text
unfolding is_blank after_blanks has_prefix
find_restarts run [] = none
find_restarts run (c ∷ s) =
    let digit = leb 48 c && leb c 57 in
    let rest = find_restarts (if digit then run ++ c ∷ [] else []) s in
    if not (text_eq run []) && is_blank c && has_prefix (after_blanks s) (codes "restart")
    then some run
    else rest

number_of : Option ℤ → ℤ
number_of none = pos 0
number_of (some n) = n

restarts_of : Option Text → ℤ
unfolding number_of atoi
restarts_of none = pos 0
restarts_of (some digits) = number_of (atoi digits)

unfoldable pub restart_count : Text → ℤ
unfolding find_restarts restarts_of
restart_count status = restarts_of (find_restarts [] status)

-- The first name without its slash.
first_name : Text → Text
first_name [] = []
first_name (c ∷ s) = if c == 47 then s else c ∷ s

name_of : Text → List Text → Text
unfolding first_name
name_of id [] = take 12 id
name_of id (name ∷ names) = first_name name

module _ (unix : ℤ → Time) where
  -- `none`: the slice of the first 12 characters of a shorter id panics.
  unfoldable pub container_of : RawContainer → Option ContainerState
  unfolding text_eq contains restart_count name_of
  container_of c =
      if ltb (length c.id) 12
      then none
      else some (record {
        id = take 12 c.id;
        name = name_of c.id c.names;
        image = c.image;
        status = c.state;
        running = text_eq c.state (codes "running");
        exited = text_eq c.state (codes "exited");
        unhealthy = contains c.status (codes "unhealthy");
        restart_count = restart_count c.status;
        created_at = unix c.created;
      })

  containers_of : List RawContainer → Option (List ContainerState)
  unfolding container_of
  containers_of [] = some []
  containers_of (c ∷ raw) = do
    container ← container_of c
    rest ← containers_of raw
    some (container ∷ rest)

  module _ (parse : Text → Option (List RawContainer)) where
    listed : Option (List RawContainer) → Option (List ContainerState × Option DockerError)
    unfolding containers_of
    listed none = some ([], some parse_failed)
    listed (some raw) = elim (containers_of raw) [
      | none ↦ none
      | some containers ↦ some (containers, none)
    ]

    -- The containers and the error; `none` is a panic.
    unfoldable pub list_containers :
        DockerAnswer → Option (List ContainerState × Option DockerError)
    unfolding listed
    list_containers not_created = some ([], some create_failed)
    list_containers unanswered = some ([], some docker_failed)
    list_containers (answered status none) =
        if status == 200
        then some ([], some read_failed)
        else some ([], some (docker_status status))
    list_containers (answered status (some body)) =
        if status == 200 then listed (parse body) else some ([], some (docker_status status))
