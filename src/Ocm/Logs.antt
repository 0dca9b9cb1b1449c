-- ===== src/Ocm/Logs.antt =====
-- pkg/common/providers/ocmprovider/logs.go. Which errors say that a log is not found (their text, or
-- the id of the error of a response, has "404") is a parameter.
use osde2e.Prelude.{String, Bool, Option, none, some, List, [], ◌∷◌, if◌then◌else◌}
use osde2e.Prelude.Maps.{assign}
use osde2e.Go.{Error, wrapf}
use osde2e.Go.Calls.{Reply, replied, refused}

-- The logs so far, and an error with them: both are returned.
pub record Logs : Type 0 where
  pub logs : List (String × String)
  pub error : Option Error

abbrev pub log_failed : String → Error → Error
log_failed id = wrapf "the contents of log '%s' couldn't be retrieved: %v" (id ∷ [])

module _ (is_not_found : Error → Bool) (content : String → Reply String) where
  -- A log that is not found is left out; another error ends the loop.
  abbrev pub add_log :
      List (String × String) → String → Reply String → (List (String × String) → Logs) → Logs
  add_log logs id (replied text) rest = rest (assign id text logs)
  add_log logs id (refused e) rest =
      let next = rest logs in
      if is_not_found e then next else record { logs = logs; error = some (log_failed id e) }

  unfoldable pub collect_logs : List (String × String) → List String → Logs
  collect_logs logs [] = record { logs = logs; error = none }
  collect_logs logs (id ∷ ids) = add_log logs id (content id) (λ logs'. collect_logs logs' ids)

  -- `Logs`, on what `getLogList` gives.
  abbrev pub logs_of : String → Reply (List String) → Logs
  logs_of cluster (replied ids) = collect_logs [] ids
  logs_of cluster (refused e) = record {
    logs = [];
    error = some (
        wrapf "couldn't get log list: %v" []
          (wrapf "couldn't retrieve log list for cluster '%s': %v" (cluster ∷ []) e));
  }
