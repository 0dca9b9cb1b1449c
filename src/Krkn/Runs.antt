-- ===== src/Krkn/Runs.antt =====
-- krknai.go: `Execute` with the container that it runs twice and the expiry of the cluster around
-- it. What `updateKrknConfig` and `getPrometheusToken` return is a reply.
pub mod Ends
use osde2e.Prelude.{
  ℕ, ◌*◌, ◌%◌, String, Bool, true, false, not, ◌||◌, Option, none, some, List, [], ◌∷◌, ◌++◌,
  str_eq, if◌then◌else◌, concat,
}
use osde2e.Prelude.Int.{ℤ, pos, word, signed, word_size, add_int, ltb_ℤ}
use osde2e.Go.{Error, errorf, wrapf}
use osde2e.Go.Calls.{Reply, replied, refused, End, ends, fails, dies, wrapped_end}
use osde2e.Go.Steps.{
  Step, pure, fail, get, change, from_reply, bind_end, or_fail, forget, step_if, ◌>>=◌, ◌>>◌,
}

-- Durations are int64 numbers of nanoseconds.
abbrev pub minute : ℤ
minute = pos 60000000000

abbrev pub hour : ℤ
hour = pos 3600000000000

-- `krknTimePerScenario`, `krknClusterExpiryBuffer` and `krknPostRunClusterGrace`.
abbrev pub krkn_time_per_scenario : ℤ
krkn_time_per_scenario = pos 300000000000

abbrev pub krkn_cluster_expiry_buffer : ℤ
krkn_cluster_expiry_buffer = hour

abbrev pub krkn_post_run_cluster_grace : ℤ
krkn_post_run_cluster_grace = hour

-- int64 multiplication.
abbrev pub mul_int : ℤ → ℤ → ℤ
mul_int a b = signed ((word a * word b) % word_size)

-- The settings; the default duration of a token is of the library osde2e-common.
pub record RunSettings : Type 0 where
  pub dry_run : Bool
  pub generations : ℤ
  pub population : ℤ
  pub default_token_duration : ℤ
  pub shared_dir : String
  pub report_dir : String
  pub namespace : String
  pub pod_label : String
  pub node_label : String
  pub skip_pod_name : String

abbrev pub is_positive : ℤ → Bool
is_positive n = ltb_ℤ (pos 0) n

unfoldable pub krkn_prometheus_token_duration : RunSettings → ℤ
krkn_prometheus_token_duration s =
    if not (is_positive s.generations) || not (is_positive s.population)
    then s.default_token_duration
    else mul_int (mul_int s.generations s.population) krkn_time_per_scenario

pub data Call : Type 0 where
  expire : String → ℤ → Call
  run_container : String → List String → Call

-- The settings `config.Cluster.ID` and `Passing`, and the fields of `KrknAI` that a run changes.
pub record Krkn : Type 0 where
  pub cluster_id : String
  pub passing : Bool
  pub exit_code : ℕ
  pub tests_passed : Bool
  pub krkn_extended_cluster_expiry : Bool
  pub calls : List Call

abbrev pub made : Call → Krkn → Krkn
made c k = record k { calls = k.calls ++ (c ∷ []) }

-- `detectContainerRuntime`: what looking up podman and docker gives.
unfoldable pub detect_container_runtime : Reply String → Reply String → Reply String
detect_container_runtime (replied path) docker = replied path
detect_container_runtime (refused e) (replied path) = replied path
detect_container_runtime (refused e) (refused x) =
    refused (errorf "no container runtime found: install podman or docker" [])

-- `config.KrknAIModeDiscover` and `config.KrknAIModeRun`.
pub data Mode : Type 0 where
  discover run : Mode

abbrev pub mode_name : Mode → String
mode_name discover = "discover"
mode_name run = "run"

abbrev pub env : String → String → List String
env name value = "-e" ∷ concat (name ∷ "=" ∷ value ∷ []) ∷ []

abbrev pub env_if_set : String → String → List String
env_if_set name value = if str_eq value "" then [] else env name value

abbrev pub token_args : Reply String → List String
token_args (refused e) = []
token_args (replied token) = env "PROMETHEUS_TOKEN" token

abbrev pub mode_args : RunSettings → Mode → Reply String → List String
mode_args s run token =
    ("--privileged" ∷ [])
    ++ (env "CONFIG_FILE" "/mount/krkn-ai.yaml"
        ++ (env "OUTPUT_DIR" "/krknresults/" ++ token_args token))
mode_args s discover token =
    env "OUTPUT_DIR" "/mount"
    ++ (env "NAMESPACE" s.namespace
        ++ (env "POD_LABEL" s.pod_label
            ++ (env_if_set "NODE_LABEL" s.node_label
                ++ env_if_set "SKIP_POD_NAME" s.skip_pod_name)))

unfoldable pub container_args : RunSettings → Mode → Reply String → List String
container_args s mode token =
    ("run"
      ∷ "--rm"
      ∷ "-v"
      ∷ concat (s.shared_dir ∷ ":/mount:Z" ∷ [])
      ∷ "-v"
      ∷ concat (s.report_dir ∷ ":/krknresults/:Z" ∷ [])
      ∷ [])
    ++ (env "MODE" (mode_name mode)
        ++ (env "KUBECONFIG" "/mount/kubeconfig"
            ++ (env "VERBOSE" "2"
                ++ (env "HOME" "/tmp"
                    ++ (env "TMPDIR" "/tmp"
                        ++ (mode_args s mode token
                            ++ ("quay.io/krkn-chaos/krkn-ai:0.0.3" ∷ [])))))))

-- The replies of one `runKrknContainer`.
pub record ContainerReplies : Type 0 where
  pub podman : Reply String
  pub docker : Reply String
  pub token : Reply String
  pub finished : Reply Unit

-- The reply for the cluster is the time until its expiration.
pub record ExecuteReplies : Type 0 where
  pub until_expiration : Reply ℤ
  pub extended : Reply Unit
  pub discovered : ContainerReplies
  pub config_updated : Reply Unit
  pub ran : ContainerReplies

abbrev pub as_it_is : Error → Error
as_it_is e = e

unfoldable pub run_krkn_container : RunSettings → Mode → ContainerReplies → Step Krkn Unit
run_krkn_container s mode r = do
  runtime ← from_reply as_it_is (detect_container_runtime r.podman r.docker)
  _ ← change (made (run_container runtime (container_args s mode r.token)))
  from_reply (wrapf "container execution failed: %w" []) r.finished

abbrev pub expire_later : ExecuteReplies → ℤ → Krkn → Step Krkn Unit
expire_later r duration k = do
  _ ← change (made (expire k.cluster_id duration))
  _ ← from_reply (wrapf "extend cluster expiry: %w" []) r.extended
  change (λ k. record k { krkn_extended_cluster_expiry = true })

abbrev pub run_duration : RunSettings → ℤ
run_duration s = add_int (krkn_prometheus_token_duration s) krkn_cluster_expiry_buffer

abbrev pub ensure_for : RunSettings → ExecuteReplies → Krkn → Step Krkn Unit
ensure_for s r k =
    from_reply (wrapf "get cluster for expiry check: %w" []) r.until_expiration >>= λ time.
    if ltb_ℤ time (run_duration s) then expire_later r (run_duration s) k else pure tt

unfoldable pub ensure_cluster_expiry_for_krkn_run : RunSettings → ExecuteReplies → Step Krkn Unit
ensure_cluster_expiry_for_krkn_run s r =
    get >>= λ k. if str_eq k.cluster_id "" then pure tt else ensure_for s r k

-- The error of the call only makes a message.
unfoldable pub restore_cluster_expiry_after_krkn_run : Krkn → Krkn
restore_cluster_expiry_after_krkn_run k =
    if not k.krkn_extended_cluster_expiry || str_eq k.cluster_id ""
    then k
    else made (expire k.cluster_id krkn_post_run_cluster_grace) k

abbrev pub failed_state : Krkn → Krkn
failed_state k = record k { exit_code = 1; passing = false }

abbrev pub handled_end : {A : Type 0} → (Error → Error) → End A → Krkn → End A × Krkn
handled_end wrap (ends a) k = (ends a, k)
handled_end wrap (fails e) k = (fails (wrap e), failed_state k)
handled_end wrap dies k = (dies, k)

-- `handleExecutionError`, of a step that fails.
abbrev pub handled : {A : Type 0} → (Error → Error) → Step Krkn A → Step Krkn A
handled wrap m k = let r = m k in handled_end wrap r.0 r.1

abbrev pub run_steps : RunSettings → ExecuteReplies → Step Krkn Unit
run_steps s r = do
  _ ← forget (ensure_cluster_expiry_for_krkn_run s r)
  _ ← handled (wrapf "discover mode failed: %w" []) (run_krkn_container s discover r.discovered)
  _ ← handled (wrapf "failed to update config: %w" []) (from_reply as_it_is r.config_updated)
  handled (wrapf "run mode failed: %w" []) (run_krkn_container s run r.ran)

-- The deferred call runs however the steps end.
abbrev pub restoring : Step Krkn Unit → Step Krkn Unit
restoring m k = let r = m k in (r.0, restore_cluster_expiry_after_krkn_run r.1)

abbrev pub started : Krkn → Krkn
started k = record k { tests_passed = true; passing = true }

unfoldable pub execute : RunSettings → ExecuteReplies → Step Krkn Unit
execute s r = do _ ← change started; if s.dry_run then pure tt else restoring (run_steps s r)
