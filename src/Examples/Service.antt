-- ===== src/Examples/Service.antt =====
-- The theorems about the service, at concrete inputs.
use activex_endpoint.Prelude.{
  ℕ, max, ◌≤◌, ◌<◌, ◌≡◌, ◌≢◌, ◌⊎◌, refl, String, Bool, List, true, false, Option, none, some, [],
  ◌∷◌, map, if◌then◌else◌, ◌==◌, string_eq, pair_eq, nat_eq,
}
use activex_endpoint.Prelude.Dict
use activex_endpoint.Prelude.Dict.{Dict}
use activex_endpoint.Functions.Params.{close}
use activex_endpoint.Service.ContainerJobs.{
  ContainerHandle, busy, ready, starting, crashed, crash, timeout, cancelled, attempts_of, is_gone,
  handle_crash, handle_timeout,
}
use activex_endpoint.Service.ContainerJobs.Attempts.{
  Incident, crashes, times_out, unplaced, answered, not_ready, cancels, meet_all, fresh, streak,
  meet_all-streak,
}
use activex_endpoint.Service.ContainerJobs.Losses.{onto, jobs_logged, handle_crash-once}
use activex_endpoint.Service.ContainerPool.{PoolHandle}
use activex_endpoint.Service.ContainerPool
use activex_endpoint.Service.ContainerPool.Live.{live_count}
use activex_endpoint.Service.ContainerPool.Cap.{
  PoolEvent, summons, looks, dismisses, sweeps_idle, sweeps_max_invocations, sweeps_crashed, writes,
  serve_all, serve_all-IsCapped,
}
use activex_endpoint.Service.ContainerPool.{dismiss_stale, summon}
use activex_endpoint.Service.ContainerPool.Summon.{Answer, summon-Answer}
use activex_endpoint.Text.{len, digit}
use activex_endpoint.Service.ContainerNames.{sanitize_container_name, suffix}
use activex_endpoint.Service.ContainerNames.Apart.{sanitize_container_name-apart}
use activex_endpoint.Service.LeaderProxy.{Command, handle}
use activex_endpoint.Service.LeaderProxy
use activex_endpoint.Service.LeaderProxy.OneHop.{send, handle-one_hop}
use activex_endpoint.Service.Dispatcher.{init}
use activex_endpoint.Service.Dispatcher.Counting.{
  registers, submits, counts, takes, finishes, receives, closes, happen_all, IsBalanced,
  happen_all-IsBalanced,
}

abbrev container : ContainerHandle
container = record {
  function_id = "f";
  version = 1;
  service_name = "fn-f-v1";
  pool_index = 0;
  status = busy;
  current_job_id = some "a";
  job_queue = record { job_id = "b"; params = close } ∷ [];
}

abbrev incidents : List Incident
incidents =
    crashes container "a"
    ∷ unplaced "b" timeout
    ∷ times_out container "a"
    ∷ cancels "b" (container ∷ [])
    ∷ not_ready "c" crash
    ∷ answered "a" cancelled
    ∷ []

meet_all-streak_example :
    let rt = meet_all 2 fresh incidents in
    (streak "a" rt.outcomes ≤ attempts_of (Dict.get rt.attempts "a"))
    × (attempts_of (Dict.get rt.attempts "a") ≤ 2)
meet_all-streak_example = meet_all-streak 2 incidents "a"

handle_crash-once_example :
    let (rt', gone) = handle_crash fresh container 3 "a" in
    (jobs_logged rt' ≡ onto ("a" ∷ map (λ q. q.job_id) container.job_queue) (jobs_logged fresh))
    × (rt'.released
        ≡ (container.function_id, container.version, container.pool_index) ∷ fresh.released)
    × (handle_crash rt' gone 3 "b" ≡ (rt', gone))
    × (handle_timeout rt' gone 3 "b" ≡ (rt', gone))
unfolding is_gone
handle_crash-once_example = handle_crash-once fresh container 3 "a" "b" refl

happen_all-IsBalanced_example : IsBalanced (
    happen_all (init 2 1) (
      registers "PING"
      ∷ submits (record { future = 0; operation = "PING" })
      ∷ takes
      ∷ finishes 0 true
      ∷ counts 0
      ∷ receives 0
      ∷ closes
      ∷ []))
happen_all-IsBalanced_example = happen_all-IsBalanced 2 1 (
    registers "PING"
    ∷ submits (record { future = 0; operation = "PING" })
    ∷ takes
    ∷ finishes 0 true
    ∷ counts 0
    ∷ receives 0
    ∷ closes
    ∷ [])

-- A leader, and a follower that still takes itself for one that follows it.
abbrev proxy : String → String → LeaderProxy.Endpoint
proxy id seen = record {
  self_id = id;
  elector = record {
    self_id = id;
    view = record { leader_ids = seen ∷ []; term = 1; decided_at = 0 };
  };
  resolve_leader_rpc_uri = λ leader. some leader;
  inner = λ command. command.payload;
}

abbrev mesh : String → Option LeaderProxy.Endpoint
mesh uri = if uri == "node-b" then some (proxy "node-b" "node-b") else none

abbrev command : Command
command = record { operation = "JOB_SUBMIT"; payload = 1 ∷ []; forwarded = false }

handle-one_hop_example :
    handle (send 3 mesh) (proxy "node-a" "node-b") command
    ≡ handle (send 1 mesh) (proxy "node-a" "node-b") command
handle-one_hop_example = handle-one_hop 2 mesh (proxy "node-a" "node-b") command

-- Two members of the function, of which the first breaks down and cannot be stopped at first.
abbrev calls : List ((PoolHandle → Bool) × PoolEvent)
calls =
    ((λ h. true), summons ("f", 1))
    ∷ ((λ h. true), summons ("f", 1))
    ∷ ((λ h. true), summons ("f", 1))
    ∷ ((λ h. true), writes (member 1) ready 5 1)
    ∷ ((λ h. true), writes (member 0) crashed 0 0)
    ∷ ((λ h. false), sweeps_crashed)
    ∷ ((λ h. false), sweeps_idle 10 20)
    ∷ ((λ h. true), looks ("f", 1))
    ∷ ((λ h. true), dismisses (member 1) "dismissed")
    ∷ ((λ h. true), sweeps_max_invocations 0)
    ∷ []
  where
    member : ℕ → PoolHandle
    member i = record {
      identity = i;
      function_id = "f";
      version = 1;
      service_name = sanitize_container_name "f" 1 i;
      pool_index = i;
      status = starting;
      last_used = 0;
      invocation_count = 0;
    }

serve_all-IsCapped_example : live_count (serve_all (λ k. 2) ContainerPool.init calls) ("f", 1) ≤ 2
serve_all-IsCapped_example = serve_all-IsCapped (λ k. 2) calls ("f", 1)

-- With room for one member, the second call queues behind the first.
summon-Answer_example :
    Answer
      (dismiss_stale (λ h. true) (summon (λ h. true) ContainerPool.init ("f", 1) 0).0 ("f", 1))
      ("f", 1)
      (max 1 0)
      (summon (λ h. true) (summon (λ h. true) ContainerPool.init ("f", 1) 0).0 ("f", 1) 0)
summon-Answer_example =
    summon-Answer (λ h. true) (summon (λ h. true) ContainerPool.init ("f", 1) 0).0 ("f", 1) 0

sanitize_container_name-apart_example :
    ((sanitize_container_name "My_Fn!" 1 0 ≢ sanitize_container_name "my-fn-v1" 1 2)
      ⊎ (◌≡◌ {A = ℕ} 1 1 × ◌≡◌ {A = ℕ} 0 2))
    × ((len (sanitize_container_name "My_Fn!" 1 0) ≤ 63) ⊎ (60 < len (suffix 1 0)))
sanitize_container_name-apart_example = sanitize_container_name-apart "My_Fn!" "my-fn-v1" 1 1 0 2

sanitized : sanitize_container_name "_My_Fn!" 1 2 ≡ "fn-my-fn-v1-p2"
unfolding sanitize_container_name digit
sanitized = refl
