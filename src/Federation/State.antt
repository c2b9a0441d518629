-- ===== src/Federation/State.antt =====
-- `InMemoryFederationState` of federation_server.py. Each method runs under the lock, so it is one
-- step on the dictionary of jobs; the readings of the clock and a fresh id are arguments.
use vibe_thinker.Prelude.{
  ℕ, ◌-◌, String, Bool, true, false, not, ◌&&◌, ◌||◌, List, [], ◌∷◌, Option, none, some, ltb, leb,
  ◌=s◌, keep, length, if◌then◌else◌,
}
use vibe_thinker.Prelude.Int.{ℤ, ltb_ℤ}
use vibe_thinker.Prelude.Dict.{Dict, get, put, values}
use vibe_thinker.Json.{Json, null, truthy}
use vibe_thinker.Federation.Job.{
  pending, claimed, done, error, FederatedJob, is_pending, is_claimed, is_terminal, or_time,
}

abbrev pub Jobs : Type 0
Jobs = Dict FederatedJob

-- What a caller of `submit` passes; an empty `job_id` stands for every false one.
pub record Request : Type 0 where
  pub job_id : String
  pub query : String
  pub priority : ℤ
  pub force_route : Json
  pub submitted_by : Json

unfoldable pub new_job : Request → String → ℕ → FederatedJob
new_job r fresh now = record {
  job_id = if r.job_id =s "" then fresh else r.job_id;
  query = r.query;
  priority = r.priority;
  force_route = r.force_route;
  submitted_by = r.submitted_by;
  status = pending;
  claimed_by = none;
  result = null;
  error = null;
  created_at = now;
  claimed_at = none;
  completed_at = none;
  heartbeat_at = none;
}

unfoldable pub submit : Request → String → ℕ → Jobs → Jobs × FederatedJob
unfolding new_job
submit r fresh now jobs = let job = new_job r fresh now in (put jobs job.job_id job, job)

-- The order of the key `(-priority, created_at)`, ties included.
unfoldable pub comes_first : FederatedJob → FederatedJob → Bool
comes_first a b =
    ltb_ℤ b.priority a.priority
    || (not (ltb_ℤ a.priority b.priority) && leb a.created_at b.created_at)

-- `pending.sort(key=...)` is a stable sort.
unfoldable pub insert_job : FederatedJob → List FederatedJob → List FederatedJob
unfolding comes_first
insert_job j [] = j ∷ []
insert_job j (x ∷ xs) = if comes_first j x then j ∷ x ∷ xs else x ∷ insert_job j xs

unfoldable pub sort_jobs : List FederatedJob → List FederatedJob
unfolding insert_job
sort_jobs [] = []
sort_jobs (j ∷ js) = insert_job j (sort_jobs js)

unfoldable pub claim_job : FederatedJob → String → ℕ → ℕ → FederatedJob
claim_job job worker claimed_now heartbeat_now = record job {
  status = claimed;
  claimed_by = some worker;
  claimed_at = some claimed_now;
  heartbeat_at = some heartbeat_now;
}

-- The first job of the sorted list, marked as the worker's. A job stands under its own id.
unfoldable pub claim_first : List FederatedJob → String → ℕ → ℕ → Jobs → Jobs × Option FederatedJob
unfolding claim_job
claim_first [] worker t u jobs = (jobs, none)
claim_first (job ∷ _) worker t u jobs =
    let job' = claim_job job worker t u in (put jobs job.job_id job', some job')

abbrev pub pending_jobs : Jobs → List FederatedJob
pending_jobs jobs = keep (λ j. is_pending j.status) (values jobs)

unfoldable pub claim : String → ℕ → ℕ → Jobs → Jobs × Option FederatedJob
unfolding claim_first sort_jobs
claim worker t u jobs = claim_first (sort_jobs (pending_jobs jobs)) worker t u jobs

unfoldable pub complete_job : FederatedJob → Json → Json → ℕ → FederatedJob
complete_job job result err now = record job {
  status = if truthy err then error else done;
  result = result;
  error = err;
  completed_at = some now;
}

unfoldable pub complete : String → Json → Json → ℕ → Jobs → Jobs × Bool
unfolding complete_job
complete job_id result err now jobs = elim (get jobs job_id) [
  | none ↦ (jobs, false)
  | some job ↦
      if is_terminal job.status
      then (jobs, false)
      else (put jobs job_id (complete_job job result err now), true)
]

-- `job.claimed_by == worker_id`
unfoldable pub held_by : FederatedJob → String → Bool
held_by job worker = elim job.claimed_by [ none ↦ false | some w ↦ w =s worker ]

unfoldable pub heartbeat : String → String → ℕ → Jobs → Jobs × Bool
unfolding held_by
heartbeat job_id worker now jobs = elim (get jobs job_id) [
  | none ↦ (jobs, false)
  | some job ↦
      if is_claimed job.status && held_by job worker
      then (put jobs job_id (record job { heartbeat_at = some now }), true)
      else (jobs, false)
]

-- Whether `reap_stale_claims` takes the job for a zombie; `-` stops at 0 where the difference in the
-- source is negative, and neither exceeds a timeout.
unfoldable pub is_stale : ℕ → ℕ → FederatedJob → Bool
is_stale now timeout job =
    is_claimed job.status && (elim (or_time job.heartbeat_at job.claimed_at) [
      | none ↦ false
      | some last_contact ↦ ltb timeout (now - last_contact)
    ])

unfoldable pub requeue : FederatedJob → FederatedJob
requeue job = record job {
  status = pending;
  claimed_by = none;
  claimed_at = none;
  heartbeat_at = none;
}

-- The loop over the jobs: the new store, and the ids in the order in which they were reaped.
unfoldable pub reap_stale_claims : ℕ → ℕ → Jobs → Jobs × List String
unfolding is_stale requeue
reap_stale_claims now timeout [] = ([], [])
reap_stale_claims now timeout ((k, job) ∷ jobs) =
    let (rest, reaped) = reap_stale_claims now timeout jobs in
    if is_stale now timeout job
    then ((k, requeue job) ∷ rest, job.job_id ∷ reaped)
    else ((k, job) ∷ rest, reaped)

unfoldable pub count : Jobs → ℕ
count jobs = length jobs

unfoldable pub get_job : Jobs → String → Option FederatedJob
get_job jobs job_id = get jobs job_id

-- The calls that change the store, with what each of them reads from outside.
pub data Call : Type 0 where
  submits : Request → String → ℕ → Call
  claims : String → ℕ → ℕ → Call
  completes : String → Json → Json → ℕ → Call
  beats : String → String → ℕ → Call
  reaps : ℕ → ℕ → Call

unfoldable pub step : Jobs → Call → Jobs
unfolding submit claim complete heartbeat reap_stale_claims
step jobs (submits r fresh now) = (submit r fresh now jobs).0
step jobs (claims worker t u) = (claim worker t u jobs).0
step jobs (completes k result err now) = (complete k result err now jobs).0
step jobs (beats k worker now) = (heartbeat k worker now jobs).0
step jobs (reaps now timeout) = (reap_stale_claims now timeout jobs).0

unfoldable pub run : Jobs → List Call → Jobs
unfolding step
run jobs [] = jobs
run jobs (c ∷ cs) = run (step jobs c) cs
