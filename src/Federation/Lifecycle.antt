-- ===== src/Federation/Lifecycle.antt =====
-- What holds of every job of the coordinator's store, and that each method keeps it.
use vibe_thinker.Prelude.{
  ℕ, ◌≡◌, ◌≢◌, String, true, false, List, [], ◌∷◌, none, some, arith, All, Bool-cases, Option-cases,
  inl, inr,
}
use vibe_thinker.Prelude.Dict.{get, put, Distinct, Items, Items-get, Items-put, put-Distinct}
use vibe_thinker.Json.{Json, truthy}
use vibe_thinker.Federation.Job.{
  pending, claimed, done, error, FederatedJob, is_pending, is_terminal,
}
use vibe_thinker.Federation.State.{
  Jobs, Request, new_job, submit, claim_job, claim_first, claim, pending_jobs, sort_jobs,
  complete_job, complete, heartbeat,
}
use vibe_thinker.Federation.Sorting.{All-sort}

-- The claim fields of a job go with its status.
pub record Consistent (k : String) (j : FederatedJob) : Type 0 where
  pub key : j.job_id ≡ k
  pub unclaimed : j.status ≡ pending → (j.claimed_by ≡ none) × (j.heartbeat_at ≡ none)
  pub held : j.status ≡ claimed → (j.claimed_by ≢ none) × (j.heartbeat_at ≢ none)
  pub open_ended : is_terminal j.status ≡ false → j.completed_at ≡ none
  pub ended : is_terminal j.status ≡ true → j.completed_at ≢ none
  pub failed : j.status ≡ error → truthy j.error ≡ true
  pub succeeded : j.status ≡ done → truthy j.error ≡ false

pub record WellFormed (jobs : Jobs) : Type 0 where
  pub distinct : Distinct jobs
  pub consistent : Items Consistent jobs

put-WellFormed :
    (jobs : Jobs) (k : String) (j : FederatedJob)
    → WellFormed jobs
    → Consistent k j
    → WellFormed (put jobs k j)
put-WellFormed jobs k j w c = record {
  distinct = put-Distinct jobs k j w.distinct;
  consistent = Items-put Consistent jobs k j w.consistent c;
}

new_job-Consistent :
    (r : Request) (fresh : String) (now : ℕ)
    → Consistent (new_job r fresh now).job_id (new_job r fresh now)
unfolding new_job
new_job-Consistent r fresh now = ground arith

pub submit-WellFormed :
    (r : Request) (fresh : String) (now : ℕ) (jobs : Jobs)
    → WellFormed jobs
    → WellFormed (submit r fresh now jobs).0
unfolding submit
submit-WellFormed r fresh now jobs w =
    put-WellFormed jobs _ (new_job r fresh now) w (new_job-Consistent r fresh now)

-- A job of the values is one that may be claimed: it keeps the invariant under its own id.
abbrev Claimable : FederatedJob → Type 0
Claimable j = (worker : String) (t u : ℕ) → Consistent j.job_id (claim_job j worker t u)

claim_job-Consistent :
    (k : String) (j : FederatedJob) → Consistent k j → is_pending j.status ≡ true → Claimable j
unfolding claim_job
claim_job-Consistent k j c p worker t u = ground arith

pending-Claimable : (jobs : Jobs) → Items Consistent jobs → All Claimable (pending_jobs jobs)
pending-Claimable [] h = tt
pending-Claimable ((k, j) ∷ jobs) h = elim (Bool-cases (is_pending j.status)) [
  | inl p ↦ rw p (claim_job-Consistent k j h.0 p, pending-Claimable jobs h.1)
  | inr n ↦ rw n (pending-Claimable jobs h.1)
]

claim_first-WellFormed :
    (xs : List FederatedJob) (worker : String) (t u : ℕ) (jobs : Jobs)
    → All Claimable xs
    → WellFormed jobs
    → WellFormed (claim_first xs worker t u jobs).0
unfolding claim_first
claim_first-WellFormed [] worker t u jobs h w = w
claim_first-WellFormed (j ∷ xs) worker t u jobs h w =
    put-WellFormed jobs j.job_id (claim_job j worker t u) w (h.0 worker t u)

pub claim-WellFormed :
    (worker : String) (t u : ℕ) (jobs : Jobs)
    → WellFormed jobs
    → WellFormed (claim worker t u jobs).0
unfolding claim
claim-WellFormed worker t u jobs w =
    claim_first-WellFormed (sort_jobs (pending_jobs jobs)) worker t u jobs
      (All-sort Claimable (pending_jobs jobs) (pending-Claimable jobs w.consistent)) w

complete_job-Consistent :
    (k : String) (j : FederatedJob) (result err : Json) (now : ℕ)
    → Consistent k j
    → Consistent k (complete_job j result err now)
unfolding complete_job
complete_job-Consistent k j result err now c = ground arith

pub complete-WellFormed :
    (k : String) (result err : Json) (now : ℕ) (jobs : Jobs)
    → WellFormed jobs
    → WellFormed (complete k result err now jobs).0
unfolding complete
complete-WellFormed k result err now jobs w = elim (Option-cases (get jobs k)) [
  | inl absent ↦ rw (absent, complete) w
  | inr (j, found) ↦
      rw (found, complete)
        (elim (Bool-cases (is_terminal j.status)) [
          | inl over ↦ rw over w
          | inr alive ↦ rw alive (
              put-WellFormed jobs k _ w (
                complete_job-Consistent k j result err now
                  (Items-get Consistent jobs k j w.consistent found)))
        ])
]

pub heartbeat-WellFormed :
    (k worker : String) (now : ℕ) (jobs : Jobs)
    → WellFormed jobs
    → WellFormed (heartbeat k worker now jobs).0
unfolding heartbeat
heartbeat-WellFormed k worker now jobs w = elim (Option-cases (get jobs k)) [
  | inl absent ↦ rw (absent, heartbeat) w
  | inr (j, found) ↦
      rw (found, heartbeat)
        (ground (
          arith,
          put-WellFormed jobs k (record j { heartbeat_at = some now }) w,
          Items-get Consistent jobs k j w.consistent found,
        ))
]
