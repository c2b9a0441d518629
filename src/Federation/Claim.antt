-- ===== src/Federation/Claim.antt =====
-- `claim`: which job a worker gets, and what happens to the store.
use vibe_thinker.Prelude.{
  ℕ, ◌≡◌, refl, subst, ◌≢◌, String, true, List, [], ◌∷◌, some, arith, eq_iff, ◌=s◌, All, Bool-cases,
  inl, inr, if◌then◌else◌,
}
use vibe_thinker.Prelude.Dict.{get, put, get-put, Distinct, Items}
use vibe_thinker.Federation.Job.{pending, claimed, FederatedJob, is_pending}
use vibe_thinker.Federation.State.{
  Jobs, claim_job, claim_first, claim, pending_jobs, sort_jobs, comes_first,
}
use vibe_thinker.Federation.Sorting.{Before, comes_first→Before, All-sort, sort_head, sort-eq-nil}
use vibe_thinker.Federation.Lifecycle.{Consistent, WellFormed}

-- The job stands under its own id and waits.
record Waits (jobs : Jobs) (j : FederatedJob) : Type 0 where
  stored : get jobs j.job_id ≡ some j
  idle : j.status ≡ pending

pending-Waits :
    (jobs d : Jobs)
    → ((k : String) (v : FederatedJob) → get d k ≡ some v → get jobs k ≡ some v)
    → Distinct d
    → Items Consistent d
    → All (Waits jobs) (pending_jobs d)
unfolding get
pending-Waits jobs [] up d h = tt
pending-Waits jobs ((i, j) ∷ rest) up d h =
    let up' : (k : String) (v : FederatedJob) → get rest k ≡ some v → get jobs k ≡ some v =
      λ k v e. up k v (ground (arith, eq_iff i k, d.0)) in
    elim (Bool-cases (is_pending j.status)) [
      | inl p ↦ rw p (
        record {
          stored = up j.job_id j (ground (arith, eq_iff i j.job_id, h.0.key));
          idle = ground arith;
        },
        pending-Waits jobs rest up' d.1 h.1,
      )
      | inr n ↦ rw n (pending-Waits jobs rest up' d.1 h.1)
    ]

All-Before :
    (j : FederatedJob) (xs : List FederatedJob)
    → All (λ x. comes_first j x ≡ true) xs
    → All (Before j) xs
All-Before j [] h = tt
All-Before j (x ∷ xs) h = (comes_first→Before j x h.0, All-Before j xs h.1)

-- What `claim` promises of the job `c` that it hands out.
pub record Grant (worker : String) (t u : ℕ) (jobs jobs' : Jobs) (c : FederatedJob) : Type 0 where
  pub job : FederatedJob
  pub stored : get jobs c.job_id ≡ some job
  pub waiting : job.status ≡ pending
  pub marked : c ≡ record job {
    status = claimed;
    claimed_by = some worker;
    claimed_at = some t;
    heartbeat_at = some u;
  }
  pub first : All (Before job) (pending_jobs jobs)
  pub kept : (k : String) → get jobs' k ≡ (if c.job_id =s k then some c else get jobs k)

claim_first-Grant :
    (worker : String) (t u : ℕ) (jobs : Jobs) (xs : List FederatedJob) (c : FederatedJob)
    → WellFormed jobs
    → sort_jobs (pending_jobs jobs) ≡ xs
    → (claim_first xs worker t u jobs).1 ≡ some c
    → Grant worker t u jobs (claim_first xs worker t u jobs).0 c
unfolding claim_first
claim_first-Grant worker t u jobs [] c w e h = cc
claim_first-Grant worker t u jobs (j ∷ rest) c w e h =
    let waits : All (Waits jobs) (j ∷ rest) = subst (All (Waits jobs)) e (
      All-sort (Waits jobs) (pending_jobs jobs)
        (pending-Waits jobs jobs (λ k v p. p) w.distinct w.consistent)) in
    let same : claim_job j worker t u ≡ c = ground arith in
    subst (Grant worker t u jobs (put jobs j.job_id (claim_job j worker t u))) same (record {
      job = j;
      stored = waits.0.stored;
      waiting = waits.0.idle;
      marked = refl;
      first = All-Before j (pending_jobs jobs) (sort_head (pending_jobs jobs) e);
      kept = λ k. get-put jobs j.job_id k (claim_job j worker t u);
    })

-- The job that `claim` returns was pending in the store, comes by priority and then by age before
-- every pending job, is marked as the worker's with the two clock readings, and is stored so; no
-- other job changes.
pub claim_grants :
    (worker : String) (t u : ℕ) (jobs : Jobs) (c : FederatedJob)
    → WellFormed jobs
    → (claim worker t u jobs).1 ≡ some c
    → Grant worker t u jobs (claim worker t u jobs).0 c
unfolding claim
claim_grants worker t u jobs c w h =
    claim_first-Grant worker t u jobs (sort_jobs (pending_jobs jobs)) c w refl h

pending-ne-nil :
    (jobs : Jobs) (k : String) (j : FederatedJob)
    → get jobs k ≡ some j
    → j.status ≡ pending
    → pending_jobs jobs ≢ []
unfolding get
pending-ne-nil [] k j found p e = cc
pending-ne-nil ((i, x) ∷ jobs) k j found p e = ground (arith, eq_iff i k, pending-ne-nil jobs k j)

claim_first-some :
    (worker : String) (t u : ℕ) (jobs : Jobs) (xs : List FederatedJob)
    → xs ≢ []
    → (c : FederatedJob) × ((claim_first xs worker t u jobs).1 ≡ some c)
unfolding claim_first
claim_first-some worker t u jobs [] h = absurd (h refl)
claim_first-some worker t u jobs (j ∷ rest) h = (claim_job j worker t u, refl)

-- While any job is pending, `claim` hands one out.
pub claim_progress :
    (worker : String) (t u : ℕ) (jobs : Jobs) (k : String) (j : FederatedJob)
    → get jobs k ≡ some j
    → j.status ≡ pending
    → (c : FederatedJob) × ((claim worker t u jobs).1 ≡ some c)
unfolding claim
claim_progress worker t u jobs k j found p =
    claim_first-some worker t u jobs (sort_jobs (pending_jobs jobs))
      (λ e. pending-ne-nil jobs k j found p (sort-eq-nil (pending_jobs jobs) e))
