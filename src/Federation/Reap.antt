-- ===== src/Federation/Reap.antt =====
-- `reap_stale_claims`: which jobs go back to the queue, and what the loop leaves alone.
use vibe_thinker.Prelude.{
  ℕ, suc, ◌+◌, ◌≤◌, ◌<◌, ◌≡◌, refl, ◌≢◌, ◌⊎◌, inl, inr, String, Bool, true, false, [], ◌∷◌, Option,
  none, some, arith, eq_iff, mem, Bool-cases, if◌then◌else◌,
}
use vibe_thinker.Prelude.Dict.{get, Distinct, Items}
use vibe_thinker.Federation.Job.{pending, claimed, FederatedJob}
use vibe_thinker.Federation.State.{Jobs, is_stale, requeue, reap_stale_claims}
use vibe_thinker.Federation.Lifecycle.{Consistent, WellFormed}

-- What one pass makes of one job.
abbrev pub after_reap : ℕ → ℕ → Option FederatedJob → Option FederatedJob
after_reap now timeout none = none
after_reap now timeout (some j) = some (if is_stale now timeout j then requeue j else j)

abbrev stale_entry : ℕ → ℕ → Option FederatedJob → Bool
stale_entry now timeout none = false
stale_entry now timeout (some j) = is_stale now timeout j

module _ (now timeout : ℕ) where
  pub get-reap :
      (jobs : Jobs) (k : String)
      → get (reap_stale_claims now timeout jobs).0 k ≡ after_reap now timeout (get jobs k)
  unfolding reap_stale_claims get
  get-reap [] k = refl
  get-reap ((i, j) ∷ jobs) k = ground (arith, get-reap jobs k)

  reap-Distinct : (jobs : Jobs) → Distinct jobs → Distinct (reap_stale_claims now timeout jobs).0
  unfolding reap_stale_claims
  reap-Distinct [] d = tt
  reap-Distinct ((i, j) ∷ jobs) d = ground (arith, get-reap jobs i, reap-Distinct jobs d.1)

  requeue-Consistent :
      (k : String) (j : FederatedJob)
      → is_stale now timeout j ≡ true
      → Consistent k j
      → Consistent k (requeue j)
  unfolding requeue is_stale
  requeue-Consistent k j s c = ground arith

  reap-Consistent :
      (jobs : Jobs)
      → Items Consistent jobs
      → Items Consistent (reap_stale_claims now timeout jobs).0
  unfolding reap_stale_claims
  reap-Consistent [] h = tt
  reap-Consistent ((i, j) ∷ jobs) h = elim (Bool-cases (is_stale now timeout j)) [
    | inl s ↦ rw s (requeue-Consistent i j s h.0, reap-Consistent jobs h.1)
    | inr s ↦ rw s (h.0, reap-Consistent jobs h.1)
  ]

  pub reap-WellFormed :
      (jobs : Jobs) → WellFormed jobs → WellFormed (reap_stale_claims now timeout jobs).0
  reap-WellFormed jobs w = record {
    distinct = reap-Distinct jobs w.distinct;
    consistent = reap-Consistent jobs w.consistent;
  }

  -- The ids that are returned are those of the stale jobs.
  mem-reap :
      (jobs : Jobs) (k : String)
      → Distinct jobs
      → Items Consistent jobs
      → mem k (reap_stale_claims now timeout jobs).1 ≡ stale_entry now timeout (get jobs k)
  unfolding reap_stale_claims get
  mem-reap [] k d h = refl
  mem-reap ((i, j) ∷ jobs) k d h =
      ground (arith, mem-reap jobs k d.1 h.1, eq_iff i k, eq_iff k j.job_id, h.0.key)

-- A claimed job whose last heartbeat is more than the timeout ago is returned, is pending again and
-- has no claim; all else in it is kept.
pub reap_zombie :
    (now timeout t : ℕ) (jobs : Jobs) (k : String) (j : FederatedJob)
    → WellFormed jobs
    → get jobs k ≡ some j
    → j.status ≡ claimed
    → j.heartbeat_at ≡ some (suc t)
    → suc t + timeout < now
    → let (jobs', reaped) = reap_stale_claims now timeout jobs in
      (mem k reaped ≡ true)
      × (get jobs' k
          ≡ some (record j {
            status = pending;
            claimed_by = none;
            claimed_at = none;
            heartbeat_at = none;
          }))
unfolding is_stale requeue
reap_zombie now timeout t jobs k j w found c beat late =
    ground (arith, mem-reap now timeout jobs k w.distinct w.consistent, get-reap now timeout jobs k)

-- A job that is not claimed, or whose last heartbeat is at most the timeout ago, is neither returned
-- nor changed.
pub reap_spares :
    (now timeout t : ℕ) (jobs : Jobs) (k : String) (j : FederatedJob)
    → WellFormed jobs
    → get jobs k ≡ some j
    → (j.status ≢ claimed) ⊎ ((j.heartbeat_at ≡ some (suc t)) × (now ≤ suc t + timeout))
    → let (jobs', reaped) = reap_stale_claims now timeout jobs in
      (mem k reaped ≡ false) × (get jobs' k ≡ some j)
unfolding is_stale requeue
reap_spares now timeout t jobs k j w found fresh =
    ground (arith, mem-reap now timeout jobs k w.distinct w.consistent, get-reap now timeout jobs k)
