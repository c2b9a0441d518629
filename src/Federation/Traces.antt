-- ===== src/Federation/Traces.antt =====
-- Sequences of calls on the coordinator's store: the invariant, and finished jobs.
use vibe_thinker.Prelude.{
  ℕ, ◌≡◌, ◌≢◌, String, Bool, true, false, List, [], ◌∷◌, none, some, arith, eq_iff, ◌=s◌, All,
  Option-cases, inl, inr,
}
use vibe_thinker.Prelude.Dict.{get, get-put}
use vibe_thinker.Json.{Json}
use vibe_thinker.Federation.Job.{pending, FederatedJob, is_terminal}
use vibe_thinker.Federation.State.{
  Jobs, new_job, submit, claim_first, claim, complete_job, complete, heartbeat, is_stale, Call,
  submits, claims, completes, beats, reaps, step, run,
}
use vibe_thinker.Federation.Lifecycle.{
  WellFormed, submit-WellFormed, claim-WellFormed, complete-WellFormed, heartbeat-WellFormed,
}
use vibe_thinker.Federation.Reap.{get-reap, reap-WellFormed}
use vibe_thinker.Federation.Claim.{claim_grants}

pub step-WellFormed : (jobs : Jobs) (c : Call) → WellFormed jobs → WellFormed (step jobs c)
unfolding step
step-WellFormed jobs (submits r fresh now) w = submit-WellFormed r fresh now jobs w
step-WellFormed jobs (claims worker t u) w = claim-WellFormed worker t u jobs w
step-WellFormed jobs (completes k result err now) w = complete-WellFormed k result err now jobs w
step-WellFormed jobs (beats k worker now) w = heartbeat-WellFormed k worker now jobs w
step-WellFormed jobs (reaps now timeout) w = reap-WellFormed now timeout jobs w

-- No sequence of calls breaks the invariant: ids stay the keys and stay distinct, a pending job has
-- no claim and no heartbeat, a claimed one has both, a completion time stands exactly in finished
-- jobs, and a job is an error exactly if its error is true in Python's sense.
pub run-WellFormed : (jobs : Jobs) (cs : List Call) → WellFormed jobs → WellFormed (run jobs cs)
unfolding run
run-WellFormed jobs [] w = w
run-WellFormed jobs (c ∷ cs) w = run-WellFormed (step jobs c) cs (step-WellFormed jobs c w)

claim-none :
    (worker : String) (t u : ℕ) (jobs : Jobs)
    → (claim worker t u jobs).1 ≡ none
    → (claim worker t u jobs).0 ≡ jobs
unfolding claim claim_first
claim-none worker t u jobs h = ground arith

-- What `claim` does to a job that is not pending: nothing.
pub claim_spares :
    (worker : String) (t u : ℕ) (jobs : Jobs) (k : String) (j : FederatedJob)
    → WellFormed jobs
    → get jobs k ≡ some j
    → j.status ≢ pending
    → get (claim worker t u jobs).0 k ≡ some j
claim_spares worker t u jobs k j w found p = elim (Option-cases (claim worker t u jobs).1) [
  | inl e ↦ rw (claim-none worker t u jobs e) found
  | inr (c, e) ↦
      let g = claim_grants worker t u jobs c w e in
      ground (arith, g.kept k, g.stored, g.waiting, eq_iff c.job_id k)
]

-- The call creates a job under the id `k`.
abbrev pub submits_to : String → Call → Bool
submits_to k (submits r fresh now) = (new_job r fresh now).job_id =s k
submits_to k _ = false

complete_terminal :
    (i : String) (result err : Json) (now : ℕ) (jobs : Jobs) (k : String) (j : FederatedJob)
    → get jobs k ≡ some j
    → is_terminal j.status ≡ true
    → get (complete i result err now jobs).0 k ≡ some j
unfolding complete
complete_terminal i result err now jobs k j found over = elim (Option-cases (get jobs i)) [
  | inl absent ↦ rw (absent, complete) found
  | inr (x, e) ↦
      rw (e, complete)
        (ground (arith, eq_iff i k, e, get-put jobs i k (complete_job x result err now)))
]

heartbeat_terminal :
    (i worker : String) (now : ℕ) (jobs : Jobs) (k : String) (j : FederatedJob)
    → get jobs k ≡ some j
    → is_terminal j.status ≡ true
    → get (heartbeat i worker now jobs).0 k ≡ some j
unfolding heartbeat
heartbeat_terminal i worker now jobs k j found over = elim (Option-cases (get jobs i)) [
  | inl absent ↦ rw (absent, heartbeat) found
  | inr (x, e) ↦
      rw (e, heartbeat)
        (ground (arith, eq_iff i k, e, get-put jobs i k (record x { heartbeat_at = some now })))
]

step_terminal :
    (jobs : Jobs) (c : Call) (k : String) (j : FederatedJob)
    → WellFormed jobs
    → get jobs k ≡ some j
    → is_terminal j.status ≡ true
    → submits_to k c ≡ false
    → get (step jobs c) k ≡ some j
unfolding step submit is_stale
step_terminal jobs (submits r fresh now) k j w found over other = rw get-put (ground (arith, found))
step_terminal jobs (claims worker t u) k j w found over other =
    claim_spares worker t u jobs k j w found (λ e. ground arith)
step_terminal jobs (completes i result err now) k j w found over other =
    complete_terminal i result err now jobs k j found over
step_terminal jobs (beats i worker now) k j w found over other =
    heartbeat_terminal i worker now jobs k j found over
step_terminal jobs (reaps now timeout) k j w found over other =
    ground (arith, get-reap now timeout jobs k)

-- Once a job is done or in error, no sequence of calls changes its record (its result, its error
-- and its worker included), unless a call submits a job under the same id.
pub terminal_persists :
    (jobs : Jobs) (cs : List Call) (k : String) (j : FederatedJob)
    → WellFormed jobs
    → get jobs k ≡ some j
    → is_terminal j.status ≡ true
    → All (λ c. submits_to k c ≡ false) cs
    → get (run jobs cs) k ≡ some j
unfolding run
terminal_persists jobs [] k j w found over other = found
terminal_persists jobs (c ∷ cs) k j w found over other =
    terminal_persists (step jobs c) cs k j (step-WellFormed jobs c w)
      (step_terminal jobs c k j w found over other.0) over other.1
