-- ===== src/Federation/Lease.antt =====
-- The lease that a worker holds on a claimed job while it sends heartbeats.
use vibe_thinker.Prelude.{
  ℕ, zero, suc, ◌+◌, ◌≤◌, ◌<◌, ◌&&◌, ◌≡◌, refl, sym, ◌∙◌, ◌≢◌, String, false, List, [], ◌∷◌, some,
  arith, eq_iff, ◌=s◌, All, Option-cases, Bool-cases, inl, inr,
}
use vibe_thinker.Prelude.Dict.{get, put, get-put}
use vibe_thinker.Json.{Json}
use vibe_thinker.Federation.Job.{claimed, FederatedJob, is_claimed, is_terminal}
use vibe_thinker.Federation.State.{
  Jobs, new_job, submit, claim, complete_job, complete, held_by, heartbeat, is_stale, Call, submits,
  claims, completes, beats, reaps, step, run,
}
use vibe_thinker.Federation.Lifecycle.{WellFormed}
use vibe_thinker.Federation.Reap.{get-reap}
use vibe_thinker.Federation.Claim.{claim_grants}
use vibe_thinker.Federation.Traces.{step-WellFormed, run-WellFormed, claim_spares, submits_to}

-- The job is claimed by the worker, and its last heartbeat is at `suc t` or later.
pub record Leased (k worker : String) (t : ℕ) (jobs : Jobs) : Type 0 where
  pub job : FederatedJob
  pub stored : get jobs k ≡ some job
  pub status : job.status ≡ claimed
  pub holder : job.claimed_by ≡ some worker
  pub beat : ℕ
  pub beaten : job.heartbeat_at ≡ some (suc beat)
  pub recent : t ≤ beat

-- The call is none that may end the lease on `k`: no new job and no completion under its id, no
-- heartbeat stamped before the lease, and no reaper for which the lease has timed out.
abbrev pub Quiet : String → ℕ → Call → Type 0
Quiet k t (submits r fresh now) = submits_to k (submits r fresh now) ≡ false
Quiet k t (claims worker t' u') = Unit
Quiet k t (completes i result err now) = (i =s k) ≡ false
Quiet k t (beats i worker now) = t < now
Quiet k t (reaps now timeout) = now ≤ suc t + timeout

module _ {k worker : String} {t : ℕ} where
  Leased-same :
      (jobs jobs' : Jobs)
      → get jobs' k ≡ get jobs k
      → Leased k worker t jobs
      → Leased k worker t jobs'
  Leased-same jobs jobs' e l = record {
    job = l.job;
    stored = e ∙ l.stored;
    status = l.status;
    holder = l.holder;
    beat = l.beat;
    beaten = l.beaten;
    recent = l.recent;
  }

  Leased-put :
      (jobs : Jobs) (i : String) (x : FederatedJob)
      → (i =s k) ≡ false
      → Leased k worker t jobs
      → Leased k worker t (put jobs i x)
  Leased-put jobs i x other = Leased-same jobs (put jobs i x) (ground (arith, get-put jobs i k x))

  Leased-beat :
      (jobs : Jobs) (i : String) (x : FederatedJob) (b : ℕ)
      → get jobs i ≡ some x
      → t ≤ b
      → Leased k worker t jobs
      → Leased k worker t (put jobs i (record x { heartbeat_at = some (suc b) }))
  Leased-beat jobs i x b e h l = elim (Bool-cases (i =s k)) [
    | inr other ↦ Leased-put jobs i _ other l
    | inl same ↦ record {
      job = record x { heartbeat_at = some (suc b) };
      stored = ground (arith, get-put jobs i k (record x { heartbeat_at = some (suc b) }));
      status = ground (arith, eq_iff i k, l.stored, l.status);
      holder = ground (arith, eq_iff i k, l.stored, l.holder);
      beat = b;
      beaten = refl;
      recent = h;
    }
  ]

  -- A heartbeat, by whatever worker, leaves the job with its holder.
  heartbeat-Leased :
      (i by : String) (b : ℕ) (jobs : Jobs)
      → t ≤ b
      → Leased k worker t jobs
      → Leased k worker t (heartbeat i by (suc b) jobs).0
  unfolding heartbeat
  heartbeat-Leased i by b jobs h l = elim (Option-cases (get jobs i)) [
    | inl absent ↦ rw (absent, heartbeat) l
    | inr (x, e) ↦
        rw (e, heartbeat)
          (elim (Bool-cases (is_claimed x.status && held_by x by)) [
            | inr refused ↦ rw refused l
            | inl accepted ↦ rw accepted (Leased-beat jobs i x b e h l)
          ])
  ]

  complete-Leased :
      (i : String) (result err : Json) (now : ℕ) (jobs : Jobs)
      → (i =s k) ≡ false
      → Leased k worker t jobs
      → Leased k worker t (complete i result err now jobs).0
  unfolding complete
  complete-Leased i result err now jobs other l = elim (Option-cases (get jobs i)) [
    | inl absent ↦ rw (absent, complete) l
    | inr (x, e) ↦
        rw (e, complete)
          (elim (Bool-cases (is_terminal x.status)) [
            | inl over ↦ rw over l
            | inr alive ↦ rw alive (Leased-put jobs i (complete_job x result err now) other l)
          ])
  ]

  step-Leased :
      (jobs : Jobs) (c : Call)
      → WellFormed jobs
      → Quiet k t c
      → Leased k worker t jobs
      → Leased k worker t (step jobs c)
  unfolding step submit is_stale
  step-Leased jobs (submits r fresh now) w q l = Leased-put jobs _ (new_job r fresh now) q l
  step-Leased jobs (claims v t' u') w q l =
      Leased-same jobs _
        (claim_spares v t' u' jobs k l.job w l.stored (λ e. ground (arith, l.status))
          ∙ sym l.stored)
        l
  step-Leased jobs (completes i result err now) w q l = complete-Leased i result err now jobs q l
  step-Leased jobs (beats i by zero) w q l = absurd (omega arith)
  step-Leased jobs (beats i by (suc b)) w q l = heartbeat-Leased i by b jobs (omega arith) l
  step-Leased jobs (reaps now timeout) w q l =
      Leased-same jobs _ (ground (arith, get-reap now timeout jobs k, l.stored, l.beaten, l.recent))
        l

  run-Leased :
      (jobs : Jobs) (cs : List Call)
      → WellFormed jobs
      → All (Quiet k t) cs
      → Leased k worker t jobs
      → Leased k worker t (run jobs cs)
  unfolding run
  run-Leased jobs [] w q l = l
  run-Leased jobs (c ∷ cs) w q l =
      run-Leased (step jobs c) cs (step-WellFormed jobs c w) q.1 (step-Leased jobs c w q.0 l)

claim-Leased :
    (worker : String) (t u : ℕ) (jobs : Jobs) (c : FederatedJob)
    → WellFormed jobs
    → (claim worker t (suc u) jobs).1 ≡ some c
    → Leased c.job_id worker u (claim worker t (suc u) jobs).0
claim-Leased worker t u jobs c w e =
    let g = claim_grants worker t (suc u) jobs c w e in
    record {
      job = c;
      stored = g.kept c.job_id ∙ (ground (arith, eq_iff c.job_id c.job_id));
      status = ground (arith, g.marked);
      holder = ground (arith, g.marked);
      beat = u;
      beaten = ground (arith, g.marked);
      recent = omega arith;
    }

-- After a worker has claimed a job, and as long as only quiet calls follow (nobody submits or
-- completes under its id, heartbeats are stamped after the claim, and no reaper runs more than its
-- timeout after the claim), the job stays the worker's.
pub claim_holds :
    (worker : String) (t u : ℕ) (jobs : Jobs) (c : FederatedJob) (cs : List Call)
    → WellFormed jobs
    → (claim worker t (suc u) jobs).1 ≡ some c
    → All (Quiet c.job_id u) cs
    → Leased c.job_id worker u (run (claim worker t (suc u) jobs).0 cs)
unfolding step
claim_holds worker t u jobs c cs w e q =
    run-Leased (claim worker t (suc u) jobs).0 cs (step-WellFormed jobs (claims worker t (suc u)) w)
      q (claim-Leased worker t u jobs c w e)

-- After a worker has claimed a job, and as long as only quiet calls follow (nobody submits or
-- completes under its id, heartbeats are stamped after the claim, and no reaper runs more than its
-- timeout after the claim), no worker is handed the same job.
pub claims_disjoint :
    (worker other : String) (t u t' u' : ℕ) (jobs : Jobs) (c d : FederatedJob) (cs : List Call)
    → WellFormed jobs
    → (claim worker t (suc u) jobs).1 ≡ some c
    → All (Quiet c.job_id u) cs
    → (claim other t' u' (run (claim worker t (suc u) jobs).0 cs)).1 ≡ some d
    → d.job_id ≢ c.job_id
unfolding step
claims_disjoint worker other t u t' u' jobs c d cs w e q f same =
    let after = (claim worker t (suc u) jobs).0 in
    let l = claim_holds worker t u jobs c cs w e q in
    let w' = run-WellFormed after cs (step-WellFormed jobs (claims worker t (suc u)) w) in
    let g = claim_grants other t' u' (run after cs) d w' f in
    ground (arith, l.stored, l.status, g.stored, g.waiting, same)
