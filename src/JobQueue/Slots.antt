-- ===== src/JobQueue/Slots.antt =====
-- The concurrency bound: tasks in flight, and jobs behind the semaphore.
use vibe_thinker.Prelude.{
  ℕ, String, ◌≤◌, ◌≡◌, Bool, not, List, [], ◌∷◌, Option, some, arith, keep, length, length-append,
  get_elem?, Option-cases, inl, inr, ◌==◌,
}
use vibe_thinker.Prelude.Int.{ℤ}
use vibe_thinker.Prelude.Dict.{get}
use vibe_thinker.JobQueue.Job.{JobStatus, Job}
use vibe_thinker.JobQueue.Queue.{
  Phase, Task, Queue, audit, save, unsave, signal, enqueue, enqueue_all, recover, start, stop,
  submit, cancel_pending, cancel_task, cancel_by_status, cancel,
}
use vibe_thinker.JobQueue.Persist.{load_persisted_jobs}
use vibe_thinker.JobQueue.Tasks.{
  Outcome, dispatch_from, begin_job, conclude, finish_job, task_step, advance, cleanup, Move,
  starts, stops, dispatches, submits, cancels, advances, cleans, step, run,
}

pub record Slots (max : ℕ) (q : Queue) : Type 0 where
  pub same : q.max_concurrent ≡ max
  pub holding : q.holders ≤ max
  pub in_flight : length q.job_tasks ≤ max

length-keep-le : {A : Type 0} (test : A → Bool) (xs : List A) → length (keep test xs) ≤ length xs
length-keep-le test [] = omega arith
length-keep-le test (x ∷ xs) = ground (arith, length-keep-le test xs)

module _ {max : ℕ} where
  audit-Slots :
      (job : Job) (event : String) (q : Queue) → Slots max q → Slots max (audit job event q)
  unfolding audit
  audit-Slots job event q s = ground arith

  unsave-Slots : (job_id : String) (q : Queue) → Slots max q → Slots max (unsave job_id q)
  unfolding unsave
  unsave-Slots job_id q s = ground arith

  signal-Slots : (job_id : String) (q : Queue) → Slots max q → Slots max (signal job_id q)
  unfolding signal
  signal-Slots job_id q s = ground arith

  enqueue_all-Slots : (jobs : List Job) (q : Queue) → Slots max q → Slots max (enqueue_all jobs q)
  unfolding enqueue_all enqueue
  enqueue_all-Slots [] q s = s
  enqueue_all-Slots (job ∷ jobs) q s =
      enqueue_all-Slots jobs (enqueue job q)
        (record { same = s.same; holding = s.holding; in_flight = s.in_flight })

  start-Slots : (q : Queue) → Slots max q → Slots max (start q)
  unfolding start recover
  start-Slots q s = ground (arith, enqueue_all-Slots (load_persisted_jobs q.file) q s)

  submit-Slots :
      (query : String) (priority : ℤ) (route : Option String) (callback : Option ℕ) (fresh : String)
      (now : ℕ) (q : Queue)
      → Slots max q
      → Slots max (submit query priority route callback fresh now q).0
  unfolding submit enqueue audit save
  submit-Slots query priority route callback fresh now q s = ground arith

  cancel_pending-Slots :
      (ref : ℕ) (job : Job) (now : ℕ) (q : Queue)
      → Slots max q
      → Slots max (cancel_pending ref job now q)
  unfolding cancel_pending
  cancel_pending-Slots ref job now q s = unsave-Slots job.job_id _ (
      audit-Slots (record job { status = JobStatus.cancelled; finished_at = some now }) "cancelled"
        _
        (signal-Slots job.job_id _
          (record { same = s.same; holding = s.holding; in_flight = s.in_flight })))

  cancel_by_status-Slots :
      (st : JobStatus) (ref : ℕ) (job : Job) (now : ℕ) (q : Queue)
      → Slots max q
      → Slots max (cancel_by_status st ref job now q).0
  unfolding cancel_by_status cancel_task
  cancel_by_status-Slots JobStatus.pending ref job now q s = cancel_pending-Slots ref job now q s
  cancel_by_status-Slots JobStatus.running ref job now q s = ground arith
  cancel_by_status-Slots _ ref job now q s = s

  cancel-Slots :
      (job_id : String) (now : ℕ) (q : Queue) → Slots max q → Slots max (cancel job_id now q).0
  unfolding cancel
  cancel-Slots job_id now q s = elim (Option-cases (get q.jobs job_id)) [
    | inl e ↦ rw (e, cancel) s
    | inr (ref, e) ↦
        rw (e, cancel)
          (elim (Option-cases (get_elem? q.heap ref)) [
            | inl e' ↦ rw e' s
            | inr (job, e') ↦ rw e' (cancel_by_status-Slots job.status ref job now q s)
          ])
  ]

  dispatch-Slots :
      (rs : List ℕ) (q : Queue) → 1 ≤ max → Slots max q → Slots max (dispatch_from rs q)
  unfolding dispatch_from
  dispatch-Slots [] q h s = ground arith
  dispatch-Slots (r ∷ rest) q h s = ground (arith, length-append q.job_tasks (length q.tasks ∷ []))

  conclude-Slots :
      (t : ℕ) (task : Task) (job : Job) (now : ℕ) (q : Queue)
      → Slots max q
      → Slots max (conclude t task job now q)
  unfolding conclude
  conclude-Slots t task job now q s = ground arith

  finish_job-Slots :
      (t : ℕ) (task : Task) (job : Job) (outcome : Outcome) (now : ℕ) (q : Queue)
      → Slots max q
      → Slots max (finish_job t task job outcome now q)
  unfolding finish_job
  finish_job-Slots t task job outcome now q s = ground arith

  task_step-Slots :
      (phase : Phase) (t : ℕ) (task : Task) (job : Job) (outcome : Outcome) (now : ℕ) (q : Queue)
      → Slots max q
      → Slots max (task_step phase t task job outcome now q)
  unfolding begin_job
  task_step-Slots Phase.scheduled t task job outcome now q s = ground arith
  task_step-Slots Phase.working t task job outcome now q s =
      finish_job-Slots t task job outcome now q s
  task_step-Slots Phase.calling_back t task job outcome now q s = conclude-Slots t task job now q s
  task_step-Slots Phase.ended t task job outcome now q s = s

  advance-Slots :
      (t : ℕ) (outcome : Outcome) (now : ℕ) (q : Queue)
      → Slots max q
      → Slots max (advance t outcome now q)
  unfolding advance
  advance-Slots t outcome now q s = elim (Option-cases (get_elem? q.tasks t)) [
    | inl e ↦ rw (e, advance) s
    | inr (task, e) ↦
        rw (e, advance)
          (elim (Option-cases (get_elem? q.heap task.job)) [
            | inl e' ↦ rw e' s
            | inr (job, e') ↦ rw e' (task_step-Slots task.phase t task job outcome now q s)
          ])
  ]

  cleanup-Slots : (t : ℕ) (q : Queue) → Slots max q → Slots max (cleanup t q)
  unfolding cleanup
  cleanup-Slots t q s = ground (arith, length-keep-le (λ (u : ℕ). not (u == t)) q.job_tasks)

  step-Slots : (q : Queue) (m : Move) → 1 ≤ max → Slots max q → Slots max (step q m)
  unfolding step stop
  step-Slots q starts h s = start-Slots q s
  step-Slots q stops h s = record { same = s.same; holding = s.holding; in_flight = s.in_flight }
  step-Slots q dispatches h s = dispatch-Slots q.pending q h s
  step-Slots q (submits query priority route callback fresh now) h s =
      submit-Slots query priority route callback fresh now q s
  step-Slots q (cancels job_id now) h s = cancel-Slots job_id now q s
  step-Slots q (advances t outcome now) h s = advance-Slots t outcome now q s
  step-Slots q (cleans t) h s = cleanup-Slots t q s

  -- With room for at least one job, no interleaving of submissions, cancellations and task steps
  -- has more than `max_concurrent` tasks in flight or more than that many jobs behind the semaphore.
  pub run-Slots : (q : Queue) (ms : List Move) → 1 ≤ max → Slots max q → Slots max (run q ms)
  unfolding run
  run-Slots q [] h s = s
  run-Slots q (m ∷ ms) h s = run-Slots (step q m) ms h (step-Slots q m h s)
