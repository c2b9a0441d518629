-- ===== src/JobQueue/Tasks.antt =====
-- `_dispatch_loop` and `_run_job` of rfsn_job_queue.py, cut at their `await`s: what the event loop
-- may run as one step, on the state at that moment. A step that is not enabled changes nothing.
use vibe_thinker.Prelude.{
  ℕ, ◌+◌, ◌-◌, String, Bool, true, false, not, ◌&&◌, List, [], ◌∷◌, ◌++◌, Option, none, some, ltb,
  leb, ◌==◌, keep, length, get_elem?, set, if◌then◌else◌,
}
use vibe_thinker.Prelude.Int.{ℤ}
use vibe_thinker.Prelude.Dict.{put, remove}
use vibe_thinker.JobQueue.Job.{JobStatus, Job}
use vibe_thinker.JobQueue.Queue.{
  Phase, scheduled, working, calling_back, ended, Task, Queue, audit, unsave, signal, is_empty,
  is_ended, start, stop, submit, cancel,
}

-- `self._job_tasks and len(self._job_tasks) >= self.max_concurrent`
unfoldable pub is_full : Queue → Bool
is_full q = not (is_empty q.job_tasks) && leb q.max_concurrent (length q.job_tasks)

abbrev pub id_at : List Job → ℕ → String
id_at heap r = elim (get_elem? heap r) [ none ↦ "" | some job ↦ job.job_id ]

unfoldable pub launch : ℕ → List ℕ → Queue → Queue
launch r rest q =
    let t = length q.tasks in
    let jid = id_at q.heap r in
    record q {
      pending = rest;
      tasks = q.tasks ++ record { job = r; jid = jid; phase = scheduled; cancelling = false } ∷ [];
      job_tasks = q.job_tasks ++ t ∷ [];
      task_map = put q.task_map jid t;
    }

-- One turn of the loop: it waits for a submission, waits for a slot, or launches the first job.
unfoldable pub dispatch_from : List ℕ → Queue → Queue
unfolding launch is_full
dispatch_from [] q = if q.is_running then record q { awake = false } else q
dispatch_from (r ∷ rest) q = if is_full q then q else launch r rest q

unfoldable pub dispatch : Queue → Queue
unfolding dispatch_from
dispatch q = dispatch_from q.pending q

unfoldable pub set_phase : ℕ → Task → Phase → Queue → Queue
set_phase t task phase q = record q { tasks = set q.tasks t (record task { phase = phase }) }

abbrev pub is_cancelled : JobStatus → Bool
is_cancelled JobStatus.cancelled = true
is_cancelled _ = false

-- Behind the semaphore, up to the call of the orchestrator.
unfoldable pub begin_job : ℕ → Task → Job → ℕ → Queue → Queue
unfolding set_phase audit
begin_job t task job now q =
    if is_cancelled job.status
    then set_phase t task ended q
    else (let job' = record job { status = JobStatus.running; started_at = some now } in
        let q' = set_phase t task working q in
        audit job' "started"
          (record q' { heap = set q.heap task.job job'; holders = q.holders + 1 }))

-- The `finally` block, the semaphore's release and the end of the task.
unfoldable pub conclude : ℕ → Task → Job → ℕ → Queue → Queue
unfolding set_phase signal
conclude t task job now q =
    let q' = record q {
      heap = set q.heap task.job (record job { finished_at = some now });
      holders = q.holders - 1;
    } in
    set_phase t task ended (signal job.job_id q')

-- How the call of the orchestrator ends.
pub data Outcome : Type 0 where
  returned : ℕ → Outcome
  raised : String → Outcome
  cancelled_error : Outcome

abbrev pub after_call : Job → Outcome → Job
after_call job (returned result) = record job { result = some result; status = JobStatus.completed }
after_call job (raised text) = record job { error = some text; status = JobStatus.failed }
after_call job cancelled_error = record job {
  error = some "cancelled by user";
  status = JobStatus.cancelled;
}

abbrev pub event_of : Outcome → String
event_of (returned result) = "completed"
event_of (raised text) = "failed"
event_of cancelled_error = "cancelled"

-- A callback runs only for a result; its own failure is printed and dropped.
abbrev pub calls_back : Job → Outcome → Bool
calls_back job (returned result) = elim job.callback [ none ↦ false | some f ↦ true ]
calls_back job _ = false

unfoldable pub finish_job : ℕ → Task → Job → Outcome → ℕ → Queue → Queue
unfolding conclude set_phase audit unsave
finish_job t task job outcome now q =
    let job' = after_call job outcome in
    let q' =
      unsave job.job_id
        (audit job' (event_of outcome) (record q { heap = set q.heap task.job job' })) in
    if calls_back job outcome then set_phase t task calling_back q' else conclude t task job' now q'

abbrev pub task_step : Phase → ℕ → Task → Job → Outcome → ℕ → Queue → Queue
task_step Phase.scheduled t task job outcome now q =
    if ltb q.holders q.max_concurrent then begin_job t task job now q else q
task_step Phase.working t task job outcome now q = finish_job t task job outcome now q
task_step Phase.calling_back t task job outcome now q = conclude t task job now q
task_step Phase.ended t task job outcome now q = q

-- The task goes on to its next `await`.
unfoldable pub advance : ℕ → Outcome → ℕ → Queue → Queue
unfolding begin_job finish_job conclude
advance t outcome now q = elim (get_elem? q.tasks t) [
  | none ↦ q
  | some task ↦ elim (get_elem? q.heap task.job) [
    | none ↦ q
    | some job ↦ task_step task.phase t task job outcome now q
  ]
]

-- The callback of a task that is done.
unfoldable pub cleanup : ℕ → Queue → Queue
cleanup t q = elim (get_elem? q.tasks t) [
  | none ↦ q
  | some task ↦
      if is_ended task.phase
      then record q {
        job_tasks = keep (λ u. not (u == t)) q.job_tasks;
        task_map = remove q.task_map task.jid;
      }
      else q
]

pub data Move : Type 0 where
  starts stops dispatches : Move
  submits : String → ℤ → Option String → Option ℕ → String → ℕ → Move
  cancels : String → ℕ → Move
  advances : ℕ → Outcome → ℕ → Move
  cleans : ℕ → Move

unfoldable pub step : Queue → Move → Queue
unfolding start stop dispatch submit cancel advance cleanup
step q starts = start q
step q stops = stop q
step q dispatches = dispatch q
step q (submits query priority route callback fresh now) =
    (submit query priority route callback fresh now q).0
step q (cancels job_id now) = (cancel job_id now q).0
step q (advances t outcome now) = advance t outcome now q
step q (cleans t) = cleanup t q

unfoldable pub run : Queue → List Move → Queue
unfolding step
run q [] = q
run q (m ∷ ms) = run (step q m) ms
