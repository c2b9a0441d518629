-- ===== src/JobQueue/Queue.antt =====
-- `JobQueue` of rfsn_job_queue.py: its state, and `start`, `stop`, `submit`, `cancel` and the reads.
-- Jobs and events are mutable objects that several containers share, so they live on a heap and the
-- containers hold references. Between two `await`s nothing interrupts a method: each is one step.
use vibe_thinker.Prelude.{
  ℕ, String, Bool, true, false, ◌||◌, List, [], ◌∷◌, ◌++◌, Option, none, some, ◌==◌, length,
  get_elem?, set, if◌then◌else◌,
}
use vibe_thinker.Prelude.Int.{ℤ, ltb_ℤ}
use vibe_thinker.Prelude.Dict.{Dict, get, put}
use vibe_thinker.JobQueue.Job.{JobStatus, Job, new_job, same_job}
use vibe_thinker.JobQueue.Persist.{File, persist_job, unpersist_job, load_persisted_jobs}

-- A task of `_run_job`: scheduled, awaiting the orchestrator, awaiting the callback, or done.
pub data Phase : Type 0 where
  scheduled working calling_back ended : Phase

pub record Task : Type 0 where
  pub job : ℕ
  pub jid : String
  pub phase : Phase
  pub cancelling : Bool

-- One entry of the audit log: the job's id, the event and the status.
pub record Entry : Type 0 where
  pub job_id : String
  pub event : String
  pub status : JobStatus

pub record Queue : Type 0 where
  pub max_concurrent : ℕ
  pub persists : Bool
  pub audits : Bool
  pub file : File
  pub log : List Entry
  pub heap : List Job
  pub flags : List Bool
  pub jobs : Dict ℕ
  pub events : Dict ℕ
  pub pending : List ℕ
  pub is_running : Bool
  pub awake : Bool
  pub holders : ℕ
  pub tasks : List Task
  pub job_tasks : List ℕ
  pub task_map : Dict ℕ

unfoldable pub new_queue : ℕ → Bool → Bool → File → Queue
new_queue max_concurrent persists audits file = record {
  max_concurrent = max_concurrent;
  persists = persists;
  audits = audits;
  file = file;
  log = [];
  heap = [];
  flags = [];
  jobs = [];
  events = [];
  pending = [];
  is_running = false;
  awake = false;
  holders = 0;
  tasks = [];
  job_tasks = [];
  task_map = [];
}

unfoldable pub audit : Job → String → Queue → Queue
audit job event q =
    if q.audits
    then record q {
      log = q.log ++ record { job_id = job.job_id; event = event; status = job.status } ∷ [];
    }
    else q

unfoldable pub save : Job → Queue → Queue
unfolding persist_job
save job q = if q.persists then record q { file = persist_job job q.file } else q

unfoldable pub unsave : String → Queue → Queue
unfolding unpersist_job
unsave job_id q = if q.persists then record q { file = unpersist_job job_id q.file } else q

-- `job.priority > existing.priority`; no reference of the program dangles.
unfoldable pub outranks : List Job → Job → ℕ → Bool
outranks heap job r = elim (get_elem? heap r) [
  | none ↦ false
  | some existing ↦ ltb_ℤ existing.priority job.priority
]

-- The loop that inserts before the first job of less priority.
unfoldable pub insert_pending : List Job → Job → ℕ → List ℕ → List ℕ
unfolding outranks
insert_pending heap job new [] = new ∷ []
insert_pending heap job new (r ∷ rs) =
    if outranks heap job r then new ∷ r ∷ rs else r ∷ insert_pending heap job new rs

-- A new job object and a new event under the job's id, and its place among the pending ones.
unfoldable pub enqueue : Job → Queue → Queue
unfolding insert_pending
enqueue job q = record q {
  heap = q.heap ++ job ∷ [];
  flags = q.flags ++ false ∷ [];
  jobs = put q.jobs job.job_id (length q.heap);
  events = put q.events job.job_id (length q.flags);
  pending = insert_pending q.heap job (length q.heap) q.pending;
}

unfoldable pub submit : String → ℤ → Option String → Option ℕ → String → ℕ → Queue → Queue × Job
unfolding new_job enqueue audit save
submit query priority force_route callback fresh now q =
    let job = new_job query priority force_route callback fresh now in
    let q' = save job (audit job "submitted" (enqueue job q)) in (record q' { awake = true }, job)

unfoldable pub enqueue_all : List Job → Queue → Queue
unfolding enqueue
enqueue_all [] q = q
enqueue_all (job ∷ jobs) q = enqueue_all jobs (enqueue job q)

abbrev pub is_empty {ℓ} : {A : Type ℓ} → List A → Bool
is_empty [] = true
is_empty (x ∷ xs) = false

unfoldable pub recover : Queue → Queue
unfolding load_persisted_jobs enqueue_all
recover q =
    let recovered = load_persisted_jobs q.file in
    let q' = enqueue_all recovered q in
    record q' { awake = if is_empty recovered then q.awake else true }

unfoldable pub start : Queue → Queue
unfolding recover
start q =
    if q.is_running then q else record (if q.persists then recover q else q) { is_running = true }

unfoldable pub stop : Queue → Queue
stop q = record q { is_running = false; awake = true }

-- `self._jobs.get(job_id)`
unfoldable pub find_job : Queue → String → Option Job
find_job q job_id = elim (get q.jobs job_id) [ none ↦ none | some r ↦ get_elem? q.heap r ]

unfoldable pub status : Queue → String → Option JobStatus
unfolding find_job
status q job_id = elim (find_job q job_id) [ none ↦ none | some job ↦ some job.status ]

-- `self._events[job_id].set()`
unfoldable pub signal : String → Queue → Queue
signal job_id q = elim (get q.events job_id) [
  | none ↦ q
  | some e ↦ record q { flags = set q.flags e true }
]

-- `list.remove(job)` takes the first object that is the job itself or equal to it, if there is one.
unfoldable pub is_same : List Job → ℕ → Job → ℕ → Bool
unfolding same_job
is_same heap ref job r =
    (r == ref) || (elim (get_elem? heap r) [ none ↦ false | some other ↦ same_job other job ])

unfoldable pub remove_pending : List Job → ℕ → Job → List ℕ → List ℕ
unfolding is_same
remove_pending heap ref job [] = []
remove_pending heap ref job (r ∷ rs) =
    if is_same heap ref job r then rs else r ∷ remove_pending heap ref job rs

unfoldable pub cancel_pending : ℕ → Job → ℕ → Queue → Queue
unfolding remove_pending signal audit unsave
cancel_pending ref job now q =
    let job' = record job { status = JobStatus.cancelled; finished_at = some now } in
    let q' = record q {
      pending = remove_pending q.heap ref job q.pending;
      heap = set q.heap ref job';
    } in
    unsave job.job_id (audit job' "cancelled" (signal job.job_id q'))

abbrev pub is_ended : Phase → Bool
is_ended Phase.ended = true
is_ended _ = false

-- `task.cancel()` marks a task that is not done.
unfoldable pub cancel_task : Option ℕ → Queue → Queue × Bool
cancel_task none q = (q, false)
cancel_task (some t) q = elim (get_elem? q.tasks t) [
  | none ↦ (q, false)
  | some task ↦
      if is_ended task.phase
      then (q, false)
      else (record q { tasks = set q.tasks t (record task { cancelling = true }) }, true)
]

unfoldable pub cancel_by_status : JobStatus → ℕ → Job → ℕ → Queue → Queue × Bool
unfolding cancel_pending cancel_task
cancel_by_status JobStatus.pending ref job now q = (cancel_pending ref job now q, true)
cancel_by_status JobStatus.running ref job now q = cancel_task (get q.task_map job.job_id) q
cancel_by_status JobStatus.cancelled ref job now q = (q, true)
cancel_by_status _ ref job now q = (q, false)

unfoldable pub cancel : String → ℕ → Queue → Queue × Bool
unfolding cancel_by_status
cancel job_id now q = elim (get q.jobs job_id) [
  | none ↦ (q, false)
  | some ref ↦ elim (get_elem? q.heap ref) [
    | none ↦ (q, false)
    | some job ↦ cancel_by_status job.status ref job now q
  ]
]

-- What `wait_for` gives once the event is set.
pub data Answer : Type 0 where
  unknown waits failed cancelled : Answer
  returns : Option ℕ → Answer

abbrev pub answer_of : Job → Answer
answer_of job = elim job.status [
  | JobStatus.failed ↦ Answer.failed
  | JobStatus.cancelled ↦ Answer.cancelled
  | _ ↦ returns job.result
]

-- With the timeout left out: `waits` is the wait that goes on.
unfoldable pub wait_for : String → Queue → Answer
unfolding find_job
wait_for job_id q = elim (get q.events job_id) [
  | none ↦ unknown
  | some e ↦ elim (get_elem? q.flags e) [
    | none ↦ unknown
    | some is_set ↦
        if is_set
        then (elim (find_job q job_id) [ none ↦ unknown | some job ↦ answer_of job ])
        else waits
  ]
]
