-- ===== src/JobQueue/Recovery.antt =====
-- What the persistence file gives back after a crash, and a submission before `start`.
use vibe_thinker.Prelude.{
  ℕ, ◌≡◌, refl, sym, ap, ◌∙◌, ◌≢◌, String, Bool, true, false, not, List, [], ◌∷◌, ◌++◌, map, Option,
  none, some, arith, eq_iff, ◌=s◌, keep, mem, Bool-cases, inl, inr,
}
use mathlib.Core.List.{append-nil, append_assoc}
use vibe_thinker.Prelude.Int.{ℤ}
use vibe_thinker.Prelude.Dict.{get, put}
use vibe_thinker.JobQueue.Job.{JobStatus, Job, new_job}
use vibe_thinker.JobQueue.Persist.{
  Line, File, line_of, persist_job, unpersist_job, has_malformed, without_id, job_of, load_lines,
  load_persisted_jobs,
}
use vibe_thinker.JobQueue.Queue.{new_queue, start, submit}

-- What a restart makes of a job: its request and its id are kept, its progress is not.
abbrev pub restored : Job → Job
restored job = record job {
  status = JobStatus.pending;
  result = none;
  error = none;
  started_at = none;
  finished_at = none;
  callback = none;
}

job_of-line_of : (job : Job) → job_of (line_of job) ≡ restored job
unfolding job_of line_of
job_of-line_of job = refl

abbrev pub persist_all : List Job → File → File
persist_all [] file = file
persist_all (job ∷ jobs) file = persist_all jobs (persist_job job file)

-- The ids are given, distinct, and none of those seen.
abbrev pub Fresh : List String → List Job → Type 0
Fresh seen [] = Unit
Fresh seen (job ∷ jobs) =
    ((job.job_id =s "") ≡ false) × (mem job.job_id seen ≡ false) × Fresh (job.job_id ∷ seen) jobs

abbrev lines_of : List Job → List (Option Line)
lines_of [] = []
lines_of (job ∷ jobs) = some (line_of job) ∷ lines_of jobs

load-lines_of :
    (seen : List String) (jobs : List Job)
    → Fresh seen jobs
    → load_lines seen (lines_of jobs) ≡ map restored jobs
unfolding load_lines line_of
load-lines_of seen [] h = refl
load-lines_of seen (job ∷ jobs) h =
    rw (h.0, h.1) (ap (◌∷◌ (restored job)) (load-lines_of (job.job_id ∷ seen) jobs h.2))

append-lines_of :
    (lines : List (Option Line)) (jobs : List Job)
    → persist_all jobs (some lines) ≡ some (lines ++ lines_of jobs)
unfolding persist_job
append-lines_of lines [] = ap some (sym (append-nil lines))
append-lines_of lines (job ∷ jobs) =
    append-lines_of (lines ++ some (line_of job) ∷ []) jobs
    ∙ ap some (append_assoc lines (some (line_of job) ∷ []) (lines_of jobs))

-- Jobs with distinct ids that are written one after the other to a new file come back in that order,
-- pending, with their requests, ids and creation times, and without progress or callback.
pub load-persist_all :
    (job : Job) (jobs : List Job)
    → Fresh [] (job ∷ jobs)
    → load_persisted_jobs (persist_all (job ∷ jobs) none) ≡ map restored (job ∷ jobs)
unfolding load_persisted_jobs persist_job
load-persist_all job jobs h =
    rw (append-lines_of (some (line_of job) ∷ []) jobs) (load-lines_of [] (job ∷ jobs) h)

abbrev pub other_than : String → Job → Bool
other_than job_id job = not (job.job_id =s job_id)

-- The two lists of seen ids hold the same ids but for `job_id`.
abbrev AgreeOff : String → List String → List String → Type 0
AgreeOff job_id s s' = (i : String) → (i =s job_id) ≡ false → mem i s ≡ mem i s'

load-without_id :
    (job_id : String) (s s' : List String) (lines : List (Option Line))
    → AgreeOff job_id s s'
    → has_malformed lines ≡ false
    → load_lines s (without_id job_id lines) ≡ keep (other_than job_id) (load_lines s' lines)
unfolding load_lines
load-without_id job_id s s' [] a h = refl
load-without_id job_id s s' (none ∷ lines) a h = cc
load-without_id job_id s s' (some l ∷ lines) a h = elim (Bool-cases (l.job_id =s job_id)) [
  | inl same ↦
      let seen : AgreeOff job_id s (l.job_id ∷ s') = λ i off.
        ground (arith, a i off, eq_iff i l.job_id, eq_iff l.job_id job_id, eq_iff i job_id) in
      ground (
        arith,
        same,
        load-without_id job_id s s' lines a h,
        load-without_id job_id s (l.job_id ∷ s') lines seen h,
      )
  | inr off ↦
      let seen : AgreeOff job_id (l.job_id ∷ s) (l.job_id ∷ s') =
        λ i off'. ground (arith, a i off') in
      ground (
        arith,
        off,
        a l.job_id off,
        load-without_id job_id s s' lines a h,
        load-without_id job_id (l.job_id ∷ s) (l.job_id ∷ s') lines seen h,
      )
]

-- Taking a job out of a file without malformed lines takes exactly the jobs of that id out of what a
-- restart loads, in whatever order and however often the file names them.
pub load-unpersist_job :
    (job_id : String) (lines : List (Option Line))
    → has_malformed lines ≡ false
    → load_persisted_jobs (unpersist_job job_id (some lines))
      ≡ keep (other_than job_id) (load_persisted_jobs (some lines))
unfolding load_persisted_jobs unpersist_job
load-unpersist_job job_id lines h = rw h (load-without_id job_id [] [] lines (λ i off. refl) h)

-- A job that is submitted to a new queue with a persistence file, before `start`, is queued twice:
-- `start` loads it back from the file as a second object with the same id, and both are pending.
pub submit-start_twice :
    (max : ℕ) (audits : Bool) (query : String) (priority : ℤ) (route : Option String)
    (callback : Option ℕ) (fresh : String) (now : ℕ)
    → fresh ≢ ""
    → let q =
        start (submit query priority route callback fresh now (new_queue max true audits none)).0 in
      (q.pending ≡ 0 ∷ 1 ∷ [])
      × (q.heap
          ≡ new_job query priority route callback fresh now
            ∷ new_job query priority route none fresh now
            ∷ [])
      × (get q.jobs fresh ≡ some 1)
unfolding start submit new_queue get put
submit-start_twice max audits query priority route callback fresh now h =
    ground (arith, eq_iff fresh "", eq_iff fresh fresh)
