-- ===== src/JobQueue/Persist.antt =====
-- The persistence file of rfsn_job_queue.py: `_persist_job`, `_unpersist_job` and
-- `_load_persisted_jobs`. The file is absent or a list of lines; `none` is a line that is no JSON
-- (a blank one too). The lock makes each of them one step, and I/O errors are left out.
use vibe_thinker.Prelude.{
  ℕ, String, Bool, true, false, not, ◌&&◌, List, [], ◌∷◌, ◌++◌, Option, none, some, ◌=s◌, mem,
  if◌then◌else◌,
}
use vibe_thinker.Prelude.Int.{ℤ}
use vibe_thinker.JobQueue.Job.{Job, new_job}

pub record Line : Type 0 where
  pub job_id : String
  pub query : String
  pub priority : ℤ
  pub force_route : Option String
  pub created_at : ℕ

abbrev pub File : Type 0
File = Option (List (Option Line))

unfoldable pub line_of : Job → Line
line_of job = record {
  job_id = job.job_id;
  query = job.query;
  priority = job.priority;
  force_route = job.force_route;
  created_at = job.created_at;
}

-- The file is opened to append, which creates it.
unfoldable pub persist_job : Job → File → File
unfolding line_of
persist_job job none = some (some (line_of job) ∷ [])
persist_job job (some lines) = some (lines ++ some (line_of job) ∷ [])

abbrev pub has_malformed : List (Option Line) → Bool
has_malformed [] = false
has_malformed (none ∷ lines) = true
has_malformed (some l ∷ lines) = has_malformed lines

abbrev pub without_id : String → List (Option Line) → List (Option Line)
without_id job_id [] = []
without_id job_id (none ∷ lines) = none ∷ without_id job_id lines
without_id job_id (some l ∷ lines) =
    let rest = without_id job_id lines in if l.job_id =s job_id then rest else some l ∷ rest

-- A line that is no JSON raises in the filter, and the file stays as it was.
unfoldable pub unpersist_job : String → File → File
unpersist_job job_id none = none
unpersist_job job_id (some lines) =
    some (if has_malformed lines then lines else without_id job_id lines)

unfoldable pub job_of : Line → Job
unfolding new_job
job_of l = new_job l.query l.priority l.force_route none l.job_id l.created_at

-- The loop with `seen_ids`.
unfoldable pub load_lines : List String → List (Option Line) → List Job
unfolding job_of
load_lines seen [] = []
load_lines seen (none ∷ lines) = load_lines seen lines
load_lines seen (some l ∷ lines) =
    let fresh = job_of l ∷ load_lines (l.job_id ∷ seen) lines in
    let skip = load_lines seen lines in
    if not (l.job_id =s "") && not (mem l.job_id seen) then fresh else skip

unfoldable pub load_persisted_jobs : File → List Job
unfolding load_lines
load_persisted_jobs none = []
load_persisted_jobs (some lines) = load_lines [] lines
