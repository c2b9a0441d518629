-- ===== src/JobQueue/Job.antt =====
-- `JobStatus` and `Job` of rfsn_job_queue.py. An instant is a number (the source keeps its ISO text);
-- a result of the orchestrator and a callback are opaque and stand for their value and their identity.
use vibe_thinker.Prelude.{ℕ, String, Bool, true, false, ◌&&◌, Option, none, some, ◌==◌, ◌=s◌}
use vibe_thinker.Prelude.Int.{ℤ, pos_part, neg_part}

pub data JobStatus : Type 0 where
  pending running completed failed cancelled : JobStatus

pub record Job : Type 0 where
  pub query : String
  pub priority : ℤ
  pub force_route : Option String
  pub job_id : String
  pub status : JobStatus
  pub result : Option ℕ
  pub error : Option String
  pub created_at : ℕ
  pub started_at : Option ℕ
  pub finished_at : Option ℕ
  pub callback : Option ℕ

unfoldable pub new_job : String → ℤ → Option String → Option ℕ → String → ℕ → Job
new_job query priority force_route callback fresh now = record {
  query = query;
  priority = priority;
  force_route = force_route;
  job_id = fresh;
  status = JobStatus.pending;
  result = none;
  error = none;
  created_at = now;
  started_at = none;
  finished_at = none;
  callback = callback;
}

abbrev pub is_over : JobStatus → Bool
is_over JobStatus.completed = true
is_over JobStatus.failed = true
is_over JobStatus.cancelled = true
is_over _ = false

abbrev pub status_code : JobStatus → ℕ
status_code JobStatus.pending = 0
status_code JobStatus.running = 1
status_code JobStatus.completed = 2
status_code JobStatus.failed = 3
status_code JobStatus.cancelled = 4

abbrev pub same_number : Option ℕ → Option ℕ → Bool
same_number none none = true
same_number (some a) (some b) = a == b
same_number _ _ = false

abbrev pub same_text : Option String → Option String → Bool
same_text none none = true
same_text (some a) (some b) = a =s b
same_text _ _ = false

-- The `==` that `@dataclass` gives: all fields are equal.
unfoldable pub same_job : Job → Job → Bool
same_job a b =
    (a.query =s b.query)
    && ((pos_part a.priority == pos_part b.priority)
        && ((neg_part a.priority == neg_part b.priority)
            && (same_text a.force_route b.force_route
                && ((a.job_id =s b.job_id)
                    && ((status_code a.status == status_code b.status)
                        && (same_number a.result b.result
                            && (same_text a.error b.error
                                && ((a.created_at == b.created_at)
                                    && (same_number a.started_at b.started_at
                                        && (same_number a.finished_at b.finished_at
                                            && same_number a.callback b.callback))))))))))
