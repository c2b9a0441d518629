-- ===== src/Federation/Job.antt =====
-- `FederatedJob` of federation_server.py. A `time.time()` is a number of ticks, and what a request
-- may send as any JSON value (route, submitter, result, error) is a `Json`.
use vibe_thinker.Prelude.{ℕ, suc, String, Bool, true, false, Option, some}
use vibe_thinker.Prelude.Int.{ℤ}
use vibe_thinker.Json.{Json}

pub data Status : Type 0 where
  pending claimed done error : Status

pub record FederatedJob : Type 0 where
  pub job_id : String
  pub query : String
  pub priority : ℤ
  pub force_route : Json
  pub submitted_by : Json
  pub status : Status
  pub claimed_by : Option String
  pub result : Json
  pub error : Json
  pub created_at : ℕ
  pub claimed_at : Option ℕ
  pub completed_at : Option ℕ
  pub heartbeat_at : Option ℕ

abbrev pub is_pending : Status → Bool
is_pending Status.pending = true
is_pending _ = false

abbrev pub is_claimed : Status → Bool
is_claimed Status.claimed = true
is_claimed _ = false

-- `status in ("done", "error")`
abbrev pub is_terminal : Status → Bool
is_terminal Status.done = true
is_terminal Status.error = true
is_terminal _ = false

-- `a or b` on optional times: a time of 0 counts as false.
abbrev pub or_time : Option ℕ → Option ℕ → Option ℕ
or_time (some (suc n)) b = some (suc n)
or_time _ b = b
