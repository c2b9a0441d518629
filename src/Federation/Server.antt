-- ===== src/Federation/Server.antt =====
-- The request handlers of `create_federation_app` in federation_server.py: /submit, /claim,
-- /complete, /heartbeat and /jobs. The body of a request is any JSON value, and a handler returns
-- the new state beside its reply.
use vibe_thinker.Prelude.{
  ℕ, String, Bool, true, ◌&&◌, ◌||◌, List, [], ◌∷◌, Option, none, some, leb, ltb, ◌==◌, ◌=s◌,
  length, if◌then◌else◌,
}
use vibe_thinker.Prelude.Int.{ℤ, pos, pos_part, neg_part}
use vibe_thinker.Json.{
  Json, null, bool, int, str, obj, Fields, end, field, truthy, get_field, has_field, codes,
  text_len, is_alnum,
}
use vibe_thinker.Federation.Job.{FederatedJob}
use vibe_thinker.Federation.State.{Jobs, Request, submit, claim, complete, heartbeat}
use vibe_thinker.Federation.Reputation.{Reputation, standard, record_outcome, outcome_weight}
use vibe_thinker.Federation.Identity.{Peer, extract_identity}

pub record Server : Type 0 where
  pub jobs : Jobs
  pub reputation : Reputation

-- A JSON reply, an error reply with its status, or an exception in the handler.
pub data Reply : Type 0 where
  sends : Json → Reply
  refuses : ℕ → Reply
  raises : Reply

-- The rest of a handler goes on with a value, or has its reply already.
pub data Check (A : Type 0) : Type 0 where
  goes_on : A → Check A
  replies : Reply → Check A

infixl 5 ◌>>=◌
abbrev pub ◌>>=◌ : {A B : Type 0} → Check A → (A → Check B) → Check B
goes_on a >>= f = f a
replies r >>= f = replies r

-- `_JOB_ID_RE` and `_WORKER_ID_RE`: 1 to 128 characters of a class, and by the rule of `$` one
-- newline may follow them.
abbrev pub is_id_char : ℕ → Bool
is_id_char c = is_alnum c || ((c == b'_') || (c == b'-'))

abbrev pub is_worker_char : ℕ → Bool
is_worker_char c = is_id_char c || (c == b'.')

unfoldable pub chop_newline : List ℕ → List ℕ
chop_newline [] = []
chop_newline (c ∷ []) = if c == 10 then [] else c ∷ []
chop_newline (c ∷ d ∷ cs) = c ∷ chop_newline (d ∷ cs)

abbrev pub all_in : (ℕ → Bool) → List ℕ → Bool
all_in test [] = true
all_in test (c ∷ cs) = test c && all_in test cs

unfoldable pub matches_id : (ℕ → Bool) → String → Bool
unfolding chop_newline
matches_id test s =
    let body = chop_newline (codes s) in
    all_in test body && (leb 1 (length body) && leb (length body) 128)

abbrev pub max_query_len : ℕ
max_query_len = 10000

abbrev pub max_error_len : ℕ
max_error_len = 5000

abbrev pub max_priority : ℕ
max_priority = 1000

abbrev pub magnitude : ℤ → ℕ
magnitude z = if leb (neg_part z) 0 then pos_part z else neg_part z

-- A body that is no object makes `body.get` raise.
abbrev pub object : Option Json → Check Fields
object (some (obj fields)) = goes_on fields
object _ = replies raises

unfoldable pub check_query : Json → Check String
check_query (str query) =
    if query =s ""
    then replies (refuses 400)
    else if ltb max_query_len (text_len query)
    then replies (refuses 400)
    else goes_on query
check_query _ = replies (refuses 400)

-- A true id that is no text makes `re.match` raise; a false one of any type asks for a fresh id.
unfoldable pub check_job_id : Json → Check String
unfolding matches_id truthy
check_job_id (str s) =
    if s =s ""
    then goes_on ""
    else if matches_id is_id_char s
    then goes_on s
    else replies (refuses 400)
check_job_id v = if truthy v then replies raises else goes_on ""

-- Python's `bool` is an `int`.
unfoldable pub check_priority : Json → Check ℤ
check_priority (int z) = if ltb max_priority (magnitude z) then replies (refuses 400) else goes_on z
check_priority (bool b) = goes_on (pos (if b then 1 else 0))
check_priority _ = replies (refuses 400)

unfoldable pub check_worker : Json → Check String
unfolding matches_id
check_worker (str w) = if matches_id is_worker_char w then goes_on w else replies (refuses 400)
check_worker _ = replies (refuses 400)

-- `if not job_id or not isinstance(job_id, str)`
unfoldable pub check_target : Json → Check String
check_target (str k) = if k =s "" then replies (refuses 400) else goes_on k
check_target _ = replies (refuses 400)

-- A false error of any type passes as it is.
unfoldable pub check_error : Json → Check Json
unfolding truthy
check_error (str e) =
    if ltb max_error_len (text_len e) then replies (refuses 400) else goes_on (str e)
check_error v = if truthy v then replies (refuses 400) else goes_on v

-- `Fernet` over `json.dumps`, and `loads` behind its decryption, which may raise.
pub record Cipher : Type 0 where
  pub encrypt : Json → String
  pub decrypt : String → Option Json

unfoldable pub encrypt_body : Option Cipher → Json → Json
encrypt_body none data' = data'
encrypt_body (some c) data' = obj (field "__encrypted__" (str (c.encrypt data')) end)

abbrev pub open_sealed : Option Cipher → Json → Option Json
open_sealed (some c) (str text) = c.decrypt text
open_sealed _ _ = none

-- `None` stands for an exception. A body that is no object raises here or at the `get` behind it.
unfoldable pub decrypt_body : Option Cipher → Json → Option Json
decrypt_body cipher (obj fields) =
    if has_field fields "__encrypted__"
    then open_sealed cipher (get_field fields "__encrypted__" null)
    else some (obj fields)
decrypt_body cipher v = none

abbrev pub ok_body : Json
ok_body = obj (field "status" (str "ok") end)

unfoldable pub read_request : Fields → Check Request
unfolding check_query check_job_id check_priority
read_request body = do
  query ← check_query (get_field body "query" (str ""))
  job_id ← check_job_id (get_field body "job_id" (str ""))
  priority ← check_priority (get_field body "priority" (int (pos 0)))
  goes_on (record {
    job_id = job_id;
    query = query;
    priority = priority;
    force_route = get_field body "force_route" null;
    submitted_by = get_field body "submitted_by" (str "");
  })

abbrev pub submit_checked : Check Request → String → ℕ → Server → Server × Reply
submit_checked (replies r) fresh now s = (s, r)
submit_checked (goes_on r) fresh now s =
    let (jobs', job) = submit r fresh now s.jobs in
    (
      record s { jobs = jobs' },
      sends (obj (field "job_id" (str job.job_id) (field "status" (str "pending") end))),
    )

unfoldable pub submit_job : Option Cipher → Json → String → ℕ → Server → Server × Reply
unfolding decrypt_body read_request submit
submit_job cipher body fresh now s =
    submit_checked (do fields ← object (decrypt_body cipher body); read_request fields) fresh now s

abbrev pub claim_reply : Option Cipher → Option FederatedJob → Json
claim_reply cipher none = obj (field "job_id" null (field "status" (str "no_jobs") end))
claim_reply cipher (some job) = encrypt_body cipher (
    obj (
      field "job_id" (str job.job_id) (
        field "query" (str job.query) (
          field "priority" (int job.priority)
            (field "force_route" job.force_route (field "status" (str "claimed") end))))))

abbrev pub claim_checked : Option Cipher → Check String → ℕ → ℕ → Server → Server × Reply
claim_checked cipher (replies r) t u s = (s, r)
claim_checked cipher (goes_on worker) t u s =
    let (jobs', job) = claim worker t u s.jobs in
    (record s { jobs = jobs' }, sends (claim_reply cipher job))

-- The body of /claim is not decrypted.
unfoldable pub claim_job : Option Cipher → Json → ℕ → ℕ → Server → Server × Reply
unfolding check_worker claim encrypt_body
claim_job cipher body t u s =
    claim_checked cipher
      (do fields ← object (some body); check_worker (get_field fields "worker_id" (str "unknown")))
      t u s

-- What /complete reads: the id, the result, the error and the worker's id, in that order.
pub record Completion : Type 0 where
  pub job_id : String
  pub result : Json
  pub error : Json
  pub worker : Json

unfoldable pub read_completion : Fields → Check Completion
unfolding check_target check_error
read_completion body = do
  job_id ← check_target (get_field body "job_id" (str ""))
  error ← check_error (get_field body "error" null)
  goes_on (record {
    job_id = job_id;
    result = get_field body "result" null;
    error = error;
    worker = get_field body "worker_id" (str "unknown");
  })

module _ (fingerprint : String → String) (show : Json → String) where
  -- The reputation moves only by a weight that is not 0.
  abbrev pub rate : Peer → Completion → Reputation → Reputation
  rate peer c r =
      let weight = outcome_weight c.result c.error in
      if magnitude weight == 0
      then r
      else (record_outcome standard r (extract_identity fingerprint show peer c.worker) weight).0

  abbrev pub complete_checked : Peer → Check Completion → ℕ → Server → Server × Reply
  complete_checked peer (replies r) now s = (s, r)
  complete_checked peer (goes_on c) now s =
      let (jobs', done) = complete c.job_id c.result c.error now s.jobs in
      if done
      then (record { jobs = jobs'; reputation = rate peer c s.reputation }, sends ok_body)
      else (record s { jobs = jobs' }, refuses 404)

  unfoldable pub complete_job : Option Cipher → Peer → Json → ℕ → Server → Server × Reply
  unfolding decrypt_body read_completion complete record_outcome extract_identity outcome_weight
  complete_job cipher peer body now s =
      complete_checked peer (do fields ← object (decrypt_body cipher body); read_completion fields)
        now s

abbrev pub heartbeat_checked : Check (String × String) → ℕ → Server → Server × Reply
heartbeat_checked (replies r) now s = (s, r)
heartbeat_checked (goes_on (job_id, worker)) now s =
    let (jobs', alive) = heartbeat job_id worker now s.jobs in
    (record s { jobs = jobs' }, if alive then sends ok_body else refuses 404)

unfoldable pub heartbeat_job : Option Cipher → Json → ℕ → Server → Server × Reply
unfolding decrypt_body check_target check_worker heartbeat
heartbeat_job cipher body now s =
    heartbeat_checked
      (do
        fields ← object (decrypt_body cipher body)
        job_id ← check_target (get_field fields "job_id" (str ""))
        worker ← check_worker (get_field fields "worker_id" (str "unknown"))
        goes_on (job_id, worker))
      now s
