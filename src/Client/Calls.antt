-- ===== src/Client/Calls.antt =====
-- The calls of federated_queue.py to its coordinators: publishing, claiming and reporting a job. What
-- a coordinator answers to the `i`-th request of a loop is a parameter.
use vibe_thinker.Prelude.{
  ℕ, suc, String, Bool, true, false, not, List, [], ◌∷◌, Option, none, some, ltb, leb,
  if◌then◌else◌, is_nil, keep,
}
use vibe_thinker.Prelude.Int.{ℤ, pos}
use vibe_thinker.Text.{Text, same_codes}
use vibe_thinker.JobQueue.Job.{Job}
use vibe_thinker.JobQueue.Queue.{Queue}
use vibe_thinker.JobQueue.Queue as JobQueue
use vibe_thinker.Client.Urls.{
  Client, federation_configured, url_order, mark_url_success, warn_fallback,
}

-- The status of the response, none if there is none.
abbrev pub accepted : Option ℕ → Bool
accepted none = false
accepted (some status) = ltb status 400

-- The first URL that accepts the request; `i` requests went before.
unfoldable pub first_accepting : (ℕ → Text → Option ℕ) → ℕ → List Text → Option Text
first_accepting reply i [] = none
first_accepting reply i (u ∷ us) =
    let rest = first_accepting reply (suc i) us in if accepted (reply i u) then some u else rest

-- `_post_to_any_url`
unfoldable pub post_to_any_url : (ℕ → Text → Option ℕ) → List Text → Client → Client × Bool
post_to_any_url reply urls c = elim (first_accepting reply 0 urls) [
  | none ↦ (c, false)
  | some u ↦ (mark_url_success u c, true)
]

-- `_publish_to_federation` with the task that it schedules; `tls` says that the certificates load.
unfoldable pub publish_to_federation : Bool → (ℕ → Text → Option ℕ) → Client → Client
publish_to_federation tls reply c =
    if not (federation_configured c)
    then warn_fallback c
    else if not tls
    then warn_fallback c
    else elim (first_accepting reply 0 (url_order c)) [
      | none ↦ warn_fallback c
      | some u ↦ mark_url_success u (record c { available = some true })
    ]

-- `submit`
unfoldable pub submit :
    Bool
    → (ℕ → Text → Option ℕ)
    → String
    → ℤ
    → Option String
    → Option ℕ
    → String
    → ℕ
    → Client
    → Client × Job
submit tls reply query priority force_route callback fresh now c =
    let (local, job) = JobQueue.submit query priority force_route callback fresh now c.local in
    let c' = record c { local = local } in
    (if federation_configured c then publish_to_federation tls reply c' else c', job)

-- A job of a coordinator; `query` may be missing.
pub record Offer : Type 0 where
  pub job_id : String
  pub query : Option String
  pub priority : Option ℤ
  pub force_route : Option String

-- What comes of POST /claim: nothing that can be read (no response, no JSON, a payload that cannot be
-- decrypted), an error status, no job, or a job.
pub data Answer : Type 0 where
  unreadable refused no_job : Answer
  offers : Offer → Answer

abbrev pub or_zero : Option ℤ → ℤ
or_zero none = pos 0
or_zero (some p) = p

-- The loop over the URLs in one turn of `_claim_loop`: the URL and the job, and the last URL that is
-- marked. An offer without a query is marked before the missing key raises.
unfoldable pub ask :
    (ℕ → Text → Answer) → ℕ → List Text → Client → Client × Option (Text × (Offer × String))
ask answer i [] c = (c, none)
ask answer i (u ∷ us) c = elim (answer i u) [
  | unreadable ↦ ask answer (suc i) us c
  | refused ↦ ask answer (suc i) us c
  | no_job ↦ ask answer (suc i) us c
  | offers offer ↦ elim offer.query [
    | none ↦ ask answer (suc i) us (mark_url_success u c)
    | some query ↦ (mark_url_success u c, some (u, (offer, query)))
  ]
]

-- One turn of `_claim_loop`: a claimed job is submitted to the local queue under a fresh id.
unfoldable pub claim_turn :
    (ℕ → Text → Answer) → String → ℕ → Client → Client × Option (Text × (Offer × String))
claim_turn answer fresh now c =
    if not (federation_configured c)
    then (c, none)
    else (let (c', got) = ask answer 0 (url_order c) c in
        elim got [
          | none ↦ (c', none)
          | some (u, (offer, query)) ↦
              let (local, job) =
                JobQueue.submit query (or_zero offer.priority) offer.force_route none fresh now
                  c'.local in
              (record c' { local = local }, some (u, (offer, query)))
        ])

-- The URLs of `_claim_and_report`: the coordinator that gave the job comes first.
unfoldable pub report_order : Option Text → Client → List Text
report_order none c = url_order c
report_order (some origin) c =
    if is_nil origin
    then url_order c
    else origin ∷ keep (λ u. not (same_codes u origin)) (url_order c)

-- How the wait for the local job ends.
pub data Ending : Type 0 where
  finished : String → Ending
  timed_out : Ending
  failed : String → Ending

-- The keys of POST /complete.
pub record Report : Type 0 where
  pub job_id : String
  pub result : Option String
  pub error : Option String

unfoldable pub report_of : String → Ending → Report
report_of job_id (finished result) = record { job_id = job_id; result = some result; error = none }
report_of job_id timed_out = record {
  job_id = job_id;
  result = none;
  error = some "execution timed out (600s)";
}
report_of job_id (failed error) = record { job_id = job_id; result = none; error = some error }

-- The heartbeat loop: one request for each interval, with `failures` failures in a row so far; the
-- third one ends it. It gives the number of requests.
unfoldable pub heartbeat_loop : List (ℕ → Text → Option ℕ) → ℕ → List Text → Client → Client × ℕ
heartbeat_loop [] failures urls c = (c, 0)
heartbeat_loop (reply ∷ replies) failures urls c =
    let (c', sent) = post_to_any_url reply urls c in
    let (good, n) = heartbeat_loop replies 0 urls c' in
    let (bad, m) = heartbeat_loop replies (suc failures) urls c' in
    if sent then (good, suc n) else if leb 3 (suc failures) then (c', 1) else (bad, suc m)

-- `_claim_and_report`: the heartbeats of the run, and the report of its end.
unfoldable pub claim_and_report :
    List (ℕ → Text → Option ℕ)
    → (Report → ℕ → Text → Option ℕ)
    → Option Text
    → String
    → Ending
    → Client
    → Client × Bool
claim_and_report heartbeats reply origin job_id ending c =
    let urls = report_order origin c in
    let (c', sent) = heartbeat_loop heartbeats 0 urls c in
    post_to_any_url (reply (report_of job_id ending)) urls c'
