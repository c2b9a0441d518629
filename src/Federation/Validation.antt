-- ===== src/Federation/Validation.antt =====
-- What the request handlers let into the store, and what a replayed completion does.
use vibe_thinker.Prelude.{
  ℕ, ◌≤◌, ◌≡◌, refl, sym, subst, ◌≢◌, String, true, false, Option, some, arith, eq_iff, ◌=s◌,
  Bool-cases, ltb, inl, inr,
}
use vibe_thinker.Prelude.Int.{pos}
use vibe_thinker.Prelude.Dict.{get, Items, Items-put}
use vibe_thinker.Json.{Json, null, bool, int, str, obj, Fields, get_field, text_len}
use vibe_thinker.Federation.Job.{FederatedJob, is_terminal}
use vibe_thinker.Federation.State.{Jobs, Request, new_job, submit, complete}
use vibe_thinker.Federation.Identity.{Peer}
use vibe_thinker.Federation.Server.{
  Server, Check, goes_on, replies, ◌>>=◌, object, max_query_len, max_priority, magnitude,
  check_query, check_job_id, check_priority, check_target, check_error, Cipher, decrypt_body,
  read_request, submit_checked, submit_job, Completion, read_completion, complete_checked,
  complete_job,
}

-- What validation promises of a stored job.
pub record IsValid (k : String) (j : FederatedJob) : Type 0 where
  pub asked : j.query ≢ ""
  pub short : text_len j.query ≤ 10000
  pub ranked : magnitude j.priority ≤ 1000

-- A postcondition on what a check goes on with.
abbrev Ensures : {A : Type 0} → (A → Type 0) → Check A → Type 0
Ensures P (goes_on a) = P a
Ensures P (replies r) = Unit

Ensures-bind :
    {A B : Type 0} (P : A → Type 0) (Q : B → Type 0) (m : Check A) (f : A → Check B)
    → Ensures P m
    → ((a : A) → P a → Ensures Q (f a))
    → Ensures Q (m >>= f)
Ensures-bind P Q (goes_on a) f h g = g a h
Ensures-bind P Q (replies r) f h g = tt

Ensures-any : {A : Type 0} (m : Check A) → Ensures (λ a. Unit {0}) m
Ensures-any (goes_on a) = tt
Ensures-any (replies r) = tt

abbrev IsQuery : String → Type 0
IsQuery q = (q ≢ "") × (text_len q ≤ 10000)

check_query-IsQuery : (v : Json) → Ensures IsQuery (check_query v)
unfolding check_query
check_query-IsQuery (str q) = elim (Bool-cases (q =s "")) [
  | inl e ↦ rw e tt
  | inr e ↦ rw e (elim (Bool-cases (ltb max_query_len (text_len q))) [
    | inl long ↦ rw long tt
    | inr short ↦ rw short (ground (arith, eq_iff q ""), ground arith)
  ])
]
check_query-IsQuery _ = tt

check_priority-le : (v : Json) → Ensures (λ z. magnitude z ≤ 1000) (check_priority v)
unfolding check_priority
check_priority-le (int z) = elim (Bool-cases (ltb max_priority (magnitude z))) [
  | inl big ↦ rw big tt
  | inr small ↦ rw small (ground arith)
]
check_priority-le (bool true) = omega arith
check_priority-le (bool false) = omega arith
check_priority-le _ = tt

abbrev IsRequest : Request → Type 0
IsRequest r = (r.query ≢ "") × (text_len r.query ≤ 10000) × (magnitude r.priority ≤ 1000)

read_request-IsRequest : (body : Fields) → Ensures IsRequest (read_request body)
unfolding read_request
read_request-IsRequest body =
    Ensures-bind IsQuery IsRequest (check_query (get_field body "query" (str ""))) _
      (check_query-IsQuery (get_field body "query" (str "")))
      λ query good.
        Ensures-bind (λ a. Unit {0}) IsRequest (check_job_id (get_field body "job_id" (str ""))) _
          (Ensures-any _)
          λ job_id _.
            Ensures-bind (λ z. magnitude z ≤ 1000) IsRequest
              (check_priority (get_field body "priority" (int (pos 0)))) _
              (check_priority-le (get_field body "priority" (int (pos 0))))
              λ priority small. (good.0, good.1, small)

submit_checked-IsValid :
    (m : Check Request) (fresh : String) (now : ℕ) (s : Server)
    → Ensures IsRequest m
    → Items IsValid s.jobs
    → Items IsValid (submit_checked m fresh now s).0.jobs
unfolding submit
submit_checked-IsValid (replies r) fresh now s h v = v
submit_checked-IsValid (goes_on r) fresh now s h v =
    Items-put IsValid s.jobs (new_job r fresh now).job_id (new_job r fresh now) v
      (record { asked = h.0; short = h.1; ranked = h.2 })

-- Whatever is posted to /submit, sealed or not, every job of the store still has a query of 1 to
-- 10000 characters and a priority from -1000 to 1000.
pub submit_job-IsValid :
    (cipher : Option Cipher) (body : Json) (fresh : String) (now : ℕ) (s : Server)
    → Items IsValid s.jobs
    → Items IsValid (submit_job cipher body fresh now s).0.jobs
unfolding submit_job
submit_job-IsValid cipher body fresh now s v =
    submit_checked-IsValid _ fresh now s
      (Ensures-bind (λ f. Unit {0}) IsRequest (object (decrypt_body cipher body)) _ (Ensures-any _)
        (λ fields _. read_request-IsRequest fields))
      v

check_target-eq : (v : Json) (k : String) → v ≡ str k → Ensures (λ i. i ≡ k) (check_target v)
unfolding check_target
check_target-eq v k e =
    rw e (elim (Bool-cases (k =s "")) [ inl empty ↦ rw empty tt | inr given ↦ rw given refl ])

read_completion-eq :
    (body : Fields) (k : String)
    → get_field body "job_id" (str "") ≡ str k
    → Ensures (λ c. c.job_id ≡ k) (read_completion body)
unfolding read_completion
read_completion-eq body k e =
    Ensures-bind (λ i. i ≡ k) (λ c. c.job_id ≡ k) (check_target (get_field body "job_id" (str "")))
      _ (check_target-eq (get_field body "job_id" (str "")) k e)
      λ job_id same.
        Ensures-bind (λ a. Unit {0}) (λ c. c.job_id ≡ k) (check_error (get_field body "error" null))
          _ (Ensures-any (check_error (get_field body "error" null))) λ err _. same

complete_over :
    (k : String) (result err : Json) (now : ℕ) (jobs : Jobs) (j : FederatedJob)
    → get jobs k ≡ some j
    → is_terminal j.status ≡ true
    → complete k result err now jobs ≡ (jobs, false)
unfolding complete
complete_over k result err now jobs j found over = rw (found, complete) (rw over)

module _ (fingerprint : String → String) (show : Json → String) where
  complete_checked_over :
      (peer : Peer) (m : Check Completion) (now : ℕ) (s : Server) (k : String) (j : FederatedJob)
      → Ensures (λ c. c.job_id ≡ k) m
      → get s.jobs k ≡ some j
      → is_terminal j.status ≡ true
      → (complete_checked fingerprint show peer m now s).0 ≡ s
  complete_checked_over peer (replies r) now s k j same found over = refl
  complete_checked_over peer (goes_on c) now s k j same found over = rw (
      complete_over c.job_id c.result c.error now s.jobs j
        (subst (λ i. get s.jobs i ≡ some j) (sym same) found) over)

  -- A completion of a job that is done or in error already, whatever it reports and whoever sends
  -- it, changes neither the store nor any reputation.
  pub complete_job-replay :
      (cipher : Option Cipher) (peer : Peer) (body : Json) (fields : Fields) (now : ℕ) (s : Server)
      (k : String) (j : FederatedJob)
      → decrypt_body cipher body ≡ some (obj fields)
      → get_field fields "job_id" (str "") ≡ str k
      → get s.jobs k ≡ some j
      → is_terminal j.status ≡ true
      → (complete_job fingerprint show cipher peer body now s).0 ≡ s
  unfolding complete_job
  complete_job-replay cipher peer body fields now s k j opened target found over = rw opened (
      complete_checked_over peer (read_completion fields) now s k j
        (read_completion-eq fields k target) found over)
