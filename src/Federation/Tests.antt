-- ===== src/Federation/Tests.antt =====
-- Runs of the coordinator on small inputs, and the theorems at them.
use vibe_thinker.Prelude.{◌≡◌, refl, ◌≢◌, String, List, [], ◌∷◌, none, some, arith}
use vibe_thinker.Prelude.Int.{pos, negsuc, ◌≤ℤ◌, ◌+ℤ◌, ◌*ℤ◌}
use vibe_thinker.Prelude.Dict.{get, put, Items}
use vibe_thinker.Json.{Json, null, int, str, obj, end, field, truthy, get_field, has_field}
use vibe_thinker.Federation.Job.{pending, claimed, done, FederatedJob}
use vibe_thinker.Federation.State.{
  Jobs, Request, new_job, claim_job as mark, claim, Call, submits, claims, completes, reaps, step,
  run,
}
use vibe_thinker.Federation.Lifecycle.{WellFormed}
use vibe_thinker.Federation.Claim.{Grant, claim_grants, claim_progress}
use vibe_thinker.Federation.Traces.{run-WellFormed, terminal_persists}
use vibe_thinker.Federation.Lease.{claims_disjoint}
use vibe_thinker.Federation.Reputation.{
  standard, empty, record_outcome, get_score, record_outcome_lem,
}
use vibe_thinker.Federation.Identity.{subject_name, extract_identity}
use vibe_thinker.Federation.Server.{Server, encrypt_body, decrypt_body, submit_job, complete_job}
use vibe_thinker.Federation.Validation.{IsValid, submit_job-IsValid}

program : Unit {0}
unfolding run extract_identity encrypt_body decrypt_body submit_job complete_job get put get_field
    has_field truthy ◌+ℤ◌ ◌*ℤ◌
program = tt

abbrev low : Request
low = record {
  job_id = "a";
  query = "q";
  priority = pos 1;
  force_route = null;
  submitted_by = str "";
}

abbrev high : Request
high = record low { job_id = "b"; priority = pos 5 }

abbrev opening : List Call
opening = submits low "x" 10 ∷ submits high "y" 11 ∷ []

-- Job "a" waits since 10, job "b" with more priority since 11.
abbrev two : Jobs
two = run [] opening

empty-WellFormed : WellFormed []
empty-WellFormed = record { distinct = tt; consistent = tt }

two-WellFormed : WellFormed two
two-WellFormed = run-WellFormed [] opening empty-WellFormed

run-WellFormed_example : WellFormed (run two (claims "w" 20 20 ∷ completes "b" null null 30 ∷ []))
run-WellFormed_example =
    run-WellFormed two (claims "w" 20 20 ∷ completes "b" null null 30 ∷ []) two-WellFormed

abbrev waiting : FederatedJob
waiting = new_job high "y" 11

abbrev granted : FederatedJob
granted = mark waiting "w" 20 20

first_grant : (claim "w" 20 20 two).1 ≡ some granted
unfolding program
first_grant = refl

claim_grants_example : Grant "w" 20 20 two (claim "w" 20 20 two).0 granted
claim_grants_example = claim_grants "w" 20 20 two granted two-WellFormed first_grant

two_waiting : get two "b" ≡ some waiting
unfolding program
two_waiting = refl

waiting_idle : waiting.status ≡ pending
unfolding program
waiting_idle = refl

claim_progress_example : (c : FederatedJob) × ((claim "v" 21 21 two).1 ≡ some c)
claim_progress_example = claim_progress "v" 21 21 two "b" waiting two_waiting waiting_idle

abbrev finished : Jobs
finished = run two (completes "b" null null 30 ∷ [])

abbrev answered : FederatedJob
answered = record waiting { status = done; completed_at = some 30 }

finished-WellFormed : WellFormed finished
finished-WellFormed = run-WellFormed two (completes "b" null null 30 ∷ []) two-WellFormed

answered_twice : get finished "b" ≡ some answered
unfolding program
answered_twice = refl

abbrev later : List Call
later = claims "w" 40 40 ∷ completes "b" null (str "late") 50 ∷ reaps 900 180 ∷ []

terminal_persists_example : get (run finished later) "b" ≡ some answered
terminal_persists_example =
    terminal_persists finished later "b" answered finished-WellFormed answered_twice refl
      (refl, (refl, (refl, tt)))

granted_id : granted.job_id ≡ "b"
unfolding program
granted_id = refl

abbrev quiet : List Call
quiet = claims "v" 21 21 ∷ completes "a" null null 22 ∷ reaps 100 180 ∷ []

abbrev second : FederatedJob
second = mark (new_job low "x" 10) "v" 30 30

claims_disjoint_example : second.job_id ≢ granted.job_id
unfolding program
claims_disjoint_example =
    claims_disjoint "w" "v" 20 19 30 30 two granted second (reaps 100 180 ∷ []) two-WellFormed
      first_grant (omega arith, tt) refl

abbrev busy : Jobs
busy = (claim "w" 20 20 two).0

busy-WellFormed : WellFormed busy
unfolding step run
busy-WellFormed = run-WellFormed two (claims "w" 20 20 ∷ []) two-WellFormed

second_grant : get busy "b" ≡ some granted
unfolding program
second_grant = refl

granted_facts : (granted.status ≡ claimed) × (granted.heartbeat_at ≡ some 20)
unfolding program
granted_facts = (refl, refl)

record_outcome_lem_example :
    let (r', new) = record_outcome standard empty "cn:n" (negsuc 1) in
    (pos 0 ≤ℤ new) × (new ≤ℤ pos 10) × (get_score standard r' "cn:n" ≡ new)
record_outcome_lem_example = record_outcome_lem standard empty "cn:n" "cn:n" (negsuc 1)

abbrev node : List (List (List String))
node = (("CommonName" ∷ "node-A" ∷ []) ∷ []) ∷ []

node_name : subject_name node ≡ some "node-A"
unfolding program
node_name = refl

abbrev fresh_server : Server
fresh_server = record { jobs = []; reputation = empty }

abbrev post : Json
post = obj (field "query" (str "2+2") (field "priority" (int (pos 3)) end))

submit_job-IsValid_example : Items IsValid (submit_job none post "f" 5 fresh_server).0.jobs
submit_job-IsValid_example = submit_job-IsValid none post "f" 5 fresh_server tt
