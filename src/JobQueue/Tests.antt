-- ===== src/JobQueue/Tests.antt =====
-- Runs of the job queue of rfsn_job_queue.py on small inputs.
use vibe_thinker.Prelude.{
  ◌≡◌, refl, String, true, not, List, [], ◌∷◌, ◌++◌, map, Option, none, some, arith, keep,
}
use vibe_thinker.Prelude.Int.{ℤ, pos, negsuc}
use vibe_thinker.Prelude.Dict.{get, put}
use vibe_thinker.JobQueue.Job.{JobStatus, Job, new_job}
use vibe_thinker.JobQueue.Persist.{Line, line_of, load_persisted_jobs}
use vibe_thinker.JobQueue.Queue.{
  Queue, new_queue, start, submit, outranks, insert_pending, status, wait_for, returns,
}
use vibe_thinker.JobQueue.Tasks.{
  returned, cancelled_error, Move, starts, dispatches, submits, cancels, advances, cleans, run,
}
use vibe_thinker.JobQueue.Slots.{Slots, run-Slots}
use vibe_thinker.JobQueue.Order.{insert_pending-splits}
use vibe_thinker.JobQueue.Recovery.{restored, persist_all, load-persist_all, submit-start_twice}

abbrev empty : Queue
unfolding new_queue
empty = new_queue 1 true true none

abbrev moves : List Move
moves =
    starts
    ∷ submits "low" (pos 0) none none "a" 1
    ∷ submits "high" (pos 5) none none "b" 2
    ∷ dispatches
    ∷ dispatches
    ∷ advances 0 cancelled_error 3
    ∷ []

abbrev after : Queue
unfolding run
after = run empty moves

-- The job of greater priority runs, and the other one waits for the only slot.
high_first :
    (status after "b" ≡ some JobStatus.running) × (status after "a" ≡ some JobStatus.pending)
unfolding status run get put empty
high_first = (refl, refl)

finished : Queue
unfolding run
finished = run after (
    advances 0 (returned 7) 4
    ∷ cleans 0
    ∷ dispatches
    ∷ cancels "a" 5
    ∷ advances 1 cancelled_error 6
    ∷ [])

-- A job that is cancelled once it has left the pending list does not run.
low_cancelled : (status finished "a" ≡ some JobStatus.cancelled) × (finished.holders ≡ 0)
unfolding finished status run get put empty
low_cancelled = (refl, refl)

high_result : wait_for "b" finished ≡ returns (some 7)
unfolding finished wait_for run get put empty
high_result = refl

run-Slots_example : Slots 1 (run empty moves)
unfolding empty
run-Slots_example =
    run-Slots empty moves (omega arith)
      (record { same = refl; holding = omega arith; in_flight = omega arith })

abbrev job : String → ℤ → Job
unfolding new_job
job id priority = new_job "q" priority none none id 0

abbrev heap : List Job
heap = job "a" (pos 5) ∷ job "b" (pos 2) ∷ job "c" (negsuc 0) ∷ job "d" (pos 2) ∷ []

insert_pending-splits_example :
    insert_pending heap (job "d" (pos 2)) 3 (0 ∷ 1 ∷ 2 ∷ [])
    ≡ keep (λ r. not (outranks heap (job "d" (pos 2)) r)) (0 ∷ 1 ∷ 2 ∷ [])
      ++ 3 ∷ keep (λ r. outranks heap (job "d" (pos 2)) r) (0 ∷ 1 ∷ 2 ∷ [])
unfolding job
insert_pending-splits_example =
    insert_pending-splits heap (job "d" (pos 2)) 3 (0 ∷ 1 ∷ 2 ∷ [])
      (omega arith, (omega arith, (omega arith, tt)))
      ((omega arith, (omega arith, tt)), ((omega arith, tt), (tt, tt)))

splits_run : insert_pending heap (job "d" (pos 2)) 3 (0 ∷ 1 ∷ 2 ∷ []) ≡ 0 ∷ 1 ∷ 3 ∷ 2 ∷ []
unfolding insert_pending job
splits_run = refl

abbrev two : List Job
two = job "a" (pos 5) ∷ job "b" (pos 2) ∷ []

load-persist_all_example : load_persisted_jobs (persist_all two none) ≡ map restored two
unfolding job
load-persist_all_example =
    load-persist_all (job "a" (pos 5)) (job "b" (pos 2) ∷ []) (refl, refl, (refl, refl, tt))

abbrev lines : List (Option Line)
unfolding line_of
lines = some (line_of (job "a" (pos 5))) ∷ some (line_of (job "b" (pos 2))) ∷ []

submit-start_twice_example :
    let q = start (submit "q" (pos 0) none none "x" 1 (new_queue 2 true true none)).0 in
    (q.pending ≡ 0 ∷ 1 ∷ [])
    × (q.heap ≡ new_job "q" (pos 0) none none "x" 1 ∷ new_job "q" (pos 0) none none "x" 1 ∷ [])
    × (get q.jobs "x" ≡ some 1)
submit-start_twice_example = submit-start_twice 2 true "q" (pos 0) none none "x" 1 (λ e. cc e)
