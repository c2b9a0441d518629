-- ===== src/JobQueue/Order.antt =====
-- The order of the pending jobs: by priority, and in the order of submission within a priority.
use vibe_thinker.Prelude.{
  ℕ, zero, suc, ◌≤◌, ◌≡◌, refl, ap, Bool, true, false, not, List, [], ◌∷◌, ◌++◌, none, some, arith,
  keep, length, get_elem?, All, Bool-cases, inl, inr,
}
use vibe_thinker.Prelude.Int.{ℤ, pos, ◌≤ℤ◌, ltb_ℤ}
use vibe_thinker.JobQueue.Job.{Job}
use vibe_thinker.JobQueue.Queue.{outranks, insert_pending}

-- The priority of the job that a reference stands for.
abbrev pub rank : List Job → ℕ → ℤ
rank heap r = elim (get_elem? heap r) [ none ↦ pos 0 | some job ↦ job.priority ]

-- No job of the list outranks an earlier one.
abbrev pub IsRanked : List Job → List ℕ → Type 0
IsRanked heap [] = Unit
IsRanked heap (r ∷ rs) = All (λ s. rank heap s ≤ℤ rank heap r) rs × IsRanked heap rs

-- The reference stands for a job.
abbrev pub Live : List Job → ℕ → Type 0
Live heap r = suc r ≤ length heap

get_elem?-some :
    (heap : List Job) (r : ℕ) → Live heap r → (job : Job) × (get_elem? heap r ≡ some job)
get_elem?-some [] r h = absurd (omega arith)
get_elem?-some (x ∷ xs) zero h = (x, refl)
get_elem?-some (x ∷ xs) (suc r) h = get_elem?-some xs r (omega arith)

outranks-rank :
    (heap : List Job) (job : Job) (r : ℕ)
    → Live heap r
    → outranks heap job r ≡ ltb_ℤ (rank heap r) job.priority
unfolding outranks
outranks-rank heap job r h = let (x, e) = get_elem?-some heap r h in ground (arith, e)

keep-All :
    {A : Type 0} (test : A → Bool) (xs : List A) → All (λ x. test x ≡ true) xs → keep test xs ≡ xs
keep-All test [] h = refl
keep-All test (x ∷ xs) h = rw h.0 (ap (◌∷◌ x) (keep-All test xs h.1))

keep-All_not :
    {A : Type 0} (test : A → Bool) (xs : List A) → All (λ x. test x ≡ false) xs → keep test xs ≡ []
keep-All_not test [] h = refl
keep-All_not test (x ∷ xs) h = rw h.0 (keep-All_not test xs h.1)

-- Behind a job that the new one outranks stand only such jobs.
outranked_rest :
    (heap : List Job) (job : Job) (r : ℕ) (rs : List ℕ)
    → Live heap r
    → All (Live heap) rs
    → outranks heap job r ≡ true
    → All (λ s. rank heap s ≤ℤ rank heap r) rs
    → All (λ s. outranks heap job s ≡ true) rs
outranked_rest heap job r [] l ls h ranked = tt
outranked_rest heap job r (s ∷ rs) l ls h ranked = (
  ground (arith, outranks-rank heap job r l, outranks-rank heap job s ls.0, ranked.0),
  outranked_rest heap job r rs l ls.1 h ranked.1,
)

not-All :
    {A : Type 0} (test : A → Bool) (xs : List A)
    → All (λ x. test x ≡ true) xs
    → All (λ x. not (test x) ≡ false) xs
not-All test [] h = tt
not-All test (x ∷ xs) h = (ap not h.0, not-All test xs h.1)

-- A new job stands behind every pending job of at least its priority and before every one of less;
-- the others keep their order.
pub insert_pending-splits :
    (heap : List Job) (job : Job) (new : ℕ) (rs : List ℕ)
    → All (Live heap) rs
    → IsRanked heap rs
    → insert_pending heap job new rs
      ≡ keep (λ r. not (outranks heap job r)) rs ++ new ∷ keep (λ r. outranks heap job r) rs
unfolding insert_pending
insert_pending-splits heap job new [] live ranked = refl
insert_pending-splits heap job new (r ∷ rs) live ranked = elim (Bool-cases (outranks heap job r)) [
  | inr behind ↦ rw behind (ap (◌∷◌ r) (insert_pending-splits heap job new rs live.1 ranked.1))
  | inl before ↦
      let rest = outranked_rest heap job r rs live.0 live.1 before ranked.0 in
      rw before (
        rw
          (
            keep-All_not (λ s. not (outranks heap job s)) rs (not-All (outranks heap job) rs rest),
            keep-All (λ s. outranks heap job s) rs rest,
          )
          refl)
]
