-- ===== src/Federation/Sorting.antt =====
-- The order in which `claim` sorts the pending jobs, and the head of the sorted list.
use vibe_thinker.Prelude.{
  ◌≤◌, ◌≡◌, refl, subst, inl, inr, true, false, List, [], ◌∷◌, arith, All, Bool-cases,
}
use vibe_thinker.Prelude.Int.{◌≤ℤ◌}
use vibe_thinker.Federation.Job.{FederatedJob}
use vibe_thinker.Federation.State.{comes_first, insert_job, sort_jobs}

-- `a` has at least the priority of `b`, and at the same priority was created no later.
pub record Before (a b : FederatedJob) : Type 0 where
  pub priority : b.priority ≤ℤ a.priority
  pub created : a.priority ≤ℤ b.priority → a.created_at ≤ b.created_at

pub comes_first→Before : (a b : FederatedJob) → comes_first a b ≡ true → Before a b
unfolding comes_first
comes_first→Before a b h = ground arith

comes_first_total : (a b : FederatedJob) → comes_first a b ≡ false → comes_first b a ≡ true
unfolding comes_first
comes_first_total a b h = ground arith

comes_first_trans :
    (a b c : FederatedJob)
    → comes_first a b ≡ true
    → comes_first b c ≡ true
    → comes_first a c ≡ true
unfolding comes_first
comes_first_trans a b c h k = ground arith

comes_first_refl : (a : FederatedJob) → comes_first a a ≡ true
unfolding comes_first
comes_first_refl a = ground arith

abbrev First : FederatedJob → List FederatedJob → Type 0
First j = All (λ x. comes_first j x ≡ true)

abbrev IsSorted : List FederatedJob → Type 0
IsSorted [] = Unit
IsSorted (x ∷ xs) = First x xs × IsSorted xs

First-trans :
    (a b : FederatedJob) (xs : List FederatedJob) → comes_first a b ≡ true → First b xs → First a xs
First-trans a b [] h f = tt
First-trans a b (x ∷ xs) h f = (comes_first_trans a b x h f.0, First-trans a b xs h f.1)

module _ {κ} (P : FederatedJob → Type κ) where
  All-insert :
      (j : FederatedJob) (xs : List FederatedJob) → P j → All P xs → All P (insert_job j xs)
  unfolding insert_job
  All-insert j [] p h = (p, tt)
  All-insert j (x ∷ xs) p h = elim (Bool-cases (comes_first j x)) [
    | inl before ↦ rw before (p, h)
    | inr after ↦ rw after (h.0, All-insert j xs p h.1)
  ]

  All-of_insert :
      (j : FederatedJob) (xs : List FederatedJob) → All P (insert_job j xs) → P j × All P xs
  unfolding insert_job
  All-of_insert j [] h = h
  All-of_insert j (x ∷ xs) h = elim (Bool-cases (comes_first j x)) [
    | inl before ↦ (rw before at h)
    | inr after ↦
        let g : All P (x ∷ insert_job j xs) = (rw after at h) in
        let (p, rest) = All-of_insert j xs g.1 in (p, (g.0, rest))
  ]

  pub All-sort : (xs : List FederatedJob) → All P xs → All P (sort_jobs xs)
  unfolding sort_jobs
  All-sort [] h = tt
  All-sort (x ∷ xs) h = All-insert x (sort_jobs xs) h.0 (All-sort xs h.1)

  pub All-of_sort : (xs : List FederatedJob) → All P (sort_jobs xs) → All P xs
  unfolding sort_jobs
  All-of_sort [] h = tt
  All-of_sort (x ∷ xs) h =
      let (p, rest) = All-of_insert x (sort_jobs xs) h in (p, All-of_sort xs rest)

insert-IsSorted :
    (j : FederatedJob) (xs : List FederatedJob) → IsSorted xs → IsSorted (insert_job j xs)
unfolding insert_job
insert-IsSorted j [] s = (tt, tt)
insert-IsSorted j (x ∷ xs) s = elim (Bool-cases (comes_first j x)) [
  | inl before ↦ rw before ((before, First-trans j x xs before s.0), s)
  | inr after ↦ rw after (
    All-insert (λ y. comes_first x y ≡ true) j xs (comes_first_total j x after) s.0,
    insert-IsSorted j xs s.1,
  )
]

sort-IsSorted : (xs : List FederatedJob) → IsSorted (sort_jobs xs)
unfolding sort_jobs
sort-IsSorted [] = tt
sort-IsSorted (x ∷ xs) = insert-IsSorted x (sort_jobs xs) (sort-IsSorted xs)

-- The head of the sorted list comes before every job of the list.
pub sort_head :
    (xs : List FederatedJob) {j : FederatedJob} {rest : List FederatedJob}
    → sort_jobs xs ≡ j ∷ rest
    → All (λ x. comes_first j x ≡ true) xs
sort_head xs {j} e =
    All-of_sort (λ x. comes_first j x ≡ true) xs
      (rw e (comes_first_refl j, (subst IsSorted e (sort-IsSorted xs)).0))

sort-ne-nil : (j : FederatedJob) (xs : List FederatedJob) → insert_job j xs ≡ [] → ⊥
unfolding insert_job
sort-ne-nil j [] e = cc
sort-ne-nil j (x ∷ xs) e = ground arith

-- Sorting gives the empty list only from the empty list.
pub sort-eq-nil : (xs : List FederatedJob) → sort_jobs xs ≡ [] → xs ≡ []
unfolding sort_jobs
sort-eq-nil [] e = refl
sort-eq-nil (x ∷ xs) e = absurd (sort-ne-nil x (sort_jobs xs) e)
