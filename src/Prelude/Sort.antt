-- ===== src/Prelude/Sort.antt =====
-- `list.sort` by a Boolean order: the insertion sort that keeps the order of equals, and what it
-- keeps of the list.
use mathlib.Core.List.Perm
use vibe_thinker.Prelude.Tests.{Bool-cases, if◌then◌else◌}
use vibe_thinker.Prelude.Lists.{All}
use mathlib.Core.Path.{◌≡◌}
use mathlib.Core.Logic.{inl, inr}
use mathlib.Core.Bool.{Bool, true, false}
use mathlib.Core.List.{List, [], ◌∷◌, Perm}

module _ {A : Type 0} (before : A → A → Bool) where
  abbrev pub insert_by : A → List A → List A
  insert_by a [] = a ∷ []
  insert_by a (x ∷ xs) = let rest = insert_by a xs in if before a x then a ∷ x ∷ xs else x ∷ rest

  unfoldable pub sorted : List A → List A
  sorted [] = []
  sorted (x ∷ xs) = insert_by x (sorted xs)

  abbrev pub IsSortedBy : List A → Type 0
  IsSortedBy [] = Unit
  IsSortedBy (x ∷ xs) = All (λ y. before x y ≡ true) xs × IsSortedBy xs

  module _ {κ} (P : A → Type κ) where
    insert_by-All : (a : A) (xs : List A) → P a → All P xs → All P (insert_by a xs)
    insert_by-All a [] p h = (p, tt)
    insert_by-All a (x ∷ xs) p h = elim (Bool-cases (before a x)) [
      | inl e ↦ rw e (p, h)
      | inr e ↦ rw e (h.0, insert_by-All a xs p h.1)
    ]

    pub sorted-All : (xs : List A) → All P xs → All P (sorted xs)
    unfolding sorted
    sorted-All [] h = tt
    sorted-All (x ∷ xs) h = insert_by-All x (sorted xs) h.0 (sorted-All xs h.1)

  insert_by-Perm : (a : A) (xs : List A) → Perm (insert_by a xs) (a ∷ xs)
  insert_by-Perm a [] = Perm.rfl
  insert_by-Perm a (x ∷ xs) = elim (Bool-cases (before a x)) [
    | inl e ↦ rw e Perm.rfl
    | inr e ↦ rw e (Perm.trans (Perm.cons x (insert_by-Perm a xs)) (Perm.swap a x xs))
  ]

  pub sorted-Perm : (xs : List A) → Perm (sorted xs) xs
  unfolding sorted
  sorted-Perm [] = Perm.rfl
  sorted-Perm (x ∷ xs) = Perm.trans (insert_by-Perm x (sorted xs)) (Perm.cons x (sorted-Perm xs))

  module _ (total : (a b : A) → before a b ≡ false → before b a ≡ true)
      (trans : (a b c : A) → before a b ≡ true → before b c ≡ true → before a c ≡ true) where
    pub All-trans :
        (a b : A) (xs : List A)
        → before a b ≡ true
        → All (λ y. before b y ≡ true) xs
        → All (λ y. before a y ≡ true) xs
    All-trans a b [] e h = tt
    All-trans a b (x ∷ xs) e h = (trans a b x e h.0, All-trans a b xs e h.1)

    insert_by-IsSortedBy : (a : A) (xs : List A) → IsSortedBy xs → IsSortedBy (insert_by a xs)
    insert_by-IsSortedBy a [] s = (tt, tt)
    insert_by-IsSortedBy a (x ∷ xs) s = elim (Bool-cases (before a x)) [
      | inl e ↦ rw e ((e, All-trans a x xs e s.0), s)
      | inr e ↦ rw e (
        insert_by-All (λ y. before x y ≡ true) a xs (total a x e) s.0,
        insert_by-IsSortedBy a xs s.1,
      )
    ]

    pub sorted-IsSortedBy : (xs : List A) → IsSortedBy (sorted xs)
    unfolding sorted
    sorted-IsSortedBy [] = tt
    sorted-IsSortedBy (x ∷ xs) = insert_by-IsSortedBy x (sorted xs) (sorted-IsSortedBy xs)
