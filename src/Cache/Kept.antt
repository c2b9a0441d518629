-- ===== src/Cache/Kept.antt =====
-- The entries of `VerifiedTrajectoryStore` of persistent_cache.py under its list operations.
use vibe_thinker.Prelude.{
  ℕ, zero, suc, ◌≡◌, subst, Bool, true, false, ◌⊎◌, List, [], ◌∷◌, some, arith, ltb, Bool-cases,
  Option-cases, inl, inr, length, set, get_elem?, take, keep, All,
}
use vibe_thinker.Prelude.Sort.{sorted, sorted-All}
use vibe_thinker.Cache.Entry.{Entry, method_of, holds, or_default, is_trustworthy}
use vibe_thinker.Cache.Entries.{evict, outlasts, touch}
use vibe_thinker.Cache.Trajectories.{touch_all}
use vibe_thinker.Cache.Learning.{score_of, is_learned, mem_index, without_indices}

module _ {A : Type 0} (P : A → Type 0) where
  All-set : (xs : List A) (i : ℕ) (v : A) → P v → All P xs → All P (set xs i v)
  All-set [] i v p h = tt
  All-set (x ∷ xs) zero v p h = (p, h.1)
  All-set (x ∷ xs) (suc i) v p h = (h.0, All-set xs i v p h.1)

  pub All-get_elem? : (xs : List A) (i : ℕ) (x : A) → get_elem? xs i ≡ some x → All P xs → P x
  All-get_elem? [] i x e h = absurd (cc e)
  All-get_elem? (y ∷ xs) zero x e h = subst P (ground (arith, e)) h.0
  All-get_elem? (y ∷ xs) (suc i) x e h = All-get_elem? xs i x e h.1

  All-take : (n : ℕ) (xs : List A) → All P xs → All P (take n xs)
  All-take zero xs h = tt
  All-take (suc n) [] h = tt
  All-take (suc n) (x ∷ xs) h = (h.0, All-take n xs h.1)

-- The entry is verified, by a method other than the model's own claims.
abbrev pub IsLearned : Entry → Type 0
IsLearned e = is_learned e ≡ true

-- The entry says that nothing has verified it and that no claim backs it.
abbrev pub IsUnproven : Entry → Type 0
IsUnproven e =
    (method_of e.verification_method ≡ "synthesized")
    × (holds e.verified ≡ false)
    × (or_default e.claim_count 0 ≡ 0)

-- The entry is learned, or an unproven master trajectory, which no lookup trusts.
abbrev pub IsKept : Entry → Type 0
IsKept e =
    IsLearned e ⊎ (IsUnproven e × ((allow_weak : Bool) → is_trustworthy e allow_weak ≡ false))

pub unproven-distrusted :
    (e : Entry) → IsUnproven e → (allow_weak : Bool) → is_trustworthy e allow_weak ≡ false
unfolding is_trustworthy
unproven-distrusted e h allow_weak = ground (arith, h)

-- What every learned entry is, and a use does not change.
pub record IsStable (P : Entry → Type 0) : Type 0 where
  pub learned : (e : Entry) → is_learned e ≡ true → P e
  pub touched : (e : Entry) → P e → P (touch e)

pub IsLearned-IsStable : IsStable IsLearned
IsLearned-IsStable = record { learned = λ e h. h; touched = λ e h. h }

pub IsKept-IsStable : IsStable IsKept
IsKept-IsStable = record {
  learned = λ e h. inl h;
  touched = λ e h. elim h [ inl l ↦ inl l | inr (u, d) ↦ inr (u, unproven-distrusted (touch e) u) ];
}

module _ (P : Entry → Type 0) (stable : IsStable P) where
  pub evict-All : (n : ℕ) (es : List Entry) → All P es → All P (evict score_of n es)
  unfolding evict
  evict-All n es h = elim (Bool-cases (ltb n (length es))) [
    | inr within ↦ rw within h
    | inl over ↦
        rw over
          (All-take P n (sorted (outlasts score_of) es) (sorted-All (outlasts score_of) P es h))
  ]

  pub touch_all-All : (is : List ℕ) (es : List Entry) → All P es → All P (touch_all is es)
  touch_all-All [] es h = h
  touch_all-All (i ∷ is) es h = elim (Option-cases (get_elem? es i)) [
    | inl absent ↦ rw absent (touch_all-All is es h)
    | inr (e, place) ↦ rw place (
        touch_all-All is (set es i (touch e))
          (All-set P es i (touch e) (stable.touched e (All-get_elem? P es i e place h)) h))
  ]

  pub without_indices-All :
      (i : ℕ) (is : List ℕ) (es : List Entry) → All P es → All P (without_indices i is es)
  unfolding without_indices
  without_indices-All i is [] h = tt
  without_indices-All i is (e ∷ es) h = elim (Bool-cases (mem_index i is)) [
    | inl gone ↦ rw gone (without_indices-All (suc i) is es h.1)
    | inr stays ↦ rw stays (h.0, without_indices-All (suc i) is es h.1)
  ]

  pub keep-All : (es : List Entry) → All P (keep is_learned es)
  keep-All [] = tt
  keep-All (e ∷ es) = elim (Bool-cases (is_learned e)) [
    | inl good ↦ rw good (stable.learned e good, keep-All es)
    | inr bad ↦ rw bad (keep-All es)
  ]
