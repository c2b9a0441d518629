-- ===== src/Cache/Eviction.antt =====
-- The eviction of the two caches of persistent_cache.py.
use mathlib.Core.List.Perm
use mathlib.Core.List.{Perm, append-nil}
use vibe_thinker.Prelude.{
  ℕ, zero, suc, ◌≤◌, ◌≡◌, refl, sym, ◌∙◌, ap, Bool, true, false, List, [], ◌∷◌, ◌++◌, arith, ltb,
  Bool-cases, inl, inr, length, length-append, take, drop, All,
}
use vibe_thinker.Prelude.Sort.{insert_by, sorted, IsSortedBy, sorted-IsSortedBy, sorted-Perm}
use vibe_thinker.Cache.Entry.{Entry}
use vibe_thinker.Cache.Entries.{accesses, outlasts, evict}

module _ {A : Type 0} where
  take-drop : (n : ℕ) (xs : List A) → take n xs ++ drop n xs ≡ xs
  take-drop zero xs = refl
  take-drop (suc n) [] = refl
  take-drop (suc n) (x ∷ xs) = ap (◌∷◌ x) (take-drop n xs)

  length-take_le : (n : ℕ) (xs : List A) → length (take n xs) ≤ n
  length-take_le zero xs = omega arith
  length-take_le (suc n) [] = omega arith
  length-take_le (suc n) (x ∷ xs) = omega (arith, length-take_le n xs)

  take-append : (xs ys : List A) → take (length xs) (xs ++ ys) ≡ xs
  take-append [] [] = refl
  take-append [] (y ∷ ys) = refl
  take-append (x ∷ xs) ys = ap (◌∷◌ x) (take-append xs ys)

  module _ (before : A → A → Bool) where
    length-insert_by : (a : A) (xs : List A) → length (insert_by before a xs) ≡ suc (length xs)
    length-insert_by a [] = refl
    length-insert_by a (x ∷ xs) = ground (arith, length-insert_by a xs)

    pub length-sorted : (xs : List A) → length (sorted before xs) ≡ length xs
    unfolding sorted
    length-sorted [] = refl
    length-sorted (x ∷ xs) = length-insert_by x (sorted before xs) ∙ ap suc (length-sorted xs)

    All-drop : (P : A → Type 0) (n : ℕ) (xs : List A) → All P xs → All P (drop n xs)
    All-drop P zero xs h = h
    All-drop P (suc n) [] h = tt
    All-drop P (suc n) (x ∷ xs) h = All-drop P n xs h.1

    -- What stands in front of a cut of a sorted list comes before what stands behind it.
    take_before_drop :
        (n : ℕ) (xs : List A)
        → IsSortedBy before xs
        → All (λ x. All (λ y. before x y ≡ true) (drop n xs)) (take n xs)
    take_before_drop zero xs s = tt
    take_before_drop (suc n) [] s = tt
    take_before_drop (suc n) (x ∷ xs) s =
        (All-drop (λ y. before x y ≡ true) n xs s.0, take_before_drop n xs s.1)

    insert_by-append :
        (a last : A) (xs : List A)
        → before a last ≡ true
        → insert_by before a (xs ++ last ∷ []) ≡ insert_by before a xs ++ last ∷ []
    insert_by-append a last [] h = rw h refl
    insert_by-append a last (x ∷ xs) h = elim (Bool-cases (before a x)) [
      | inl e ↦ rw e refl
      | inr e ↦ rw e (ap (◌∷◌ x) (insert_by-append a last xs h))
    ]

    -- An element that every other one comes before ends up last.
    sorted-append :
        (xs : List A) (last : A)
        → All (λ x. before x last ≡ true) xs
        → sorted before (xs ++ last ∷ []) ≡ sorted before xs ++ last ∷ []
    unfolding sorted
    sorted-append [] last h = refl
    sorted-append (x ∷ xs) last h =
        ap (insert_by before x) (sorted-append xs last h.1)
        ∙ insert_by-append x last (sorted before xs) h.0

module _ (score : Entry → ℕ) where
  outlasts_total : (a b : Entry) → outlasts score a b ≡ false → outlasts score b a ≡ true
  unfolding outlasts
  outlasts_total a b h = ground arith

  outlasts_trans :
      (a b c : Entry)
      → outlasts score a b ≡ true
      → outlasts score b c ≡ true
      → outlasts score a c ≡ true
  unfolding outlasts
  outlasts_trans a b c h k = ground arith

  -- What the eviction leaves of a list of entries.
  pub record Evicted (max_entries : ℕ) (entries kept : List Entry) : Type 0 where
    pub bounded : length kept ≤ max_entries
    pub dropped : List Entry
    pub split : Perm (kept ++ dropped) entries
    pub needed : length entries ≤ max_entries → kept ≡ entries
    pub lesser : All (λ x. All (λ y. outlasts score x y ≡ true) dropped) kept

  All-nil : (kept : List Entry) → All (λ x. All (λ y. outlasts score x y ≡ true) []) kept
  All-nil [] = tt
  All-nil (x ∷ xs) = (tt, All-nil xs)

  pub evict-Evicted :
      (max_entries : ℕ) (entries : List Entry)
      → Evicted max_entries entries (evict score max_entries entries)
  unfolding evict
  evict-Evicted max_entries entries = elim (Bool-cases (ltb max_entries (length entries))) [
    | inr fits ↦ rw fits (record {
      bounded = ground (arith, fits);
      dropped = [];
      split = rw (append-nil entries) Perm.rfl;
      needed = λ h. refl;
      lesser = All-nil entries;
    })
    | inl over ↦
        let xs = sorted (outlasts score) entries in
        rw over (record {
          bounded = length-take_le max_entries xs;
          dropped = drop max_entries xs;
          split = rw (take-drop max_entries xs) (sorted-Perm (outlasts score) entries);
          needed = λ h. ground (arith, over, h);
          lesser =
              take_before_drop (outlasts score) max_entries xs
                (sorted-IsSortedBy (outlasts score) outlasts_total outlasts_trans entries);
        })
  ]

  outlasts-new :
      (new : Entry) (entries : List Entry)
      → accesses new ≡ 0
      → All (λ e. 1 ≤ accesses e) entries
      → All (λ e. outlasts score e new ≡ true) entries
  unfolding outlasts
  outlasts-new new [] z h = tt
  outlasts-new new (e ∷ es) z h = (ground (arith, z, h.0), outlasts-new new es z h.1)

  -- In a full list whose entries have all been read, an entry that has not is the one that goes.
  pub evict-new :
      (new : Entry) (entries : List Entry)
      → accesses new ≡ 0
      → All (λ e. 1 ≤ accesses e) entries
      → evict score (length entries) (entries ++ new ∷ []) ≡ sorted (outlasts score) entries
  unfolding evict
  evict-new new entries z h =
      let xs = sorted (outlasts score) entries in
      let over : ltb (length entries) (length (entries ++ new ∷ [])) ≡ true =
        ground (arith, length-append entries (new ∷ [])) in
      let whole = sorted-append (outlasts score) entries new (outlasts-new new entries z h) in
      rw over (
        ap (take (length entries)) whole
        ∙ ap (λ n. take n (xs ++ new ∷ [])) (sym (length-sorted (outlasts score) entries))
        ∙ take-append xs (new ∷ []))
