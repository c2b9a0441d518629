-- ===== src/Cache/Recency.antt =====
-- What a put of `PersistentRouteCache` of persistent_cache.py leaves.
use vibe_thinker.Prelude.{
  ℕ, suc, ◌≤◌, ◌≡◌, refl, sym, subst, ◌∙◌, ◌⊎◌, Option-cases, length-append, String, true, false,
  List, [], ◌∷◌, ◌++◌, none, some, arith, leb, if◌then◌else◌, Bool-cases, inl, inr, length,
}
use vibe_thinker.Text.{Text, same_codes, same_codes-eq, same_codes_refl}
use vibe_thinker.Cache.Routes.{normalize, find, delete, pop_first, put_item}

module _ {ℓ} {V : Type ℓ} where
  length-delete_le : (k : Text) (items : List (Text × V)) → length (delete k items) ≤ length items
  length-delete_le k [] = omega arith
  length-delete_le k ((j, w) ∷ items) = ground (arith, length-delete_le k items)

  length-delete :
      (k : Text) (v : V) (items : List (Text × V))
      → find k items ≡ some v
      → suc (length (delete k items)) ≤ length items
  length-delete k v [] h = absurd (cc h)
  length-delete k v ((j, w) ∷ items) h = elim (Bool-cases (same_codes j k)) [
    | inl same ↦ rw same (omega (arith, length-delete_le k items))
    | inr other ↦ rw other (omega (arith, length-delete k v items (rw other at h)))
  ]

  find-append :
      (k : Text) (v : V) (items : List (Text × V))
      → find k items ≡ none
      → find k (items ++ (k, v) ∷ []) ≡ some v
  find-append k v [] h = rw (same_codes_refl k) refl
  find-append k v ((j, w) ∷ items) h = elim (Bool-cases (same_codes j k)) [
    | inl same ↦ absurd (cc (rw same at h))
    | inr other ↦ rw other (find-append k v items (rw other at h))
  ]

  find-append_other :
      (j k : Text) (v : V) (items : List (Text × V))
      → same_codes k j ≡ false
      → find j (items ++ (k, v) ∷ []) ≡ find j items
  find-append_other j k v [] h = rw h refl
  find-append_other j k v ((i, w) ∷ items) h = rw (find-append_other j k v items h) refl

  find-delete : (k : Text) (items : List (Text × V)) → find k (delete k items) ≡ none
  find-delete k [] = refl
  find-delete k ((j, w) ∷ items) = elim (Bool-cases (same_codes j k)) [
    | inl same ↦ rw same (find-delete k items)
    | inr other ↦ rw (other, other) (find-delete k items)
  ]

  find-delete_other :
      (j k : Text) (items : List (Text × V))
      → same_codes k j ≡ false
      → find j (delete k items) ≡ find j items
  find-delete_other j k [] h = refl
  find-delete_other j k ((i, w) ∷ items) h = elim (Bool-cases (same_codes i k)) [
    | inl same ↦
        let off : same_codes i j ≡ false =
          subst (λ x. same_codes x j ≡ false) (sym (same_codes-eq i k same)) h in
        rw (same, off) (find-delete_other j k items h)
    | inr other ↦ rw (other, find-delete_other j k items h) refl
  ]

  find-tail :
      (k i : Text) (w : V) (items : List (Text × V))
      → find k ((i, w) ∷ items) ≡ none
      → find k items ≡ none
  find-tail k i w items h = elim (Bool-cases (same_codes i k)) [
    | inl same ↦ absurd (cc (rw same at h))
    | inr other ↦ (rw other at h)
  ]

  -- The key is that of the first item, which leaves at capacity.
  abbrev pub IsEvicted : ℕ → Text → List (Text × V) → Type 0
  IsEvicted cache_size j [] = ⊥
  IsEvicted cache_size j ((i, w) ∷ items) =
      (same_codes i j ≡ true) × (cache_size ≤ suc (length items))

  -- What a put leaves: the value at its key, the bound, and every other key but the evicted one.
  pub record Put (cache_size : ℕ) (k : Text) (v : V) (items items' : List (Text × V)) : Type ℓ where
    pub bounded : length items' ≤ cache_size
    pub found : find k items' ≡ some v
    pub others :
        (j : Text)
        → same_codes k j ≡ false
        → (find j items' ≡ find j items) ⊎ IsEvicted cache_size j items

  absent-Put :
      (cache_size : ℕ) (k : Text) (v : V) (items : List (Text × V))
      → 1 ≤ cache_size
      → length items ≤ cache_size
      → find k items ≡ none
      → (items' : List (Text × V)) × ((if leb cache_size (length items)
            then elim (pop_first items) [ none ↦ none | some rest ↦ some (rest ++ (k, v) ∷ []) ]
            else some (items ++ (k, v) ∷ []))
          ≡ some items')
        × Put cache_size k v items items'
  absent-Put cache_size k v [] one room h =
      let vacant : leb cache_size 0 ≡ false = ground (arith, one) in
      rw vacant (
        (k, v) ∷ [],
        refl,
        record {
          bounded = one;
          found = find-append k v [] refl;
          others = λ j off. inl (find-append_other j k v [] off);
        },
      )
  absent-Put cache_size k v ((i, w) ∷ items) one room h =
      elim (Bool-cases (leb cache_size (suc (length items)))) [
        | inr vacant ↦ rw vacant (
          (i, w) ∷ items ++ (k, v) ∷ [],
          refl,
          record {
            bounded = ground (arith, length-append items ((k, v) ∷ []), vacant);
            found = find-append k v ((i, w) ∷ items) h;
            others = λ j off. inl (find-append_other j k v ((i, w) ∷ items) off);
          },
        )
        | inl full ↦ rw full (
          items ++ (k, v) ∷ [],
          refl,
          record {
            bounded = omega (arith, length-append items ((k, v) ∷ []), room);
            found = find-append k v items (find-tail k i w items h);
            others = λ j off. elim (Bool-cases (same_codes i j)) [
              | inl first ↦ inr (first, ground (arith, full))
              | inr other ↦ inl (rw other (find-append_other j k v items off))
            ];
          },
        )
      ]

  -- With a capacity of at least one and no more items than that, a put succeeds, keeps the bound, and
  -- is read back; every other key is read as before, but for the first one of a full cache.
  pub put_item-Put :
      (cache_size : ℕ) (key : String) (v : V) (items : List (Text × V))
      → 1 ≤ cache_size
      → length items ≤ cache_size
      → (items' : List (Text × V)) × (put_item cache_size key v items ≡ some items')
        × Put cache_size (normalize key) v items items'
  unfolding put_item
  put_item-Put cache_size key v items one room =
      let k = normalize key in
      elim (Option-cases (find k items)) [
        | inl absent ↦ rw (put_item, absent) (absent-Put cache_size k v items one room absent)
        | inr (w, there) ↦
            rw (put_item, there)
              (
                delete k items ++ (k, v) ∷ [],
                refl,
                record {
                  bounded = omega (
                    arith,
                    length-append (delete k items) ((k, v) ∷ []),
                    length-delete k w items there,
                    room,
                  );
                  found = find-append k v (delete k items) (find-delete k items);
                  others = λ j h.
                      inl (
                        find-append_other j k v (delete k items) h ∙ find-delete_other j k items h);
                },
              )
      ]
