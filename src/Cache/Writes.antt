-- ===== src/Cache/Writes.antt =====
-- What `CLRResultCache.insert` leaves in the cache, and what a later `lookup` makes of it.
use vibe_thinker.Prelude.{
  ℕ, ◌-◌, ◌≤◌, ◌≡◌, refl, sym, ◌∙◌, ap, subst, String, List, [], ◌∷◌, ◌++◌, Option, some,
  if◌then◌else◌, Bool-cases, Option-cases, inl, inr, length, All,
}
use vibe_thinker.Prelude.Sort.{sorted}
use vibe_thinker.Cache.Entry.{Vector, Entry}
use vibe_thinker.Cache.Entries.{
  Backend, accesses, outlasts, evict, is_valid_vector, embeddings_matrix,
}
use vibe_thinker.Cache.Results.{ResultCache, autosaved}
use vibe_thinker.Cache.Insert.{Write, entry_of, metadata_of, best_score_of, mirror, insert}
use vibe_thinker.Cache.Eviction.{Evicted, evict-Evicted, evict-new}

module _ {S : Type 0} where
  mirror-store :
      (b : Backend S) (id_of : ℕ → String) (v : Vector) (w : Write) (now : ℕ) (d : ResultCache S)
      → (s : Option S) × (mirror b id_of v w now d ≡ record d { store = s })
  unfolding mirror
  mirror-store b id_of v w now d = elim (Option-cases d.store) [
    | inl absent ↦ (d.store, rw absent refl)
    | inr (s, store) ↦ elim (Bool-cases (is_valid_vector v)) [
      | inr invalid ↦ (d.store, rw (store, invalid) refl)
      | inl valid ↦
          let id = id_of (length d.entries - 1) in
          elim (Option-cases (b.upsert s id v (metadata_of w now))) [
            | inl raises ↦ (d.store, rw (store, valid, raises) refl)
            | inr (s', written) ↦ (some s', rw (store, valid, written) refl)
          ]
    ]
  ]

  autosaved-file :
      (d : ResultCache S) → (f : Option (List Entry)) × (autosaved d ≡ record d { file = f })
  autosaved-file d = elim (Bool-cases d.autosave) [
    | inl saves ↦ (some d.entries, rw saves refl)
    | inr keeps ↦ (d.file, rw keeps refl)
  ]

module _ {S : Type 0} (b : Backend S) (id_of : ℕ → String) (w : Write) (now : ℕ)
    (c : ResultCache S) where
  abbrev pub embedding : Vector
  embedding = if c.has_model then b.encode w.problem else []

  -- The entry that the insert makes.
  abbrev pub new_entry : Entry
  new_entry = entry_of w embedding now

  abbrev pub left : List Entry
  left = evict best_score_of c.max_entries (c.entries ++ new_entry ∷ [])

  pub insert_lem :
      (f : Option (List Entry)) × (s : Option S) × (insert b id_of w now c
        ≡ record c { entries = left; matrix = embeddings_matrix left; file = f; store = s })
  unfolding insert
  insert_lem =
      let written = record c { entries = left; matrix = embeddings_matrix left } in
      let (f, saved) = autosaved-file written in
      let (s, mirrored) = mirror-store b id_of embedding w now (autosaved written) in
      (
        f,
        s,
        mirrored ∙ ap {A = ResultCache S} {B = ResultCache S} (λ d. record d { store = s }) saved,
      )

  -- After an insert the cache holds at most its maximum of entries; without need it drops none; and
  -- whatever it drops was read no more often than any entry that it keeps, and scored no better than
  -- one that was read as often.
  pub insert-Evicted :
      Evicted best_score_of c.max_entries
        (c.entries ++ new_entry ∷ [])
        (insert b id_of w now c).entries
  insert-Evicted =
      let (f, s, e) = insert_lem in
      subst (λ d. Evicted best_score_of c.max_entries (c.entries ++ new_entry ∷ []) d.entries)
        (sym e) (evict-Evicted best_score_of c.max_entries (c.entries ++ new_entry ∷ []))

  -- A full cache whose entries have all been read takes in no new one: each insert leaves it the
  -- entries that it had.
  pub insert-full :
      length c.entries ≡ c.max_entries
      → All (λ e. 1 ≤ accesses e) c.entries
      → (insert b id_of w now c).entries ≡ sorted (outlasts best_score_of) c.entries
  unfolding entry_of
  insert-full full read =
      let (f, s, e) = insert_lem in
      ap (λ d. d.entries) e
      ∙ ap (λ n. evict best_score_of n (c.entries ++ new_entry ∷ [])) (sym full)
      ∙ evict-new best_score_of new_entry c.entries refl read
