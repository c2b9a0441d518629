-- ===== src/Cache/Learned.antt =====
-- What `VerifiedTrajectoryStore` of persistent_cache.py holds after any calls.
use vibe_thinker.Prelude.{
  All-append, ℕ, ◌≡◌, refl, ap, subst, sym, String, Bool, true, false, not, ◌&&◌, List, [], ◌∷◌,
  ◌++◌, Option, none, some, arith, ◌=s◌, Bool-cases, Option-cases, inl, inr, All, if_both, is_nil,
}
use vibe_thinker.Cache.Entry.{Vector, Entry, self_claims_only, is_blank, is_bad}
use vibe_thinker.Cache.Entries.{Backend, evict}
use vibe_thinker.Cache.Trajectories.{Trajectories, Gathered, after_gather, retrieve, gather_local}
use vibe_thinker.Cache.Learning.{
  score_of, master_entry, with_entries, append_entry, mirror_learned, learned_metadata, store,
  store_master, store_synthesized, store_synthesized_verified, remove_entries, clear, load,
}
use vibe_thinker.Cache.Kept.{
  IsLearned, IsKept, unproven-distrusted, IsStable, IsLearned-IsStable, IsKept-IsStable, evict-All,
  touch_all-All, without_indices-All, keep-All,
}

-- The calls of the store; `proves` is `store_synthesized_verified`,
-- `synthesizes` is `store_synthesized`, `reloads` a new store on a file.
pub data Call : Type 0 where
  retrieves : String → Option String → Call
  stores :
      String → String → ℕ → String → String → String → Option (List (String × String)) → ℕ → Call
  proves : String → String → ℕ → String → ℕ → List String → ℕ → Call
  synthesizes : String → String → String → ℕ → List String → ℕ → Call
  removes : List ℕ → Call
  clears : Call
  reloads : Option (List Entry) → Call

abbrev pub is_synthesis : Call → Bool
is_synthesis (synthesizes query answer task_type count queries now) = true
is_synthesis x = false

abbrev pub or_same : {S : Type 0} → Option (Trajectories S) → Trajectories S → Trajectories S
or_same none t = t
or_same (some t') t = t'

module _ {S : Type 0} (b : Backend S) (id_of : ℕ → String) where
  -- A call that raises leaves the store as it was.
  abbrev pub call : Call → Trajectories S → Trajectories S
  call (retrieves query task_type) t = (retrieve b query task_type t).0
  call (stores query answer score method task_type route context now) t =
      store b id_of query answer score method task_type route context now t
  call (proves query answer score task_type count queries now) t =
      or_same (store_synthesized_verified b query answer score task_type count queries now t) t
  call (synthesizes query answer task_type count queries now) t =
      or_same (store_synthesized b query answer task_type count queries now t) t
  call (removes indices) t = remove_entries indices t
  call clears t = clear t
  call (reloads file) t = load file t

  abbrev pub calls : List Call → Trajectories S → Trajectories S
  calls [] t = t
  calls (x ∷ xs) t = calls xs (call x t)

with_entries-entries :
    {S : Type 0} (es : List Entry) (t : Trajectories S) → (with_entries es t).entries ≡ es
unfolding with_entries
with_entries-entries es t = ground arith

mirror_learned-entries :
    {S : Type 0} (b : Backend S) (id_of : ℕ → String) (v : Vector) (m : Entry) (t : Trajectories S)
    → (mirror_learned b id_of v m t).entries ≡ t.entries
unfolding mirror_learned
mirror_learned-entries b id_of v m t = ground arith

module _ {S : Type 0} (P : Entry → Type 0) (stable : IsStable P) where
  abbrev Holds : Trajectories S → Type 0
  Holds t = All P t.entries

  append-All :
      (e : Entry) (t : Trajectories S) → P e → All P t.entries → All P (append_entry e t).entries
  append-All e t p h =
      subst (All P)
        (sym (with_entries-entries (evict score_of t.max_entries (t.entries ++ e ∷ [])) t))
        (evict-All P stable t.max_entries (t.entries ++ e ∷ [])
          (All-append P t.entries (e ∷ []) h (p, tt)))

  retrieve-All :
      (b : Backend S) (query : String) (task_type : Option String) (t : Trajectories S)
      → All P t.entries
      → All P (retrieve b query task_type t).0.entries
  unfolding retrieve
  retrieve-All b query task_type t h =
      let g = gather_local b query task_type t in
      let after : All P (after_gather g t).0.entries =
        if_both Holds (t.autosave && (not g.raised && not (is_nil g.examples))) _ _
          (λ e. touch_all-All P stable g.touched t.entries h)
          (λ e. touch_all-All P stable g.touched t.entries h) in
      let here =
        if_both (λ (r : Trajectories S × Gathered). Holds r.0) (is_nil t.entries) _ _ (λ e. h)
          (λ e. after) in
      elim (Option-cases t.store) [
        | inl absent ↦ rw (retrieve, absent) here
        | inr (s, there) ↦
            rw (retrieve, there)
              (if_both (λ (r : Trajectories S × Gathered). Holds r.0) t.agentdb_only _ _ (λ e. h)
                (λ e. here))
      ]

  -- A master trajectory is stored, unless the answer is blank or the call raises.
  store_master-All :
      (b : Backend S) (proven : Bool) (query answer : String) (score : ℕ) (task_type : String)
      (count : ℕ) (queries : List String) (now : ℕ) (t : Trajectories S)
      → P (master_entry proven query answer score task_type count queries (b.encode query) now)
      → All P t.entries
      → All P
          (or_same
            (store_master b proven query answer score task_type count queries now t)
            t).entries
  unfolding store_master
  store_master-All b proven query answer score task_type count queries now t p h =
      if_both (λ r. Holds (or_same r t)) (is_blank answer) _ _ (λ e. h)
        (λ e. if_both (λ r. Holds (or_same r t)) t.has_model _ _ (λ e. append-All _ t p h) (λ e. h))

  module _ (b : Backend S) (id_of : ℕ → String) where
    -- An unproven master trajectory has the property, if the call stores one.
    abbrev Admits : Call → Type 0
    Admits (synthesizes query answer task_type count queries now) =
        P (master_entry false query answer 0 task_type count queries (b.encode query) now)
    Admits x = Unit

    call-All :
        (x : Call) (t : Trajectories S)
        → Admits x
        → All P t.entries
        → All P (call b id_of x t).entries
    unfolding retrieve store remove_entries clear load
    call-All (retrieves query task_type) t a h = retrieve-All b query task_type t h
    call-All (stores query answer score method task_type route context now) t a h =
        let metadata = learned_metadata query answer score method task_type route now in
        let v = b.encode query in
        let entry = record metadata { embedding = some v; verification_context = context } in
        if_both Holds (is_blank answer) _ _ (λ e. h)
          (λ e.
            if_both Holds (is_bad answer) _ _ (λ e. h)
              (λ e.
                if_both Holds (method =s self_claims_only) _ _ (λ e. h)
                  (λ other.
                    if_both Holds (not t.has_model) _ _ (λ e. h)
                      (λ e.
                        rw mirror_learned-entries
                          (append-All entry t (stable.learned entry (ap not other)) h)))))
    call-All (proves query answer score task_type count queries now) t a h =
        store_master-All b true query answer score task_type count queries now t
          (stable.learned _ refl) h
    call-All (synthesizes query answer task_type count queries now) t a h =
        store_master-All b false query answer 0 task_type count queries now t a h
    call-All (removes indices) t a h = elim (Bool-cases (is_nil indices)) [
      | inl none_given ↦ rw none_given h
      | inr given ↦
          rw (given, with_entries-entries) (without_indices-All P stable 0 indices t.entries h)
    ]
    call-All clears t a h = tt
    call-All (reloads none) t a h = tt
    call-All (reloads (some es)) t a h = keep-All P stable es

    calls-All :
        (xs : List Call) (t : Trajectories S)
        → All Admits xs
        → All P t.entries
        → All P (calls b id_of xs t).entries
    calls-All [] t a h = h
    calls-All (x ∷ xs) t a h = calls-All xs (call b id_of x t) a.1 (call-All x t a.0 h)

module _ {S : Type 0} (b : Backend S) (id_of : ℕ → String) where
  kept : (x : Call) → Admits {S = S} IsKept IsKept-IsStable b id_of x
  kept (synthesizes query answer task_type count queries now) =
      inr ((refl, refl, refl), unproven-distrusted _ (refl, refl, refl))
  kept (retrieves query task_type) = tt
  kept (stores query answer score method task_type route context now) = tt
  kept (proves query answer score task_type count queries now) = tt
  kept (removes indices) = tt
  kept clears = tt
  kept (reloads file) = tt

  all_kept : (xs : List Call) → All (Admits {S = S} IsKept IsKept-IsStable b id_of) xs
  all_kept [] = tt
  all_kept (x ∷ xs) = (kept x, all_kept xs)

  admitted :
      (x : Call) → is_synthesis x ≡ false → Admits {S = S} IsLearned IsLearned-IsStable b id_of x
  admitted (synthesizes query answer task_type count queries now) h = absurd (cc h)
  admitted (retrieves query task_type) h = tt
  admitted (stores query answer score method task_type route context now) h = tt
  admitted (proves query answer score task_type count queries now) h = tt
  admitted (removes indices) h = tt
  admitted clears h = tt
  admitted (reloads file) h = tt

  all_admitted :
      (xs : List Call)
      → All (λ x. is_synthesis x ≡ false) xs
      → All (Admits {S = S} IsLearned IsLearned-IsStable b id_of) xs
  all_admitted [] h = tt
  all_admitted (x ∷ xs) h = (admitted x h.0, all_admitted xs h.1)

  -- Whatever is stored, proven, synthesized, retrieved, removed, cleared or loaded, in any order and
  -- from files with any entries, a store that holds only entries which are verified, by another
  -- method than the model's own claims, and unproven master trajectories, which are never trusted,
  -- goes on to do so. Without a call of `store_synthesized`, one that holds verified entries only
  -- goes on to do so.
  pub calls-Learned :
      (xs : List Call) (t : Trajectories S)
      → (All IsKept t.entries → All IsKept (calls b id_of xs t).entries)
        × (All (λ x. is_synthesis x ≡ false) xs
            → All IsLearned t.entries
            → All IsLearned (calls b id_of xs t).entries)
  calls-Learned xs t = (
    calls-All IsKept IsKept-IsStable b id_of xs t (all_kept xs),
    λ h. calls-All IsLearned IsLearned-IsStable b id_of xs t (all_admitted xs h),
  )
