-- ===== src/Cache/Retrieval.antt =====
-- What `VerifiedTrajectoryStore.retrieve` of persistent_cache.py gives as examples.
use vibe_thinker.Prelude.{
  ℕ, suc, ◌+◌, ◌≤◌, ◌≡◌, refl, sym, subst, String, true, ◌&&◌, List, [], ◌∷◌, map, Option, some,
  arith, leb, if◌then◌else◌, if_both, option_both, Option-cases, ◌⊎◌, inl, inr, length, get_elem?,
  All, In, is_nil,
}
use vibe_thinker.Prelude.Int.{ℤ, ltb_ℤ, ◌≤ℤ◌}
use vibe_thinker.Cache.Entry.{Entry, or_default}
use vibe_thinker.Cache.Entries.{Match, Backend}
use vibe_thinker.Cache.Results.{one, usable_rows}
use vibe_thinker.Cache.Trust.{Trusted, is_trustworthy-Trusted}
use vibe_thinker.Cache.Trajectories.{
  Trajectories, Example, Gathered, nothing, example_with, example_of, same_text, type_fits, fits,
  append_example, gather_exact, gather_similar, gather_matches, gather_local, gather_remote,
  retrieve,
}
use vibe_thinker.Cache.Kept.{All-get_elem?}

-- The example is that of a trusted entry of the asked type, for exactly the query or for one that
-- is similar enough.
pub record Shows (threshold : ℤ) (query : String) (task_type : Option String) (e : Entry)
    (x : Example) : Type 0 where
  pub trusted : Trusted e
  pub typed : type_fits task_type e ≡ true
  pub shown : x ≡ example_with e x.similarity (or_default e.query "") (or_default e.answer "")
  pub near : (same_text e.query query ≡ true) ⊎ (threshold ≤ℤ x.similarity)

example_of-shown :
    (e : Entry) (sim : ℤ) (x : Example)
    → example_of e sim ≡ some x
    → x ≡ example_with e sim (or_default e.query "") (or_default e.answer "")
unfolding example_of
example_of-shown e sim x h = ground (arith, h)

All-In : {A : Type 0} {P : A → Type 0} (xs : List A) → ((x : A) → In x xs → P x) → All P xs
All-In [] f = tt
All-In (x ∷ xs) f = (f x (inl refl), All-In xs (λ y m. f y (inr m)))

module _ (threshold : ℤ) (query : String) (task_type : Option String) (max_few_shot : ℕ)
    (Source : Entry → Type 0) where
  abbrev pub Shown : Example → Type 0
  Shown x = (e : Entry) × Source e × Shows threshold query task_type e x

  -- With `count` examples before, the loop ends in time.
  abbrev Fine : ℕ → List Example → Type 0
  Fine count xs = All Shown xs × ((length xs ≤ 1) ⊎ (length xs + count ≤ max_few_shot))

  Fine-nil : (count : ℕ) → Fine count []
  Fine-nil count = (tt, inl (omega arith))

  Fine-cons :
      (count : ℕ) (x : Example) (xs : List Example)
      → Shown x
      → Fine (suc count) xs
      → Fine count (x ∷ (if leb max_few_shot (suc count) then [] else xs))
  Fine-cons count x xs s f =
      if_both (λ ys. Fine count (x ∷ ys)) (leb max_few_shot (suc count)) [] xs
        (λ e. ((s, tt), inl (omega arith))) (λ e. ((s, f.0), inr (ground (arith, f.1, e))))

  shows :
      (e : Entry) (sim : ℤ)
      → fits task_type e ≡ true
      → (same_text e.query query ≡ true) ⊎ (threshold ≤ℤ sim)
      → Shows threshold query task_type e
          (example_with e sim (or_default e.query "") (or_default e.answer ""))
  shows e sim h near = record {
    trusted = is_trustworthy-Trusted e (ground (arith, h));
    typed = ground (arith, h);
    shown = refl;
    near = near;
  }

  append_example-Fine :
      (count i : ℕ) (e : Entry) (sim : ℤ) (rest : Gathered)
      → Source e
      → fits task_type e ≡ true
      → (same_text e.query query ≡ true) ⊎ (threshold ≤ℤ sim)
      → Fine (suc count) rest.examples
      → Fine count (append_example max_few_shot count i e sim rest).examples
  append_example-Fine count i e sim rest source h near f = elim (Option-cases (example_of e sim)) [
    | inl absent ↦ rw (append_example, absent) (Fine-nil count)
    | inr (x, there) ↦
        let shown = example_of-shown e sim x there in
        let s : Shown x =
          (e, source, subst (Shows threshold query task_type e) (sym shown) (shows e sim h near)) in
        rw (append_example, there)
          (if_both (λ (g : Gathered). Fine count (x ∷ g.examples)) (leb max_few_shot (suc count))
            nothing rest (λ e. ((s, tt), inl (omega arith)))
            (λ e. ((s, f.0), inr (ground (arith, f.1, e)))))
  ]

  gather_exact-Fine :
      (i count : ℕ) (es : List Entry)
      → All Source es
      → Fine count (gather_exact max_few_shot task_type query i count es).examples
  unfolding gather_exact
  gather_exact-Fine i count [] h = Fine-nil count
  gather_exact-Fine i count (e ∷ es) h =
      if_both (λ (g : Gathered). Fine count g.examples)
        (same_text e.query query && fits task_type e) _ _
        (λ found.
          append_example-Fine count i e one _ h.0 (ground (arith, found))
            (inl (ground (arith, found))) (gather_exact-Fine (suc i) (suc count) es h.1))
        (λ other. gather_exact-Fine (suc i) count es h.1)

  gather_similar-Fine :
      (sims : List ℤ) (es : List Entry) (count : ℕ) (is : List ℕ)
      → All Source es
      → Fine count (gather_similar max_few_shot task_type threshold sims es count is).examples
  unfolding gather_similar
  gather_similar-Fine sims es count [] h = Fine-nil count
  gather_similar-Fine sims es count (i ∷ is) h = elim (Option-cases (get_elem? sims i)) [
    | inl absent ↦ rw (gather_similar, absent) (Fine-nil count)
    | inr (sim, at_sim) ↦ elim (Option-cases (get_elem? es i)) [
      | inl absent ↦ rw (gather_similar, at_sim, absent) (Fine-nil count)
      | inr (e, at_e) ↦
          rw (gather_similar, at_sim, at_e)
            (if_both (λ (g : Gathered). Fine count g.examples) (ltb_ℤ sim threshold) _ _
              (λ far. Fine-nil count)
              (λ near.
                if_both (λ (g : Gathered). Fine count g.examples) (fits task_type e) _ _
                  (λ found.
                    append_example-Fine count i e sim _ (All-get_elem? Source es i e at_e h) found
                      (inr (ground (arith, near))) (gather_similar-Fine sims es (suc count) is h))
                  (λ other. gather_similar-Fine sims es count is h)))
    ]
  ]

  gather_matches-Fine :
      (count : ℕ) (ms : List Match)
      → All Source (map (λ m. m.metadata) ms)
      → Fine count (gather_matches max_few_shot task_type threshold count ms)
  unfolding gather_matches
  gather_matches-Fine count [] h = Fine-nil count
  gather_matches-Fine count (m ∷ ms) h =
      if_both (Fine count) (ltb_ℤ m.similarity threshold) _ _ (λ far. Fine-nil count)
        (λ near.
          if_both (Fine count) (fits task_type m.metadata) _ _
            (λ found.
              Fine-cons count _ _
                (m.metadata, h.0, shows m.metadata m.similarity found (inr (ground (arith, near))))
                (gather_matches-Fine (suc count) ms h.1))
            (λ other. gather_matches-Fine count ms h.1))

module _ {S : Type 0} (b : Backend S) (query : String) (task_type : Option String)
    (t : Trajectories S) where
  -- The entry is one of the store, or one that the vector store gave for the query.
  abbrev pub Known : Entry → Type 0
  Known e =
      In e t.entries
      ⊎ ((s : S) × (t.store ≡ some s)
          × In e (map (λ m. m.metadata) (b.search s (b.encode query) t.max_few_shot)))

  abbrev pub Warranted : List Example → Type 0
  Warranted xs =
      All (Shown t.retrieval_threshold query task_type t.max_few_shot Known) xs
      × ((length xs ≤ 1) ⊎ (length xs ≤ t.max_few_shot))

  Fine-Warranted :
      (xs : List Example)
      → Fine t.retrieval_threshold query task_type t.max_few_shot Known 0 xs
      → Warranted xs
  Fine-Warranted xs f = (f.0, ground (arith, f.1))

  gather_local-Warranted : Warranted (gather_local b query task_type t).examples
  unfolding gather_local
  gather_local-Warranted =
      let sources : All Known t.entries = All-In t.entries (λ e m. inl m) in
      let threshold = t.retrieval_threshold in
      elim (Option-cases (usable_rows t.mode t.has_model t.matrix)) [
        | inl exact ↦
            rw (gather_local, exact)
              (Fine-Warranted _ (
                gather_exact-Fine threshold query task_type t.max_few_shot Known 0 0 t.entries
                  sources))
        | inr (rows, similar) ↦
            rw (gather_local, similar)
              (Fine-Warranted _ (
                gather_similar-Fine threshold query task_type t.max_few_shot Known _ t.entries 0 _
                  sources))
      ]

  gather_remote-Warranted :
      (s : S) → t.store ≡ some s → Warranted (gather_remote b s query task_type t).examples
  unfolding gather_remote
  gather_remote-Warranted s h =
      let ms = b.search s (b.encode query) t.max_few_shot in
      if_both (λ (g : Gathered). Warranted g.examples) t.has_model _ _
        (λ model. Fine-Warranted _ (
          gather_matches-Fine t.retrieval_threshold query task_type t.max_few_shot Known 0 ms
            (All-In (map (λ m. m.metadata) ms) (λ e m. inr (s, h, m)))))
        (λ without. (tt, inl (omega arith)))

  -- Every example is that of a trusted entry of the store, or of the vector store's matches, of the
  -- asked type, for exactly the query or for one at least as similar as the threshold; and there are
  -- at most `max_few_shot` of them, or one if that is 0.
  pub retrieve-Warranted : Warranted (retrieve b query task_type t).1.examples
  unfolding retrieve
  retrieve-Warranted =
      let none_given : Warranted [] = (tt, inl (omega arith)) in
      let here =
        if_both (λ (r : Trajectories S × Gathered). Warranted r.1.examples) (is_nil t.entries) _ _
          (λ e. none_given) (λ e. gather_local-Warranted) in
      option_both (λ (r : Trajectories S × Gathered). Warranted r.1.examples) t.store _ _
        (λ e. here)
        (λ s there.
          if_both (λ (r : Trajectories S × Gathered). Warranted r.1.examples) t.agentdb_only _ _
            (λ e. gather_remote-Warranted s there) (λ e. here))
