-- ===== src/Cache/Reads.antt =====
-- What `CLRResultCache.lookup` gives back.
use vibe_thinker.Prelude.{
  ℕ, zero, suc, ◌≤◌, ◌≡◌, refl, sym, subst, ap, String, Bool, true, false, ◌&&◌, List, [], ◌∷◌, map,
  Option, none, some, arith, eq_iff, leb, if◌then◌else◌, Bool-cases, Option-cases, ◌⊎◌, inl, inr,
  get_elem?, is_nil, In,
}
use vibe_thinker.Prelude.Int.{ℤ, ltb_ℤ, ◌≤ℤ◌}
use vibe_thinker.Cache.Entry.{Entry, or_default, is_trustworthy}
use vibe_thinker.Cache.Entries.{Match, Backend}
use vibe_thinker.Cache.Results.{
  ResultCache, Hit, Lookup, miss, hit, one, hit_of, stored_hit, eligible, is_problem, find_exact,
  find_similar, answer_with, accept, lookup_exact, lookup_similar, lookup_local, usable_rows,
  lookup,
}
use vibe_thinker.Cache.Trust.{Trusted, is_trustworthy-Trusted}

-- The hit is that of a trusted entry, for exactly the problem or for one that is similar enough.
pub record Serves (min_score : ℕ) (threshold : ℤ) (problem : String) (e : Entry) (h : Hit)
    : Type 0 where
  pub trusted : Trusted e
  pub shown : h ≡ stored_hit e h.similarity
  pub verified : h.verified ≡ true
  pub score : min_score ≤ h.best_score
  pub near : (e.problem ≡ some problem) ⊎ (threshold ≤ℤ h.similarity)

pub hit_of-stored : (e : Entry) (sim : ℤ) (h : Hit) → hit_of e sim ≡ hit h → h ≡ stored_hit e sim
unfolding hit_of
hit_of-stored e sim h eq = ground arith

In-get_elem? : (es : List Entry) (i : ℕ) (e : Entry) → get_elem? es i ≡ some e → In e es
In-get_elem? [] i e h = absurd (cc h)
In-get_elem? (x ∷ xs) zero e h = inl (ground arith)
In-get_elem? (x ∷ xs) (suc i) e h = inr (In-get_elem? xs i e h)

module _ (min_score : ℕ) (allow_weak : Bool) where
  pub find_exact_sound :
      (problem : String) (es : List Entry) (i : ℕ)
      → find_exact min_score allow_weak problem es ≡ some i
      → (e : Entry) × (get_elem? es i ≡ some e)
        × (is_problem problem e ≡ true)
        × (eligible min_score allow_weak e ≡ true)
  unfolding find_exact
  find_exact_sound problem [] i h = absurd (cc h)
  find_exact_sound problem (e ∷ es) i h =
      elim (Bool-cases (is_problem problem e && eligible min_score allow_weak e)) [
        | inl found ↦
            let first : i ≡ 0 = ground (arith, (rw found at h)) in
            (e, (rw first refl), ground (arith, found), ground (arith, found))
        | inr other ↦ elim (Option-cases (find_exact min_score allow_weak problem es)) [
          | inl absent ↦ absurd (cc (rw (other, absent) at h))
          | inr (j, rest) ↦
              let next : i ≡ suc j = ground (arith, (rw (other, rest) at h)) in
              let (x, place, same, fits) = find_exact_sound problem es j rest in
              (x, (rw next place), same, fits)
        ]
      ]

  pub find_similar_sound :
      (threshold : ℤ) (sims : List ℤ) (es : List Entry) (is : List ℕ) (i : ℕ) (sim : ℤ)
      → find_similar min_score allow_weak threshold sims es is ≡ some (i, sim)
      → (e : Entry) × (get_elem? es i ≡ some e)
        × (ltb_ℤ sim threshold ≡ false)
        × (eligible min_score allow_weak e ≡ true)
  unfolding find_similar
  find_similar_sound threshold sims es [] i sim h = absurd (cc h)
  find_similar_sound threshold sims es (j ∷ js) i sim h = elim (Option-cases (get_elem? sims j)) [
    | inl absent ↦ absurd (cc (rw (find_similar, absent) at h))
    | inr (s, there) ↦ elim (Option-cases (get_elem? es j)) [
      | inl absent ↦ absurd (cc (rw (find_similar, there, absent) at h))
      | inr (e, entry) ↦ elim (Bool-cases (ltb_ℤ s threshold)) [
        | inl far ↦ absurd (cc (rw (find_similar, there, entry, far) at h))
        | inr near ↦ elim (Bool-cases (eligible min_score allow_weak e)) [
          | inr out ↦
              find_similar_sound threshold sims es js i sim
                (rw (find_similar, there, entry, near, out) at h)
          | inl fits ↦
              let same : ◌≡◌ {A = Option (ℕ × ℤ)} (some (j, s)) (some (i, sim)) =
                (rw (find_similar, there, entry, near, fits) at h) in
              let index : i ≡ j = ap (λ o. elim o [ none ↦ i | some p ↦ p.0 ]) (sym same) in
              let value : s ≡ sim = ap (λ o. elim o [ none ↦ sim | some p ↦ p.1 ]) same in
              (e, (rw index entry), subst (λ z. ltb_ℤ z threshold ≡ false) value near, fits)
        ]
      ]
    ]
  ]

is_problem-some :
    (problem : String) (e : Entry) → is_problem problem e ≡ true → e.problem ≡ some problem
is_problem-some problem e h = elim (Option-cases e.problem) [
  | inl absent ↦ absurd (cc (rw (is_problem, absent) at h))
  | inr (p, there) ↦ rw there (ap some ((eq_iff p problem).0 (rw (is_problem, there) at h)))
]

serves :
    (min_score : ℕ) (threshold : ℤ) (problem : String) (e : Entry) (sim : ℤ)
    → eligible min_score false e ≡ true
    → (e.problem ≡ some problem) ⊎ (threshold ≤ℤ sim)
    → Serves min_score threshold problem e (stored_hit e sim)
serves min_score threshold problem e sim fits near =
    let trusted = is_trustworthy-Trusted e (ground (arith, fits)) in
    record {
      trusted = trusted;
      shown = refl;
      verified = trusted.verified;
      score = ground (arith, fits);
      near = near;
    }

either_gives :
    {S : Type 0} (test : Bool) (x y : ResultCache S × Lookup) (h : Hit)
    → (if test then x else y).1 ≡ hit h
    → (x.1 ≡ hit h) ⊎ (y.1 ≡ hit h)
either_gives true x y h eq = inl eq
either_gives false x y h eq = inr eq

module _ {S : Type 0} (b : Backend S) (problem : String) (c : ResultCache S) where
  -- The entry is one of the cache, or one that the vector store gave for the problem.
  abbrev pub Known : Entry → Type 0
  Known e =
      In e c.entries
      ⊎ ((s : S) × (c.store ≡ some s)
          × In e (map (λ m. m.metadata) (b.search s (b.encode problem) 1)))

  abbrev pub Served : Hit → Type 0
  Served h = (e : Entry) × Known e × Serves c.min_score c.similarity_threshold problem e h

  answer_with-Served :
      (i : ℕ) (sim : ℤ) (e : Entry) (h : Hit)
      → get_elem? c.entries i ≡ some e
      → eligible c.min_score false e ≡ true
      → (e.problem ≡ some problem) ⊎ (c.similarity_threshold ≤ℤ sim)
      → (answer_with i sim c).1 ≡ hit h
      → Served h
  answer_with-Served i sim e h place fits near eq =
      let shown = hit_of-stored e sim h (rw (answer_with, place) at eq) in
      (
        e,
        inl (In-get_elem? c.entries i e place),
        subst (Serves c.min_score c.similarity_threshold problem e) (sym shown)
            (serves c.min_score c.similarity_threshold problem e sim fits near),
      )

  lookup_exact-Served : (h : Hit) → (lookup_exact b problem false c).1 ≡ hit h → Served h
  unfolding lookup_exact
  lookup_exact-Served h eq = elim (Option-cases (find_exact c.min_score false problem c.entries)) [
    | inl absent ↦ absurd (cc (rw (lookup_exact, absent) at eq))
    | inr (i, found) ↦
        let (e, place, same, fits) = find_exact_sound c.min_score false problem c.entries i found in
        answer_with-Served i one e h place fits (inl (is_problem-some problem e same))
          (rw (lookup_exact, found) at eq)
  ]

  lookup_similar-Served :
      (rows : List (List ℤ)) (h : Hit)
      → (lookup_similar b problem false rows c).1 ≡ hit h
      → Served h
  unfolding lookup_similar
  lookup_similar-Served rows h eq =
      let sims = map (λ row. b.cosine (b.encode problem) row) rows in
      elim (Option-cases
        (find_similar c.min_score false c.similarity_threshold sims c.entries (b.ranking sims))) [
          | inl absent ↦ absurd (cc (rw (lookup_similar, absent) at eq))
          | inr ((i, sim), found) ↦
              let (e, place, near, fits) =
                find_similar_sound c.min_score false c.similarity_threshold sims c.entries
                  (b.ranking sims) i sim found in
              answer_with-Served i sim e h place fits (inr (ground (arith, near)))
                (rw (lookup_similar, found) at eq)
        ]

  lookup_local-Served : (h : Hit) → (lookup_local b problem false c).1 ≡ hit h → Served h
  unfolding lookup_local
  lookup_local-Served h eq = elim (Bool-cases (is_nil c.entries)) [
    | inl empty ↦ absurd (cc (rw (lookup_local, empty) at eq))
    | inr some_entry ↦ elim (Option-cases (usable_rows c.mode c.has_model c.matrix)) [
      | inl exact ↦ lookup_exact-Served h (rw (lookup_local, some_entry, exact) at eq)
      | inr (rows, similar) ↦
          lookup_similar-Served rows h (rw (lookup_local, some_entry, similar) at eq)
    ]
  ]

  accept-Serves :
      (ms : List Match) (h : Hit)
      → accept c false ms ≡ hit h
      → (e : Entry) × In e (map (λ m. m.metadata) ms)
        × Serves c.min_score c.similarity_threshold problem e h
  unfolding accept
  accept-Serves [] h eq = absurd (cc eq)
  accept-Serves (m ∷ ms) h eq =
      let near : ltb_ℤ m.similarity c.similarity_threshold ≡ false = ground (arith, eq) in
      let score : leb c.min_score (or_default m.metadata.best_score 0) ≡ true =
        ground (arith, eq) in
      let trust : is_trustworthy m.metadata false ≡ true = ground (arith, eq) in
      let shown : hit (stored_hit m.metadata m.similarity) ≡ hit h =
        (rw (accept, near, score, trust) at eq) in
      (
        m.metadata,
        inl refl,
        subst (Serves c.min_score c.similarity_threshold problem m.metadata) (ground (arith, shown))
            (serves c.min_score c.similarity_threshold problem m.metadata m.similarity
              (ground (arith, score, trust)) (inr (ground (arith, near)))),
      )

  -- Without leave for weak results, every hit is that of a trusted entry of the cache or the vector
  -- store, of at least the minimal score, for exactly the problem or for one at least as similar as
  -- the threshold.
  pub lookup-Served : (h : Hit) → (lookup b problem false c).1 ≡ hit h → Served h
  unfolding lookup
  lookup-Served h eq = elim (Option-cases c.store) [
    | inl absent ↦ lookup_local-Served h (rw (lookup, absent) at eq)
    | inr (s, store) ↦
        let matches = b.search s (b.encode problem) 1 in
        elim (either_gives c.agentdb_only _ _ h (rw (lookup, store) at eq)) [
          | inr local ↦ lookup_local-Served h local
          | inl remote ↦
              elim (either_gives c.has_model (c, accept c false matches) (c, miss) h remote) [
                | inr nothing ↦ absurd (cc nothing)
                | inl accepted ↦
                    let (e, found, served) = accept-Serves matches h accepted in
                    (e, inr (s, store, found), served)
              ]
        ]
  ]
