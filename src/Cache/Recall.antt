-- ===== src/Cache/Recall.antt =====
-- What `CLRResultCache.lookup` makes of what `insert` left.
use vibe_thinker.Prelude.{
  ℕ, ◌≤◌, ◌<◌, ◌≡◌, refl, ◌∙◌, ap, String, Bool, true, false, not, ◌&&◌, List, [], ◌∷◌, ◌++◌,
  Option, none, some, arith, eq_iff, if◌then◌else◌, Bool-cases, Option-cases, inl, inr, length,
  length-append, get_elem?, is_nil, All,
}
use vibe_thinker.Cache.Entry.{Vector, Entry, current_schema_version, is_trustworthy, should_cache}
use vibe_thinker.Cache.Entries.{SimilarityMode, Match, Backend, embeddings_matrix}
use vibe_thinker.Cache.Results.{
  ResultCache, Hit, Lookup, miss, hit, one, eligible, is_problem, usable_rows, find_exact,
  answer_with, accept, lookup_exact, lookup_local, lookup, hit_of,
}
use vibe_thinker.Cache.Insert.{Write, entry_of, metadata_of, best_score_of, insert}
use vibe_thinker.Cache.Trust.{
  dict_of, should_cache-trusted, should_cache-strict, metadata_of-distrusted,
}
use vibe_thinker.Cache.Eviction.{evict-Evicted}
use vibe_thinker.Cache.Writes.{embedding, new_entry, left, insert_lem}

find_exact-none :
    (min_score : ℕ) (allow_weak : Bool) (problem : String) (x : Entry) (es : List Entry)
    → find_exact min_score allow_weak problem (x ∷ es) ≡ none
    → ((is_problem problem x && eligible min_score allow_weak x) ≡ false)
      × (find_exact min_score allow_weak problem es ≡ none)
unfolding find_exact
find_exact-none min_score allow_weak problem x es h =
    elim (Bool-cases (is_problem problem x && eligible min_score allow_weak x)) [
      | inl found ↦ absurd (cc (rw (find_exact, found) at h))
      | inr other ↦ elim (Option-cases (find_exact min_score allow_weak problem es)) [
        | inl absent ↦ (other, absent)
        | inr (i, later) ↦ absurd (cc (rw (find_exact, other, later) at h))
      ]
    ]

find_exact-append :
    (min_score : ℕ) (allow_weak : Bool) (problem : String) (es : List Entry) (e : Entry)
    → find_exact min_score allow_weak problem es ≡ none
    → is_problem problem e ≡ true
    → eligible min_score allow_weak e ≡ true
    → find_exact min_score allow_weak problem (es ++ e ∷ []) ≡ some (length es)
unfolding find_exact
find_exact-append min_score allow_weak problem [] e h p q = rw (p, q) refl
find_exact-append min_score allow_weak problem (x ∷ es) e h p q =
    let (first, rest) = find_exact-none min_score allow_weak problem x es h in
    rw (first, find_exact-append min_score allow_weak problem es e rest p q) refl

get_elem?-append : (es : List Entry) (e : Entry) → get_elem? (es ++ e ∷ []) (length es) ≡ some e
get_elem?-append [] e = refl
get_elem?-append (x ∷ es) e = get_elem?-append es e

is_nil-append : (es : List Entry) (e : Entry) → is_nil (es ++ e ∷ []) ≡ false
is_nil-append [] e = refl
is_nil-append (x ∷ es) e = refl

usable_rows-exact :
    (mode : SimilarityMode) (has_model : Bool) (matrix : Option (List Vector))
    → mode ≡ SimilarityMode.none_mode
    → usable_rows mode has_model matrix ≡ none
usable_rows-exact mode has_model matrix h = rw h refl

first_true :
    {S : Type 0} (test : Bool) (x y : ResultCache S × Lookup)
    → test ≡ true
    → (if test then x else y).1 ≡ x.1
first_true test x y h = rw h refl

second_false :
    {S : Type 0} (test : Bool) (x y : ResultCache S × Lookup)
    → test ≡ false
    → (if test then x else y).1 ≡ y.1
second_false test x y h = rw h refl

module _ {S : Type 0} (b : Backend S) (id_of : ℕ → String) (w : Write) (now : ℕ)
    (c : ResultCache S) where
  lookup-new :
      (d : ResultCache S) (es : List Entry) (e : Entry)
      → d.entries ≡ es ++ e ∷ []
      → find_exact d.min_score false w.problem es ≡ none
      → is_problem w.problem e ≡ true
      → eligible d.min_score false e ≡ true
      → d.mode ≡ SimilarityMode.none_mode
      → d.agentdb_only ≡ false
      → (lookup b w.problem false d).1 ≡ hit_of e one
  unfolding lookup lookup_local lookup_exact
  lookup-new d es e all fresh same fits exact local =
      let some_entry : is_nil d.entries ≡ false = ap is_nil all ∙ is_nil-append es e in
      let rows = usable_rows-exact d.mode d.has_model d.matrix exact in
      let found : find_exact d.min_score false w.problem d.entries ≡ some (length es) =
        ap (find_exact d.min_score false w.problem) all
        ∙ find_exact-append d.min_score false w.problem es e fresh same fits in
      let place : get_elem? d.entries (length es) ≡ some e =
        ap (λ l. get_elem? l (length es)) all ∙ get_elem?-append es e in
      let answer : (lookup_local b w.problem false d).1 ≡ hit_of e one =
        rw (lookup_local, some_entry, rows, lookup_exact, found, answer_with, place) refl in
      elim (Option-cases d.store) [
        | inl absent ↦ rw (lookup, absent) answer
        | inr (s, store) ↦ rw (lookup, store) (second_false d.agentdb_only _ _ local ∙ answer)
      ]

  -- The answer to a lookup that finds what was just inserted.
  abbrev pub inserted : Hit
  inserted = record {
    best_answer = w.best_answer;
    best_score = w.best_score;
    k = some w.k;
    timestamp = some now;
    trajectory_count = some w.trajectory_count;
    verification_method = w.verification_method;
    verified = w.verified;
    schema_version = current_schema_version;
    similarity = one;
    matched_problem = w.problem;
  }

  -- A result that `should_cache` admits and that reaches the minimal score comes back from a lookup
  -- of the same problem, in a cache by exact match that has room and no eligible entry for it yet.
  pub lookup-insert :
      should_cache (dict_of w) false ≡ true
      → c.min_score ≤ w.best_score
      → length c.entries < c.max_entries
      → find_exact c.min_score false w.problem c.entries ≡ none
      → c.mode ≡ SimilarityMode.none_mode
      → c.agentdb_only ≡ false
      → (lookup b w.problem false (insert b id_of w now c)).1 ≡ hit inserted
  unfolding entry_of hit_of
  lookup-insert cacheable score room fresh exact local =
      let (f, s, e) = insert_lem b id_of w now c in
      let method = should_cache-strict w cacheable in
      let trusted : is_trustworthy (new_entry b id_of w now c) false ≡ true =
        should_cache-trusted w (embedding b id_of w now c) now false false cacheable
        ∙ ap not method in
      let kept : (left b id_of w now c) ≡ c.entries ++ (new_entry b id_of w now c) ∷ [] =
        (evict-Evicted best_score_of c.max_entries
            (c.entries ++ (new_entry b id_of w now c) ∷ [])).needed
          (omega (arith, length-append c.entries ((new_entry b id_of w now c) ∷ []), room)) in
      let d : ResultCache S = record c {
        entries = (left b id_of w now c);
        matrix = embeddings_matrix (left b id_of w now c);
        file = f;
        store = s;
      } in
      ap (λ d. (lookup b w.problem false d).1) e
      ∙ lookup-new d c.entries (new_entry b id_of w now c) kept fresh
          (ground (arith, eq_iff w.problem w.problem)) (ground (arith, trusted, score)) exact local

-- The metadata are those of some insert.
abbrev pub FromInsert : Match → Type 0
FromInsert m = (w : Write) × (now : ℕ) × (m.metadata ≡ metadata_of w now)

accept-FromInsert :
    {S : Type 0} (c : ResultCache S) (allow_weak : Bool) (ms : List Match)
    → All FromInsert ms
    → accept c allow_weak ms ≡ miss
unfolding accept
accept-FromInsert c allow_weak [] h = refl
accept-FromInsert c allow_weak (m ∷ ms) ((w, now, same), h) =
    let distrusted : is_trustworthy m.metadata allow_weak ≡ false =
      ap (λ e. is_trustworthy e allow_weak) same ∙ metadata_of-distrusted w now allow_weak in
    ground (arith, distrusted)

-- A cache that asks only the vector store answers nothing, whatever was inserted before, if the
-- store gives back metadata that `insert` wrote: they lack the number of claims.
pub lookup-agentdb_only :
    {S : Type 0} (b : Backend S) (problem : String) (allow_weak : Bool) (c : ResultCache S) (s : S)
    → c.store ≡ some s
    → c.agentdb_only ≡ true
    → All FromInsert (b.search s (b.encode problem) 1)
    → (lookup b problem allow_weak c).1 ≡ miss
unfolding lookup
lookup-agentdb_only b problem allow_weak c s store only h =
    let ms = b.search s (b.encode problem) 1 in
    let nothing = accept-FromInsert c allow_weak ms h in
    rw (lookup, store)
      (first_true c.agentdb_only _ _ only ∙ elim (Bool-cases c.has_model) [
        | inl model ↦ first_true c.has_model (c, accept c allow_weak ms) (c, miss) model ∙ nothing
        | inr without ↦ second_false c.has_model (c, accept c allow_weak ms) (c, miss) without
      ])
