-- ===== src/Cache/Results.antt =====
-- `CLRResultCache` of persistent_cache.py. Its file is the list of entries last saved.
use vibe_thinker.Prelude.{
  ℕ, suc, String, Bool, true, false, not, ◌&&◌, List, [], ◌∷◌, map, Option, none, some, ltb, leb,
  ◌=s◌, if◌then◌else◌, set, get_elem?, is_nil,
}
use vibe_thinker.Prelude.Int.{ℤ, pos, ltb_ℤ}
use vibe_thinker.Cache.Entry.{Vector, Entry, or_default, holds, method_of, is_trustworthy}
use vibe_thinker.Cache.Entries.{SimilarityMode, Match, Backend, touch}

pub record ResultCache (S : Type 0) : Type 0 where
  pub entries : List Entry
  pub matrix : Option (List Vector)
  pub file : Option (List Entry)
  pub store : Option S
  pub mode : SimilarityMode
  pub has_model : Bool
  pub agentdb_only : Bool
  pub similarity_threshold : ℤ
  pub min_score : ℕ
  pub max_entries : ℕ
  pub autosave : Bool

-- The dict that `lookup` gives back.
pub record Hit : Type 0 where
  pub best_answer : String
  pub best_score : ℕ
  pub k : Option ℕ
  pub timestamp : Option ℕ
  pub trajectory_count : Option ℕ
  pub verification_method : String
  pub verified : Bool
  pub schema_version : ℕ
  pub similarity : ℤ
  pub matched_problem : String

-- `entry["best_answer"]` and the like raise when the key is missing.
pub data Lookup : Type 0 where
  miss key_error : Lookup
  hit : Hit → Lookup

-- A similarity of 1.0.
abbrev pub one : ℤ
one = pos 1000

-- The hit of a local entry.
abbrev local_hit : Entry → ℤ → String → ℕ → String → Hit
local_hit entry similarity answer score problem = record {
  best_answer = answer;
  best_score = score;
  k = entry.k;
  timestamp = entry.timestamp;
  trajectory_count = entry.trajectory_count;
  verification_method = method_of entry.verification_method;
  verified = holds entry.verified;
  schema_version = or_default entry.schema_version 1;
  similarity = similarity;
  matched_problem = problem;
}

unfoldable pub hit_of : Entry → ℤ → Lookup
hit_of entry similarity = elim entry.best_answer [
  | none ↦ key_error
  | some answer ↦ elim entry.best_score [
    | none ↦ key_error
    | some score ↦ elim entry.problem [
      | none ↦ key_error
      | some problem ↦ hit (local_hit entry similarity answer score problem)
    ]
  ]
]

-- The hit of the vector store's metadata, with a default for every key.
abbrev pub stored_hit : Entry → ℤ → Hit
stored_hit entry similarity =
    local_hit entry similarity (or_default entry.best_answer "") (or_default entry.best_score 0)
      (or_default entry.problem "")

-- The tests of a local entry: its score, then its trust.
abbrev pub eligible : ℕ → Bool → Entry → Bool
eligible min_score allow_weak entry =
    not (ltb (or_default entry.best_score 0) min_score) && is_trustworthy entry allow_weak

-- `entry.get("problem") == problem`
abbrev pub is_problem : String → Entry → Bool
is_problem problem entry = elim entry.problem [ none ↦ false | some p ↦ p =s problem ]

-- The index of the first eligible entry for exactly this problem.
unfoldable pub find_exact : ℕ → Bool → String → List Entry → Option ℕ
find_exact min_score allow_weak problem [] = none
find_exact min_score allow_weak problem (e ∷ es) =
    if is_problem problem e && eligible min_score allow_weak e
    then some 0
    else elim (find_exact min_score allow_weak problem es) [ none ↦ none | some i ↦ some (suc i) ]

-- The loop over the ranked indices: it stops at the first similarity below the threshold. An index
-- out of range, which a ranking never gives, ends it too.
unfoldable pub find_similar : ℕ → Bool → ℤ → List ℤ → List Entry → List ℕ → Option (ℕ × ℤ)
find_similar min_score allow_weak threshold sims entries [] = none
find_similar min_score allow_weak threshold sims entries (i ∷ is) =
    let rest = find_similar min_score allow_weak threshold sims entries is in
    elim (get_elem? sims i) [
      | none ↦ none
      | some sim ↦ elim (get_elem? entries i) [
        | none ↦ none
        | some entry ↦
            if ltb_ℤ sim threshold
            then none
            else if eligible min_score allow_weak entry
            then some (i, sim)
            else rest
      ]
    ]

-- The matrix, where the search is by similarity.
abbrev pub usable_rows : SimilarityMode → Bool → Option (List Vector) → Option (List Vector)
usable_rows SimilarityMode.none_mode has_model matrix = none
usable_rows mode false matrix = none
usable_rows mode true matrix = matrix

module _ {S : Type 0} where
  -- `if self.autosave: self.save()`
  abbrev pub autosaved : ResultCache S → ResultCache S
  autosaved c = if c.autosave then record c { file = some c.entries } else c

  -- The access is counted and saved before the dict is built.
  abbrev pub answer_with : ℕ → ℤ → ResultCache S → ResultCache S × Lookup
  answer_with i similarity c = elim (get_elem? c.entries i) [
    | none ↦ (c, miss)
    | some entry ↦
        (autosaved (record c { entries = set c.entries i (touch entry) }), hit_of entry similarity)
  ]

  -- The test of the vector store's best match.
  unfoldable pub accept : ResultCache S → Bool → List Match → Lookup
  accept c allow_weak [] = miss
  accept c allow_weak (m ∷ ms) =
      if not (ltb_ℤ m.similarity c.similarity_threshold)
      then (if leb c.min_score (or_default m.metadata.best_score 0)
          then (if is_trustworthy m.metadata allow_weak
              then hit (stored_hit m.metadata m.similarity)
              else miss)
          else miss)
      else miss

  module _ (b : Backend S) where
    unfoldable pub lookup_exact : String → Bool → ResultCache S → ResultCache S × Lookup
    lookup_exact problem allow_weak c = elim (find_exact c.min_score allow_weak problem c.entries) [
      | none ↦ (c, miss)
      | some i ↦ answer_with i one c
    ]

    unfoldable pub lookup_similar :
        String → Bool → List Vector → ResultCache S → ResultCache S × Lookup
    lookup_similar problem allow_weak rows c =
        let query = b.encode problem in
        let sims = map (λ row. b.cosine query row) rows in
        elim (find_similar c.min_score allow_weak c.similarity_threshold sims c.entries
          (b.ranking sims)) [ none ↦ (c, miss) | some (i, sim) ↦ answer_with i sim c ]

    unfoldable pub lookup_local : String → Bool → ResultCache S → ResultCache S × Lookup
    lookup_local problem allow_weak c =
        if is_nil c.entries then (c, miss) else elim (usable_rows c.mode c.has_model c.matrix) [
          | none ↦ lookup_exact problem allow_weak c
          | some rows ↦ lookup_similar problem allow_weak rows c
        ]

    unfoldable pub lookup : String → Bool → ResultCache S → ResultCache S × Lookup
    lookup problem allow_weak c = elim c.store [
      | none ↦ lookup_local problem allow_weak c
      | some s ↦
          if c.agentdb_only
          then (if c.has_model
              then (c, accept c allow_weak (b.search s (b.encode problem) 1))
              else (c, miss))
          else lookup_local problem allow_weak c
    ]
