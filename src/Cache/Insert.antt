-- ===== src/Cache/Insert.antt =====
-- How `CLRResultCache` and its file are written: `insert`, `clear`, and the load of a new cache.
use vibe_thinker.Prelude.{
  ℕ, ◌-◌, String, Bool, List, [], ◌∷◌, ◌++◌, Option, none, some, if◌then◌else◌, length,
}
use vibe_thinker.Cache.Entry.{Vector, Entry, blank, or_default, current_schema_version}
use vibe_thinker.Cache.Entries.{Backend, is_valid_vector, embeddings_matrix, evict}
use vibe_thinker.Cache.Results.{ResultCache, autosaved}

-- The arguments of `insert`.
pub record Write : Type 0 where
  pub problem : String
  pub best_answer : String
  pub best_score : ℕ
  pub k : ℕ
  pub trajectory_count : ℕ
  pub verified : Bool
  pub verification_method : String
  pub claim_count : ℕ
  pub answer_present : Bool
  pub deterministic_check : Option ℕ
  pub failure : Option String
  pub transport_failures : ℕ
  pub model_failures : ℕ

unfoldable pub entry_of : Write → Vector → ℕ → Entry
entry_of w embedding now = record blank {
  problem = some w.problem;
  embedding = some embedding;
  best_answer = some w.best_answer;
  best_score = some w.best_score;
  k = some w.k;
  timestamp = some now;
  trajectory_count = some w.trajectory_count;
  verified = some w.verified;
  verification_method = some w.verification_method;
  claim_count = some w.claim_count;
  answer_present = some w.answer_present;
  deterministic_check = w.deterministic_check;
  failure = w.failure;
  transport_failures = some w.transport_failures;
  model_failures = some w.model_failures;
  schema_version = some current_schema_version;
}

-- The metadata that `insert` gives to the vector store.
unfoldable pub metadata_of : Write → ℕ → Entry
metadata_of w now = record blank {
  problem = some w.problem;
  best_answer = some w.best_answer;
  best_score = some w.best_score;
  k = some w.k;
  timestamp = some now;
  trajectory_count = some w.trajectory_count;
  verified = some w.verified;
  verification_method = some w.verification_method;
  task_type = some "unknown";
  schema_version = some current_schema_version;
}

abbrev pub best_score_of : Entry → ℕ
best_score_of e = or_default e.best_score 0

module _ {S : Type 0} (b : Backend S) (id_of : ℕ → String) where
  -- The mirror of an insert: a write that raises changes nothing. `id_of n` is `f"clr_{n}"`.
  unfoldable pub mirror : Vector → Write → ℕ → ResultCache S → ResultCache S
  mirror embedding w now c = elim c.store [
    | none ↦ c
    | some s ↦
        if is_valid_vector embedding
        then elim (b.upsert s (id_of (length c.entries - 1)) embedding (metadata_of w now)) [
          | none ↦ c
          | some s' ↦ record c { store = some s' }
        ]
        else c
  ]

  unfoldable pub insert : Write → ℕ → ResultCache S → ResultCache S
  insert w now c =
      let embedding = if c.has_model then b.encode w.problem else [] in
      let entries =
        evict best_score_of c.max_entries (c.entries ++ entry_of w embedding now ∷ []) in
      mirror embedding w now
        (autosaved (record c { entries = entries; matrix = embeddings_matrix entries }))

module _ {S : Type 0} where
  unfoldable pub clear : ResultCache S → ResultCache S
  clear c = record c { entries = []; matrix = none; file = none }

  -- The constructor's empty cache, with what `_load` reads from its file.
  unfoldable pub load : Option (List Entry) → ResultCache S → ResultCache S
  load none c = record c { entries = []; matrix = none; file = none }
  load (some entries) c = record c {
    entries = entries;
    matrix = embeddings_matrix entries;
    file = some entries;
  }
