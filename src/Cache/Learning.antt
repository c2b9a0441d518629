-- ===== src/Cache/Learning.antt =====
-- How `VerifiedTrajectoryStore` of persistent_cache.py and its file are written.
use vibe_thinker.Prelude.{
  ℕ, suc, ◌-◌, String, Bool, true, false, not, ◌&&◌, ◌||◌, List, [], ◌∷◌, ◌++◌, Option, none, some,
  ◌==◌, ◌=s◌, if◌then◌else◌, length, keep, is_nil,
}
use vibe_thinker.Cache.Entry.{
  Vector, Entry, blank, or_default, holds, method_of, self_claims_only, current_schema_version,
  is_bad, is_blank,
}
use vibe_thinker.Cache.Entries.{Backend, is_valid_vector, embeddings_matrix, evict}
use vibe_thinker.Cache.Trajectories.{Trajectories}

abbrev pub score_of : Entry → ℕ
score_of e = or_default e.score 0

-- The filter of `_load`.
abbrev pub is_learned : Entry → Bool
is_learned e = holds e.verified && not (method_of e.verification_method =s self_claims_only)

-- The keys that `store` writes to the vector store.
abbrev pub learned_metadata : String → String → ℕ → String → String → String → ℕ → Entry
learned_metadata query answer score method task_type route now = record blank {
  query = some query;
  answer = some answer;
  score = some score;
  verification_method = some method;
  task_type = some task_type;
  route_taken = some route;
  timestamp = some now;
  verified = some true;
  schema_version = some current_schema_version;
  best_answer = some answer;
  best_score = some score;
  claim_count = some 10;
}

-- The keys of a master trajectory; `proven` tells `store_synthesized_verified` from
-- `store_synthesized`.
abbrev pub master_entry : Bool → String → String → ℕ → String → ℕ → List String → Vector → ℕ → Entry
master_entry proven query answer score task_type count queries embedding now =
    let method = if proven then "synthesized_and_proven" else "synthesized" in
    record blank {
      query = some query;
      embedding = some embedding;
      answer = some answer;
      score = some score;
      verification_method = some method;
      task_type = some task_type;
      route_taken = some method;
      timestamp = some now;
      verified = some proven;
      synthesized = some true;
      source_count = some count;
      source_queries = some queries;
      schema_version = some current_schema_version;
      best_answer = some answer;
      best_score = some score;
      claim_count = some (if proven then 10 else 0);
    }

-- `i in indices`
abbrev pub mem_index : ℕ → List ℕ → Bool
mem_index i [] = false
mem_index i (j ∷ js) = (i == j) || mem_index i js

-- The entries from index `i` on whose index is not listed.
unfoldable pub without_indices : ℕ → List ℕ → List Entry → List Entry
without_indices i is [] = []
without_indices i is (e ∷ es) =
    let rest = without_indices (suc i) is es in if mem_index i is then rest else e ∷ rest

module _ {S : Type 0} where
  -- The entries are replaced, the matrix rebuilt, the file saved.
  unfoldable pub with_entries : List Entry → Trajectories S → Trajectories S
  with_entries es t =
      let t' = record t { entries = es; matrix = embeddings_matrix es } in
      if t.autosave then record t' { file = some es } else t'

  -- The append and the eviction of all three ways to store.
  abbrev pub append_entry : Entry → Trajectories S → Trajectories S
  append_entry e t = with_entries (evict score_of t.max_entries (t.entries ++ e ∷ [])) t

  unfoldable pub mirror_learned :
      Backend S → (ℕ → String) → Vector → Entry → Trajectories S → Trajectories S
  mirror_learned b id_of embedding metadata t = elim t.store [
    | none ↦ t
    | some s ↦
        if is_valid_vector embedding
        then elim (b.upsert s (id_of (length t.entries - 1)) embedding metadata) [
          | none ↦ t
          | some s' ↦ record t { store = some s' }
        ]
        else t
  ]

  -- `store`; `id_of n` is `f"traj_{n}"`.
  unfoldable pub store :
      Backend S
      → (ℕ → String)
      → String
      → String
      → ℕ
      → String
      → String
      → String
      → Option (List (String × String))
      → ℕ
      → Trajectories S
      → Trajectories S
  store b id_of query answer score method task_type route context now t =
      let embedding = b.encode query in
      let metadata = learned_metadata query answer score method task_type route now in
      let entry = record metadata { embedding = some embedding; verification_context = context } in
      if is_blank answer
      then t
      else if is_bad answer
      then t
      else if method =s self_claims_only
      then t
      else if not t.has_model
      then t
      else mirror_learned b id_of embedding metadata (append_entry entry t)

  -- `store_synthesized` and `store_synthesized_verified`; without a model they raise.
  unfoldable pub store_master :
      Backend S
      → Bool
      → String
      → String
      → ℕ
      → String
      → ℕ
      → List String
      → ℕ
      → Trajectories S
      → Option (Trajectories S)
  store_master b proven query answer score task_type count queries now t =
      let embedding = b.encode query in
      let entry = master_entry proven query answer score task_type count queries embedding now in
      if is_blank answer then some t else if t.has_model then some (append_entry entry t) else none

  abbrev pub store_synthesized :
      Backend S
      → String
      → String
      → String
      → ℕ
      → List String
      → ℕ
      → Trajectories S
      → Option (Trajectories S)
  store_synthesized b query answer = store_master b false query answer 0

  abbrev pub store_synthesized_verified :
      Backend S
      → String
      → String
      → ℕ
      → String
      → ℕ
      → List String
      → ℕ
      → Trajectories S
      → Option (Trajectories S)
  store_synthesized_verified b = store_master b true

  unfoldable pub remove_entries : List ℕ → Trajectories S → Trajectories S
  remove_entries indices t =
      if is_nil indices then t else with_entries (without_indices 0 indices t.entries) t

  unfoldable pub clear : Trajectories S → Trajectories S
  clear t = record t { entries = []; matrix = none; file = none }

  -- The constructor's empty store, with what `_load` reads from its file.
  unfoldable pub load : Option (List Entry) → Trajectories S → Trajectories S
  load none t = record t { entries = []; matrix = none; file = none }
  load (some entries) t =
      let learned = keep is_learned entries in
      record t { entries = learned; matrix = embeddings_matrix learned; file = some entries }
