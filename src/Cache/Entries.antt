-- ===== src/Cache/Entries.antt =====
-- The entry lists of the two caches of persistent_cache.py: their embedding matrix, their eviction,
-- and the libraries that they call.
use vibe_thinker.Prelude.{
  ℕ, ◌+◌, String, Bool, true, false, ◌&&◌, ◌||◌, List, [], ◌∷◌, Option, none, some, ltb, leb, ◌==◌,
  if◌then◌else◌, length, take,
}
use vibe_thinker.Prelude.Int.{ℤ}
use vibe_thinker.Prelude.Sort.{sorted}
use vibe_thinker.Cache.Entry.{Vector, Entry, or_default}

-- `CacheSimilarityMode`
pub data SimilarityMode : Type 0 where
  none_mode hash_mode embeddings_mode : SimilarityMode

-- What a search of the vector store gives: an id, a similarity and the metadata.
pub record Match : Type 0 where
  pub vector_id : String
  pub similarity : ℤ
  pub metadata : Entry

-- The libraries: the embedding model, `cosine_similarity` of one vector with another,
-- `np.argsort(sims)[::-1]`, and the vector store, whose writes may raise.
pub record Backend (S : Type 0) : Type 0 where
  pub encode : String → Vector
  pub cosine : Vector → Vector → ℤ
  pub ranking : List ℤ → List ℕ
  pub search : S → Vector → ℕ → List Match
  pub upsert : S → String → Vector → Entry → Option S

-- `_resolve_similarity_mode`
unfoldable pub resolve_similarity_mode : Bool → Option SimilarityMode → Bool → SimilarityMode
resolve_similarity_mode embeddings_available (some mode) has_store = mode
resolve_similarity_mode embeddings_available none has_store =
    if has_store
    then SimilarityMode.embeddings_mode
    else if embeddings_available
    then SimilarityMode.embeddings_mode
    else SimilarityMode.none_mode

-- `_is_valid_embedding_vector`
abbrev pub is_valid_vector : Vector → Bool
is_valid_vector [] = false
is_valid_vector (x ∷ xs) = true

-- The matrix, if every entry has an embedding.
abbrev pub matrix_of : List Entry → Option (List Vector)
matrix_of [] = some []
matrix_of (e ∷ es) =
    let v = or_default e.embedding [] in
    elim (matrix_of es) [
      | none ↦ none
      | some rows ↦ if is_valid_vector v then some (v ∷ rows) else none
    ]

-- `_rebuild_embeddings_matrix`
unfoldable pub embeddings_matrix : List Entry → Option (List Vector)
embeddings_matrix [] = none
embeddings_matrix (e ∷ es) = matrix_of (e ∷ es)

abbrev pub accesses : Entry → ℕ
accesses e = or_default e.access_count 0

-- `(access_count, score)` of the first entry is at least that of the second.
unfoldable pub outlasts : (Entry → ℕ) → Entry → Entry → Bool
outlasts score a b =
    ltb (accesses b) (accesses a) || ((accesses a == accesses b) && leb (score b) (score a))

-- The eviction: over capacity, the entries are sorted and cut.
unfoldable pub evict : (Entry → ℕ) → ℕ → List Entry → List Entry
evict score max_entries entries =
    if ltb max_entries (length entries)
    then take max_entries (sorted (outlasts score) entries)
    else entries

-- `entry["access_count"] = entry.get("access_count", 0) + 1`
abbrev pub touch : Entry → Entry
touch e = record e { access_count = some (accesses e + 1) }
