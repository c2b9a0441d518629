-- ===== src/Cache/Tests.antt =====
-- The caches of persistent_cache.py on small inputs.
use vibe_thinker.Prelude.{
  All, ℕ, ◌≡◌, refl, String, true, false, not, List, [], ◌∷◌, ◌++◌, none, some, arith, ◌=s◌, take,
  keep,
}
use vibe_thinker.Prelude.Int.{pos}
use vibe_thinker.Prelude.Sort.{sorted}
use vibe_thinker.Text.{Text, strip}
use vibe_thinker.Cache.Entry.{
  Entry, self_claims_only, is_trustworthy, should_cache, is_bad, is_blank,
}
use vibe_thinker.Cache.Entries.{SimilarityMode, Match, Backend, outlasts, touch, evict}
use vibe_thinker.Cache.Results.{
  ResultCache, hit, miss, lookup, lookup_local, lookup_exact, find_exact, hit_of,
}
use vibe_thinker.Cache.Insert.{Write, entry_of, metadata_of, best_score_of, insert, mirror}
use vibe_thinker.Cache.Trust.{should_cache-trusted}
use vibe_thinker.Cache.Reads.{Served, lookup-Served}
use vibe_thinker.Cache.Eviction.{Evicted}
use vibe_thinker.Cache.Writes.{new_entry, insert-Evicted, insert-full}
use vibe_thinker.Cache.Recall.{inserted, lookup-insert, lookup-agentdb_only}
use vibe_thinker.Cache.Trajectories.{Trajectories, retrieve, gather_exact}
use vibe_thinker.Cache.Retrieval.{Warranted, retrieve-Warranted}
use vibe_thinker.Cache.Kept.{IsLearned, IsKept}
use vibe_thinker.Cache.Learned.{
  Call, stores, synthesizes, retrieves, removes, reloads, is_synthesis, calls, calls-Learned,
}
use vibe_thinker.Cache.Learning.{is_learned}
use vibe_thinker.Cache.Masters.{master, master-forgotten}
use vibe_thinker.Cache.Routes.{normalize, put_item}
use vibe_thinker.Cache.Recency.{Put, put_item-Put}

-- Every text has the same embedding, and the store is the list of its matches.
abbrev backend : Backend (List Match)
backend = record {
  encode = λ s. pos 1 ∷ [];
  cosine = λ u v. pos 1000;
  ranking = λ sims. 0 ∷ [];
  search = λ s v k. take k s;
  upsert = λ s id v m. some (record { vector_id = id; similarity = pos 1000; metadata = m } ∷ s);
}

abbrev id_of : ℕ → String
id_of n = "clr"

abbrev write : Write
write = record {
  problem = "2+2";
  best_answer = "4";
  best_score = 970;
  k = 6;
  trajectory_count = 2;
  verified = true;
  verification_method = "math_verifier";
  claim_count = 5;
  answer_present = true;
  deterministic_check = some 1000;
  failure = none;
  transport_failures = 0;
  model_failures = 0;
}

abbrev empty : ResultCache (List Match)
empty = record {
  entries = [];
  matrix = none;
  file = none;
  store = none;
  mode = SimilarityMode.none_mode;
  has_model = false;
  agentdb_only = false;
  similarity_threshold = pos 920;
  min_score = 700;
  max_entries = 1;
  autosave = true;
}

abbrev filled : ResultCache (List Match)
filled = insert backend id_of write 7 empty

-- The local entry answers, and the read is counted.
filled_answers : (lookup backend "2+2" false filled).1 ≡ hit (inserted backend id_of write 7 empty)
unfolding lookup lookup_local lookup_exact find_exact insert mirror evict entry_of is_trustworthy
    hit_of is_bad is_blank strip
filled_answers = refl

lookup-Served_example : Served backend "2+2" filled (inserted backend id_of write 7 empty)
lookup-Served_example =
    lookup-Served backend "2+2" filled (inserted backend id_of write 7 empty) filled_answers

lookup-insert_example :
    (lookup backend "2+2" false (insert backend id_of write 7 empty)).1
    ≡ hit (inserted backend id_of write 7 empty)
unfolding should_cache find_exact is_bad strip
lookup-insert_example =
    lookup-insert backend id_of write 7 empty refl (omega arith) (omega arith) refl refl refl

should_cache-trusted_example :
    is_trustworthy (entry_of write [] 7) true ≡ not (write.verification_method =s self_claims_only)
unfolding should_cache is_bad strip
should_cache-trusted_example = should_cache-trusted write [] 7 false true refl

insert-Evicted_example :
    Evicted best_score_of empty.max_entries
      (empty.entries ++ new_entry backend id_of write 7 empty ∷ [])
      (insert backend id_of write 7 empty).entries
insert-Evicted_example = insert-Evicted backend id_of write 7 empty

abbrev read_once : ResultCache (List Match)
read_once = record empty { entries = touch (entry_of write [] 1) ∷ [] }

insert-full_example :
    (insert backend id_of write 7 read_once).entries
    ≡ sorted (outlasts best_score_of) read_once.entries
insert-full_example = insert-full backend id_of write 7 read_once refl (omega arith, tt)

abbrev stored : List Match
stored = record { vector_id = "clr"; similarity = pos 1000; metadata = metadata_of write 7 } ∷ []

abbrev remote : ResultCache (List Match)
remote = record empty { store = some stored; agentdb_only = true; has_model = true }

lookup-agentdb_only_example : (lookup backend "2+2" false remote).1 ≡ miss
lookup-agentdb_only_example =
    lookup-agentdb_only backend "2+2" false remote stored refl refl ((write, 7, refl), tt)

abbrev memory : Trajectories (List Match)
memory = record {
  entries = [];
  matrix = none;
  file = none;
  store = none;
  mode = SimilarityMode.embeddings_mode;
  has_model = true;
  agentdb_only = false;
  retrieval_threshold = pos 700;
  max_entries = 2;
  max_few_shot = 3;
  autosave = true;
}

abbrev history : List Call
history =
    stores "2+2" "4" 900 "math_verifier" "math" "clr" none 3
    ∷ stores "3+3" "7" 900 self_claims_only "math" "clr" none 4
    ∷ retrieves "2+2" (some "math")
    ∷ removes (1 ∷ [])
    ∷ reloads (some (entry_of write [] 1 ∷ []))
    ∷ synthesizes "q" "a rule" "math" 3 ("2+2" ∷ []) 9
    ∷ []

calls-Learned_example :
    (All IsKept memory.entries → All IsKept (calls backend id_of history memory).entries)
    × (All (λ x. is_synthesis x ≡ false) history
        → All IsLearned memory.entries
        → All IsLearned (calls backend id_of history memory).entries)
calls-Learned_example = calls-Learned backend id_of history memory

retrieve-Warranted_example :
    let t =
      calls backend id_of (stores "2+2" "4" 900 "math_verifier" "math" "clr" none 3 ∷ []) memory in
    Warranted backend "2+2" (some "math") t (retrieve backend "2+2" (some "math") t).1.examples
retrieve-Warranted_example =
    retrieve-Warranted backend "2+2" (some "math")
      (calls backend id_of (stores "2+2" "4" 900 "math_verifier" "math" "clr" none 3 ∷ []) memory)

abbrev rule : Entry
rule = master "q" "a rule" 0 "math" 3 ("2+2" ∷ []) [] 9 false

master-forgotten_example :
    (gather_exact 3 none "q" 0 0 ([] ++ rule ∷ []) ≡ gather_exact 3 none "q" 0 0 [])
    × (keep is_learned ([] ++ rule ∷ []) ≡ keep is_learned [])
    × (is_trustworthy rule false ≡ false)
master-forgotten_example = master-forgotten "q" "a rule" 0 "math" 3 ("2+2" ∷ []) [] 9 3 none "q" []

abbrev routes : List (Text × ℕ)
routes = (b'a' ∷ [], 1) ∷ []

put_item-Put_example :
    (items : List (Text × ℕ)) × (put_item 1 " B " 2 routes ≡ some items)
    × Put 1 (normalize " B ") 2 routes items
put_item-Put_example = put_item-Put 1 " B " 2 routes (omega arith) (omega arith)
