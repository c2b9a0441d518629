-- ===== src/Cache/Masters.antt =====
-- The master trajectories of persistent_cache.py that were not proven again.
use vibe_thinker.Prelude.{
  ℕ, suc, ◌≡◌, refl, String, Bool, false, List, [], ◌∷◌, ◌++◌, Option, arith, keep,
}
use vibe_thinker.Cache.Entry.{Vector, Entry, is_trustworthy}
use vibe_thinker.Cache.Trajectories.{gather_exact}
use vibe_thinker.Cache.Learning.{is_learned, master_entry}

module _ (query answer : String) (score : ℕ) (task : String) (count : ℕ) (queries : List String)
    (embedding : Vector) (now : ℕ) where
  abbrev pub master : Bool → Entry
  master proven = master_entry proven query answer score task count queries embedding now

  master-distrusted : (allow_weak : Bool) → is_trustworthy (master false) allow_weak ≡ false
  unfolding is_trustworthy
  master-distrusted allow_weak = ground arith

  keep-master : (es : List Entry) → keep is_learned (es ++ master false ∷ []) ≡ keep is_learned es
  keep-master [] = refl
  keep-master (e ∷ es) = rw (keep-master es) refl

  gather-master :
      (max_few_shot : ℕ) (task_type : Option String) (q : String) (i seen : ℕ) (es : List Entry)
      → gather_exact max_few_shot task_type q i seen (es ++ master false ∷ [])
        ≡ gather_exact max_few_shot task_type q i seen es
  unfolding gather_exact
  gather-master max_few_shot task_type q i seen [] = ground (arith, master-distrusted false)
  gather-master max_few_shot task_type q i seen (e ∷ es) =
      rw
        (
          gather-master max_few_shot task_type q (suc i) seen es,
          gather-master max_few_shot task_type q (suc i) (suc seen) es,
        )
        refl

  -- A master trajectory that `store_synthesized` appends is of no use: it is never trusted, so no
  -- search by exact match gives it or is changed by it, and the next load drops it.
  pub master-forgotten :
      (max_few_shot : ℕ) (task_type : Option String) (q : String) (es : List Entry)
      → (gather_exact max_few_shot task_type q 0 0 (es ++ master false ∷ [])
          ≡ gather_exact max_few_shot task_type q 0 0 es)
        × (keep is_learned (es ++ master false ∷ []) ≡ keep is_learned es)
        × (is_trustworthy (master false) false ≡ false)
  master-forgotten max_few_shot task_type q es =
      (gather-master max_few_shot task_type q 0 0 es, keep-master es, master-distrusted false)
