-- ===== src/Cache/Routes.antt =====
-- `PersistentRouteCache` of persistent_cache.py: two ordered dicts with eviction from the front, as
-- lists of their items. A key is lowered and stripped (ASCII letters).
use vibe_thinker.Prelude.{
  ℕ, String, List, [], ◌∷◌, ◌++◌, Option, none, some, leb, ltb, if◌then◌else◌, length,
}
use vibe_thinker.Json.{codes}
use vibe_thinker.Text.{Text, same_codes, lowered, strip}

unfoldable pub normalize : String → Text
normalize text = strip (lowered (codes text))

module _ {ℓ} {V : Type ℓ} where
  abbrev pub find : Text → List (Text × V) → Option V
  find k [] = none
  find k ((j, v) ∷ items) = if same_codes j k then some v else find k items

  -- The items without the key.
  abbrev pub delete : Text → List (Text × V) → List (Text × V)
  delete k [] = []
  delete k ((j, v) ∷ items) =
      let rest = delete k items in if same_codes j k then rest else (j, v) ∷ rest

  -- `d[k] = v` on a key that is there.
  abbrev pub replace : Text → V → List (Text × V) → List (Text × V)
  replace k v [] = []
  replace k v ((j, w) ∷ items) =
      let rest = replace k v items in if same_codes j k then (j, v) ∷ items else (j, w) ∷ rest

  -- `d[k] = v` on any key.
  abbrev pub assign : Text → V → List (Text × V) → List (Text × V)
  assign k v items = elim (find k items) [
    | none ↦ items ++ (k, v) ∷ []
    | some w ↦ replace k v items
  ]

  -- `d.popitem(last=False)`
  abbrev pub pop_first : List (Text × V) → Option (List (Text × V))
  pop_first [] = none
  pop_first (x ∷ items) = some items

  -- `get_embedding` and `get_route`: a key that is there moves to the end.
  unfoldable pub get_item : String → List (Text × V) → List (Text × V) × Option V
  get_item key items =
      let k = normalize key in
      elim (find k items) [
        | none ↦ (items, none)
        | some v ↦ (delete k items ++ (k, v) ∷ [], some v)
      ]

  -- `put_embedding` and `put_route`: a new key at capacity pushes out the first one. Without items
  -- and capacity `popitem` raises.
  unfoldable pub put_item : ℕ → String → V → List (Text × V) → Option (List (Text × V))
  put_item cache_size key v items =
      let k = normalize key in
      elim (find k items) [
        | some w ↦ some (delete k items ++ (k, v) ∷ [])
        | none ↦
            if leb cache_size (length items)
            then elim (pop_first items) [ none ↦ none | some rest ↦ some (rest ++ (k, v) ∷ []) ]
            else some (items ++ (k, v) ∷ [])
      ]

  -- The loop of `_load`: each item is assigned, and what is over capacity leaves at the front.
  abbrev pub load_item : ℕ → Text → V → List (Text × V) → List (Text × V)
  load_item cache_size k v items =
      let items' = assign k v items in
      if ltb cache_size (length items')
      then elim (pop_first items') [ none ↦ items' | some rest ↦ rest ]
      else items'

  unfoldable pub load_items : ℕ → List (Text × V) → List (Text × V) → List (Text × V)
  load_items cache_size [] items = items
  load_items cache_size ((k, v) ∷ more) items =
      load_items cache_size more (load_item cache_size k v items)
