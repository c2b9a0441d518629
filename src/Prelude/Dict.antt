-- ===== src/Prelude/Dict.antt =====
-- Python's `dict` with text keys, as the list of its items in insertion order: `d[k] = v` keeps the
-- place of a key that is there and appends a new one, and iteration follows the list.
use Prim.Native.String.{String}
use mathlib.Core.Path.{◌≡◌, refl, sym, subst, subst₂}
use mathlib.Core.Logic.{inl, inr}
use mathlib.Core.List.{List, [], ◌∷◌}
use mathlib.Core.Option.{Option, none, some}
use native.Mathlib.Omega.{arith}
use text.Mathlib.TextEquality.{eq_iff}
use vibe_thinker.Prelude.Tests.{Bool-cases, ◌=s◌, if◌then◌else◌}

abbrev pub Dict {ℓ} : Type ℓ → Type ℓ
Dict V = List (String × V)

module _ {ℓ} {V : Type ℓ} where
  -- d.get(k)
  unfoldable pub get : Dict V → String → Option V
  get [] k = none
  get ((j, v) ∷ d) k = if j =s k then some v else get d k

  -- d[k] = v
  unfoldable pub put : Dict V → String → V → Dict V
  put [] k v = (k, v) ∷ []
  put ((j, w) ∷ d) k v = if j =s k then (j, v) ∷ d else (j, w) ∷ put d k v

  -- d.pop(k, None)
  unfoldable pub remove : Dict V → String → Dict V
  remove [] k = []
  remove ((j, v) ∷ d) k = let rest = remove d k in if j =s k then rest else (j, v) ∷ rest

  -- d.values()
  abbrev pub values : Dict V → List V
  values [] = []
  values ((j, v) ∷ d) = v ∷ values d

  -- Each key is not among the later ones.
  abbrev pub Distinct : Dict V → Type ℓ
  Distinct [] = Unit
  Distinct ((j, v) ∷ d) = (get d j ≡ none) × Distinct d

  pub get-put :
      (d : Dict V) (k j : String) (v : V) → get (put d k v) j ≡ (if k =s j then some v else get d j)
  unfolding get put
  get-put [] k j v = refl
  get-put ((i, w) ∷ d) k j v = ground (arith, eq_iff k j, eq_iff i k, eq_iff i j, get-put d k j v)

  pub get-remove :
      (d : Dict V) (k j : String) → get (remove d k) j ≡ (if k =s j then none else get d j)
  unfolding get remove
  get-remove [] k j = ground arith
  get-remove ((i, w) ∷ d) k j = ground (arith, eq_iff k j, eq_iff i k, eq_iff i j, get-remove d k j)

  pub put-Distinct : (d : Dict V) (k : String) (v : V) → Distinct d → Distinct (put d k v)
  unfolding get put
  put-Distinct [] k v h = (refl, tt)
  put-Distinct ((j, w) ∷ d) k v h =
      ground (arith, eq_iff j k, eq_iff k j, get-put d k j v, put-Distinct d k v h.1)

-- A statement about every item, and what each operation needs to keep it.
module _ {ℓ κ} {V : Type ℓ} where
  abbrev pub Items : (String → V → Type κ) → Dict V → Type κ
  Items P [] = Unit
  Items P ((j, v) ∷ d) = P j v × Items P d

  pub Items-get :
      (P : String → V → Type κ) (d : Dict V) (k : String) (v : V)
      → Items P d
      → get d k ≡ some v
      → P k v
  unfolding get
  Items-get P [] k v h e = cc
  Items-get P ((j, w) ∷ d) k v h e = elim (Bool-cases (j =s k)) [
    | inl same ↦ subst₂ P ((eq_iff j k).0 same) (ground arith) h.0
    | inr other ↦ Items-get P d k v h.1 (rw other at e)
  ]

  pub Items-put :
      (P : String → V → Type κ) (d : Dict V) (k : String) (v : V)
      → Items P d
      → P k v
      → Items P (put d k v)
  unfolding put
  Items-put P [] k v h p = (p, tt)
  Items-put P ((j, w) ∷ d) k v h p = elim (Bool-cases (j =s k)) [
    | inl same ↦ rw same (subst (λ i. P i v) (sym ((eq_iff j k).0 same)) p, h.1)
    | inr other ↦ rw other (h.0, Items-put P d k v h.1 p)
  ]

  pub Items-mono :
      (P Q : String → V → Type κ) (d : Dict V)
      → ((k : String) (v : V) → P k v → Q k v)
      → Items P d
      → Items Q d
  Items-mono P Q [] f h = tt
  Items-mono P Q ((j, w) ∷ d) f h = (f j w h.0, Items-mono P Q d f h.1)

pub ruleset dict_laws = (get-put, get-remove)
