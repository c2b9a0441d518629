-- ===== src/Json.antt =====
-- The values that `json.loads` gives, with Python's truth test, `isinstance` and `dict.get` on them
-- (used by federation_server.py and bitemporal_log.py).
use Prim.Native.Char.{code}
use vibe_thinker.Prelude.{
  ℕ, String, Bool, true, false, not, ◌&&◌, ◌||◌, List, [], ◌∷◌, ◌==◌, ◌=s◌, leb, length,
  if◌then◌else◌,
}
use vibe_thinker.Prelude.Int.{ℤ, pos, negsuc}

-- `float` holds an opaque code of the float, 0 for both zeros.
mutual
  pub data Json : Type 0 where
    null : Json
    bool : Bool → Json
    int : ℤ → Json
    float : ℕ → Json
    str : String → Json
    arr : Items → Json
    obj : Fields → Json

  pub data Items : Type 0 where
    nil : Items
    cons : Json → Items → Items

  pub data Fields : Type 0 where
    end : Fields
    field : String → Json → Fields → Fields

-- `bool(value)`
unfoldable pub truthy : Json → Bool
truthy null = false
truthy (bool b) = b
truthy (int (pos n)) = not (n == 0)
truthy (int (negsuc n)) = true
truthy (float n) = not (n == 0)
truthy (str s) = not (s =s "")
truthy (arr nil) = false
truthy (arr (cons x xs)) = true
truthy (obj end) = false
truthy (obj (field k v fs)) = true

-- `fields.get(key, default)`
unfoldable pub get_field : Fields → String → Json → Json
get_field end key default = default
get_field (field k v fs) key default = if k =s key then v else get_field fs key default

-- `key in fields`
unfoldable pub has_field : Fields → String → Bool
has_field end key = false
has_field (field k v fs) key = (k =s key) || has_field fs key

-- The code points of a text, so `len(s)` is their number.
abbrev pub codes : String → List ℕ
codes String.[] = []
codes (String.◌∷◌ c s) = code c ∷ codes s

abbrev pub text_len : String → ℕ
text_len s = length (codes s)

abbrev pub is_alnum : ℕ → Bool
is_alnum c =
    (leb b'a' c && leb c b'z') || ((leb b'A' c && leb c b'Z') || (leb b'0' c && leb c b'9'))

-- The branch for a text, or another one for any other value.
abbrev pub when_text {ℓ} : {A : Type ℓ} → Json → (String → A) → A → A
when_text (str s) f other = f s
when_text value f other = other

pub text_both {ℓ κ} :
    {A : Type ℓ} (P : A → Type κ) (value : Json) (f : String → A) (other : A)
    → ((s : String) → P (f s))
    → P other
    → P (when_text value f other)
text_both P null f other h k = k
text_both P (bool b) f other h k = k
text_both P (int n) f other h k = k
text_both P (float n) f other h k = k
text_both P (str s) f other h k = h s
text_both P (arr xs) f other h k = k
text_both P (obj fs) f other h k = k
