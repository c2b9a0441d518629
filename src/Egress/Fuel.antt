-- ===== src/Egress/Fuel.antt =====
-- The fuel of the loops of `extract_sni` of sandbox/sni_proxy.py.
use vibe_thinker.Prelude.{ℕ, zero, suc, ◌+◌, ◌≤◌, ◌≡◌, refl, List, arith, length}
use vibe_thinker.Egress.Sni.{short_at, find_name, find_extension}

-- Any two amounts of fuel that reach past the end of the handshake find the same name.
pub find_name-fuel :
    (fuel fuel' : ℕ) (bytes : List ℕ) (pos end : ℕ)
    → length bytes ≤ fuel + pos
    → length bytes ≤ fuel' + pos
    → find_name fuel bytes pos end ≡ find_name fuel' bytes pos end
unfolding find_name
find_name-fuel zero zero bytes pos end h h' = refl
find_name-fuel zero (suc fuel') bytes pos end h h' = ground (arith, h)
find_name-fuel (suc fuel) zero bytes pos end h h' = ground (arith, h')
find_name-fuel (suc fuel) (suc fuel') bytes pos end h h' =
    rw
      (find_name-fuel fuel fuel' bytes (pos + 3 + short_at bytes (pos + 1)) end (omega arith)
        (omega arith))
      refl

-- Any two amounts of fuel that reach past the end of the handshake find the same extension, so the
-- length of the handshake, which the parser starts with, is enough.
pub find_extension-fuel :
    (fuel fuel' : ℕ) (bytes : List ℕ) (pos end : ℕ)
    → length bytes ≤ fuel + pos
    → length bytes ≤ fuel' + pos
    → find_extension fuel bytes pos end ≡ find_extension fuel' bytes pos end
unfolding find_extension
find_extension-fuel zero zero bytes pos end h h' = refl
find_extension-fuel zero (suc fuel') bytes pos end h h' = ground (arith, h)
find_extension-fuel (suc fuel) zero bytes pos end h h' = ground (arith, h')
find_extension-fuel (suc fuel) (suc fuel') bytes pos end h h' =
    rw
      (find_extension-fuel fuel fuel' bytes (pos + 4 + short_at bytes (pos + 2)) end (omega arith)
        (omega arith))
      refl
