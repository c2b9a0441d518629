-- ===== src/Egress/Sni.antt =====
-- `extract_sni` of sandbox/sni_proxy.py: the host name in the first bytes of a TLS connection.
use vibe_thinker.Prelude.{
  ℕ, zero, suc, ◌+◌, ◌*◌, not, ◌&&◌, ◌||◌, List, [], ◌∷◌, Option, none, some, ltb, leb, ◌==◌,
  length, if◌then◌else◌,
}
use vibe_thinker.Text.{Text}

-- `data[i]`; every read of the parser is behind a test of the length.
abbrev pub byte_at : List ℕ → ℕ → ℕ
byte_at [] i = 0
byte_at (b ∷ bytes) zero = b
byte_at (b ∷ bytes) (suc i) = byte_at bytes i

abbrev pub take : ℕ → List ℕ → List ℕ
take zero bytes = []
take (suc n) [] = []
take (suc n) (b ∷ bytes) = b ∷ take n bytes

abbrev pub drop : ℕ → List ℕ → List ℕ
drop zero bytes = bytes
drop (suc n) [] = []
drop (suc n) (b ∷ bytes) = drop n bytes

-- `int.from_bytes(data[i:i+2], "big")`, where both bytes are there.
abbrev pub short_at : List ℕ → ℕ → ℕ
short_at bytes i = byte_at bytes i * 256 + byte_at bytes (i + 1)

-- `decode("ascii", errors="replace")`
abbrev pub decode : List ℕ → Text
decode [] = []
decode (b ∷ bytes) = (if ltb b 128 then b else 65533) ∷ decode bytes

-- The loop over the server names: each turn goes on by at least 3 bytes, so the fuel is the length.
unfoldable pub find_name : ℕ → List ℕ → ℕ → ℕ → Option Text
find_name zero bytes pos end = none
find_name (suc fuel) bytes pos end =
    let name_len = short_at bytes (pos + 1) in
    let rest = find_name fuel bytes (pos + 3 + name_len) end in
    if leb (pos + 3) end && leb (pos + 3) (length bytes)
    then (if byte_at bytes pos == 0
        then (if ltb (length bytes) (pos + 3 + name_len)
            then none
            else some (decode (take name_len (drop (pos + 3) bytes))))
        else rest)
    else none

abbrev pub server_name : List ℕ → ℕ → Option Text
server_name bytes pos =
    if ltb (length bytes) (pos + 2)
    then none
    else find_name (length bytes) bytes (pos + 2) (pos + 2 + short_at bytes pos)

-- The loop over the extensions: each turn goes on by at least 4 bytes.
unfoldable pub find_extension : ℕ → List ℕ → ℕ → ℕ → Option Text
unfolding find_name
find_extension zero bytes pos end = none
find_extension (suc fuel) bytes pos end =
    let rest = find_extension fuel bytes (pos + 4 + short_at bytes (pos + 2)) end in
    if leb (pos + 4) end && leb (pos + 4) (length bytes)
    then (if short_at bytes pos == 0 then server_name bytes (pos + 4) else rest)
    else none

abbrev pub after_compression : List ℕ → ℕ → Option Text
after_compression hs pos =
    if ltb (length hs) (pos + 2)
    then none
    else find_extension (length hs) hs (pos + 2) (pos + 2 + short_at hs pos)

abbrev pub after_ciphers : List ℕ → ℕ → Option Text
after_ciphers hs pos =
    if ltb (length hs) (pos + 1) then none else after_compression hs (pos + 1 + byte_at hs pos)

abbrev pub after_session : List ℕ → ℕ → Option Text
after_session hs pos =
    if ltb (length hs) (pos + 2) then none else after_ciphers hs (pos + 2 + short_at hs pos)

abbrev pub handshake_name : List ℕ → Option Text
handshake_name hs =
    if ltb (length hs) 4 || not (byte_at hs 0 == 1)
    then none
    else if leb (length hs) 38
    then none
    else after_session hs (39 + byte_at hs 38)

unfoldable pub extract_sni : List ℕ → Option Text
unfolding find_extension
extract_sni hello =
    if ltb (length hello) 5 || not (byte_at hello 0 == 22)
    then none
    else if ltb (length hello) (5 + short_at hello 3)
    then none
    else handshake_name (drop 5 hello)
