-- ===== src/AuditLog/Signer.antt =====
-- signers.py: the two schemes and their precedence. The HMAC of a content under the key and the
-- Ed25519 operations of the `cryptography` package are parameters, in hexadecimal.
use vibe_thinker.Prelude.{
  ◌≡◌, String, Bool, true, false, Option, none, some, arith, eq_refl, ◌=s◌, if◌then◌else◌,
}
use vibe_thinker.AuditLog.Entry.{Content, Signature, hmac_sha256, ed25519}

-- `hmac mac`; `ed_private sign check` can sign, `ed_public check` only verifies.
pub data Signer : Type 0 where
  hmac : (Content → String) → Signer
  ed_private : (Content → String) → (Content → String → Bool) → Signer
  ed_public : (Content → String → Bool) → Signer

-- `none` is the PermissionError of a signer that has only the public key.
unfoldable pub sign : Signer → Content → Option Signature
sign (hmac mac) c = some (hmac_sha256 (mac c))
sign (ed_private key check) c = some (ed25519 (key c))
sign (ed_public check) c = none

unfoldable pub verify : Signer → Content → Signature → Bool
verify (hmac mac) c (hmac_sha256 digest) = digest =s mac c
verify (ed_private key check) c (ed25519 sig) = check c sig
verify (ed_public check) c (ed25519 sig) = check c sig
verify _ c sig = false

-- `if hex:`: an empty text counts as none.
abbrev pub given : Option String → Option String
given none = none
given (some hex) = if hex =s "" then none else some hex

abbrev pub first_key : (String → Signer) → Option String → Option Signer → Option Signer
first_key load none other = other
first_key load (some hex) other = some (load hex)

-- The factory, over what loads a private key, a public key and a shared secret.
unfoldable pub make_signer :
    (String → Signer)
    → (String → Signer)
    → (String → Signer)
    → Option String
    → Option String
    → Option String
    → Option Signer
make_signer load_private load_public load_secret signing_key private_hex public_hex =
    first_key load_private (given private_hex)
      (first_key load_public (given public_hex) (first_key load_secret signing_key none))

-- What the `cryptography` package promises: the public key accepts what the private key signed.
abbrev pub Accepts : Signer → Type 0
Accepts (ed_private key check) = (c : Content) → check c (key c) ≡ true
Accepts _ = Unit

-- What a signer has signed, it verifies.
pub verify-sign :
    (s : Signer) (c : Content) (sig : Signature)
    → Accepts s
    → sign s c ≡ some sig
    → verify s c sig ≡ true
unfolding sign verify
verify-sign (hmac mac) c sig h e = ground (arith, eq_refl (mac c), e)
verify-sign (ed_private key check) c sig h e = ground (arith, h c, e)
verify-sign (ed_public check) c sig h e = cc
