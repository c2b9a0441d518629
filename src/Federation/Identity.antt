-- ===== src/Federation/Identity.antt =====
-- `_extract_identity` of federation_server.py: whose reputation an outcome counts for.
use Prim.Native.String.{◌++◌}
use vibe_thinker.Prelude.{
  ◌≡◌, ◌≢◌, ◌⊎◌, inl, inr, String, List, [], ◌∷◌, Option, none, some, arith, Option-cases,
  if◌then◌else◌,
}
use vibe_thinker.Text.{same_codes, lowered}
use vibe_thinker.Json.{Json, str, codes}

-- What the server puts in `scope["ssl"]`: the sequences of RDNs, each a tuple of texts, and the
-- certificate if there is one (an empty one counts as none).
pub data Peer : Type 0 where
  plain : Peer
  tls : List (List (List String)) → Option String → Peer

-- `str.lower` on one letter of ASCII; no other letter becomes one of "commonname".
-- `len(rdn) >= 2 and rdn[0].lower() == "commonname"`
unfoldable pub common_name : List String → Option String
common_name (name ∷ value ∷ rest) =
    if same_codes (lowered (codes name)) (codes "commonname") then some value else none
common_name _ = none

abbrev pub or_else : Option String → Option String → Option String
or_else none b = b
or_else (some a) b = some a

unfoldable pub rdn_name : List (List String) → Option String
unfolding common_name
rdn_name [] = none
rdn_name (rdn ∷ rdns) = or_else (common_name rdn) (rdn_name rdns)

unfoldable pub subject_name : List (List (List String)) → Option String
unfolding rdn_name
subject_name [] = none
subject_name (rdns ∷ rest) = or_else (rdn_name rdns) (subject_name rest)

-- The first 16 digits of the SHA-256 of a certificate, and `str()` of a value that is no text, are
-- parameters.
module _ (fingerprint : String → String) (show : Json → String) where
  abbrev pub text_of : Json → String
  text_of (str s) = s
  text_of v = show v

  abbrev pub cert_identity : Option String → Json → String
  cert_identity none worker = "wid:" ++ text_of worker
  cert_identity (some cert) worker = "fp:" ++ fingerprint cert

  abbrev pub named_identity : Option String → Option String → Json → String
  named_identity none cert worker = cert_identity cert worker
  named_identity (some name) cert worker = "cn:" ++ name

  unfoldable pub extract_identity : Peer → Json → String
  unfolding subject_name
  extract_identity plain worker = cert_identity none worker
  extract_identity (tls subject cert) worker = named_identity (subject_name subject) cert worker

  -- With a certificate, or a common name in its subject, the identity does not depend on the id that
  -- the worker gives itself.
  pub extract_identity-sybil :
      (subject : List (List (List String))) (cert : Option String) (worker worker' : Json)
      → (cert ≢ none) ⊎ (subject_name subject ≢ none)
      → extract_identity (tls subject cert) worker ≡ extract_identity (tls subject cert) worker'
  unfolding extract_identity
  extract_identity-sybil subject cert worker worker' known =
      elim (Option-cases (subject_name subject)) [
        | inr (name, e) ↦ rw e
        | inl e ↦
            rw e (elim (Option-cases cert) [ inr (c, e') ↦ rw e' | inl e' ↦ absurd (ground arith) ])
      ]
