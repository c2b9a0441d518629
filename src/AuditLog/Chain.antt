-- ===== src/AuditLog/Chain.antt =====
-- The form of the chain that `record` of bitemporal_log.py writes.
use vibe_thinker.Prelude.{
  ℕ, suc, ◌≤◌, ◌≡◌, refl, subst, ap, String, Bool, true, false, List, [], ◌∷◌, ◌++◌, Option, none,
  some, arith, eq_refl,
}
use vibe_thinker.AuditLog.Entry.{
  Field, Body, Content, Signature, Entry, Line, blank, malformed, written, schema_version, last_of,
  last_entry, read_all, read_strict,
}
use vibe_thinker.AuditLog.Signer.{Signer, sign, Accepts, verify-sign}
use vibe_thinker.AuditLog.Writer.{
  hash_of, next_sequence, signature_of, sealed, content_of, record_entry,
}
use vibe_thinker.AuditLog.Verify.{
  same_hash, contains, verify_entries, entry_problems, signature_problems,
}

-- The writes of a run, one after the other; `none` if the signer refuses.
unfoldable pub record_all :
    (Content → String) → Option Signer → List Body → List Line → Option (List Line)
unfolding record_entry
record_all digest signer [] lines = some lines
record_all digest signer (body ∷ bodies) lines = elim (record_entry digest signer body lines) [
  | none ↦ none
  | some (lines', e) ↦ record_all digest signer bodies lines'
]

-- A signer that can sign, and whose public key accepts what its private key has signed.
abbrev pub Works : Option Signer → Type 0
Works none = Unit
Works (some s) = Accepts s × ((c : Content) → (sig : Signature) × (sign s c ≡ some sig))

-- A signer that works signs, and then finds nothing wrong with the signature.
signs :
    (digest : Content → String) (signer : Option Signer) (c : Content)
    → Works signer
    → (sig : Option Signature) × (signature_of digest signer c ≡ some sig)
      × ((hash : Field String)
          → signature_problems digest signer
              (record { content = c; record_hash = hash; signature = sig })
            ≡ [])
signs digest none c w = (none, refl, λ hash. refl)
signs digest (some s) c w =
    let (sig, made) = w.1 c in
    (some sig, rw (made, signature_of) refl, λ hash. rw (verify-sign s c sig w.0 made) refl)

module _ (digest : Content → String) (signer : Option Signer) where
  -- The entry is whole, stands at its number, continues the chain and is signed where that is asked.
  pub record Sealed (prev : Option String) (seq : ℕ) (e : Entry) : Type 0 where
    pub schema : e.content.schema_version ≡ some schema_version
    pub number : e.content.sequence_number ≡ some (some seq)
    pub previous : e.content.previous_hash ≡ some prev
    pub hash : e.record_hash ≡ some (some (digest e.content))
    pub signed : signature_problems digest signer e ≡ []

  abbrev pub Chain : Option String → ℕ → List Line → Type 0
  Chain prev seq [] = Unit
  Chain prev seq (blank ∷ lines) = ⊥
  Chain prev seq (malformed ∷ lines) = ⊥
  Chain prev seq (written e ∷ lines) =
      Sealed prev seq e × Chain (some (digest e.content)) (suc seq) lines

  pub read-Chain :
      (prev : Option String) (seq : ℕ) (lines : List Line)
      → Chain prev seq lines
      → read_strict lines ≡ some (read_all lines)
  unfolding read_strict read_all
  read-Chain prev seq [] c = refl
  read-Chain prev seq (blank ∷ lines) c = absurd c
  read-Chain prev seq (malformed ∷ lines) c = absurd c
  read-Chain prev seq (written e ∷ lines) c =
      rw (read-Chain (some (digest e.content)) (suc seq) lines c.1) refl

  same_hash_refl : (h : Option String) → same_hash h h ≡ true
  same_hash_refl none = refl
  same_hash_refl (some h) = eq_refl h

  Sealed-no_problems :
      (strict : Bool) (prev : Option String) (seq : ℕ) (seen : List ℕ) (e : Entry)
      → contains seen seq ≡ false
      → Sealed prev seq e
      → entry_problems digest signer strict prev seq seen e ≡ []
  Sealed-no_problems strict prev seq seen e fresh s = ground (
    arith,
    s.schema,
    s.number,
    s.previous,
    s.hash,
    s.signed,
    fresh,
    same_hash_refl prev,
    eq_refl (digest e.content),
  )

  pub Chain-verify :
      (strict : Bool) (prev : Option String) (seq : ℕ) (seen : List ℕ) (lines : List Line)
      → ((m : ℕ) → seq ≤ m → contains seen m ≡ false)
      → Chain prev seq lines
      → verify_entries digest signer strict prev seq seen (read_all lines) ≡ []
  unfolding verify_entries read_all
  Chain-verify strict prev seq seen [] fresh c = refl
  Chain-verify strict prev seq seen (blank ∷ lines) fresh c = absurd c
  Chain-verify strict prev seq seen (malformed ∷ lines) fresh c = absurd c
  Chain-verify strict prev seq seen (written e ∷ lines) fresh c =
      let none_wrong = Sealed-no_problems strict prev seq seen e (fresh seq (omega arith)) c.0 in
      let later : (m : ℕ) → suc seq ≤ m → contains (seq ∷ seen) m ≡ false =
        λ m h. ground (arith, fresh m) in
      ground (
        arith,
        none_wrong,
        c.0.number,
        c.0.hash,
        Chain-verify strict (some (digest e.content)) (suc seq) (seq ∷ seen) lines later c.1,
      )

  -- The next entry continues the chain that the file ends in.
  next-last :
      (last : Option Entry) (prev : Option String) (seq : ℕ) (lines : List Line)
      → (hash_of last ≡ prev) × (next_sequence last ≡ some seq)
      → Chain prev seq lines
      → (n : ℕ) × (next_sequence (last_of last lines) ≡ some n)
        × ((e : Entry)
            → Sealed (hash_of (last_of last lines)) n e
            → Chain prev seq (lines ++ written e ∷ []))
  next-last last prev seq [] h c = (seq, h.1, λ e s. (subst (λ p. Sealed p seq e) h.0 s, tt))
  next-last last prev seq (blank ∷ lines) h c = absurd c
  next-last last prev seq (malformed ∷ lines) h c = absurd c
  next-last last prev seq (written x ∷ lines) h c =
      let here : (hash_of (some x) ≡ some (digest x.content))
          × (next_sequence (some x) ≡ some (suc seq)) =
        (rw c.0.hash refl, rw c.0.number (ap some (omega arith))) in
      let (n, next, more) = next-last (some x) (some (digest x.content)) (suc seq) lines here c.1 in
      (n, next, λ e s. (c.0, more e s))

  sealed-Sealed :
      (prev : Option String) (seq : ℕ) (body : Body)
      → Works signer
      → (e : Entry) × (sealed digest signer (content_of digest prev seq body) ≡ some e)
        × Sealed prev seq e
        × (e.content.body ≡ body)
  sealed-Sealed prev seq body w =
      let c = content_of digest prev seq body in
      let e : Option Signature → Entry =
        λ sig. record { content = c; record_hash = some (some (digest c)); signature = sig } in
      let (sig, made, ok) = signs digest signer c w in
      (
        e sig,
        rw (made, sealed) refl,
        record {
          schema = refl;
          number = refl;
          previous = refl;
          hash = refl;
          signed = ok (some (some (digest c)));
        },
        refl,
      )

  pub record_entry-Chain :
      (body : Body) (lines : List Line)
      → Works signer
      → Chain none 1 lines
      → (e : Entry) × (record_entry digest signer body lines ≡ some (lines ++ written e ∷ [], e))
        × Chain none 1 (lines ++ written e ∷ [])
        × (e.content.body ≡ body)
  unfolding record_entry last_entry
  record_entry-Chain body lines w c =
      let (n, next, more) = next-last none none 1 lines (refl, refl) c in
      let (e, made, s, same) = sealed-Sealed (hash_of (last_of none lines)) n body w in
      (e, rw (record_entry, next, made) refl, more e s, same)
