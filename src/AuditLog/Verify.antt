-- ===== src/AuditLog/Verify.antt =====
-- `verify_chain` of bitemporal_log.py.
use vibe_thinker.Prelude.{
  ℕ, ◌+◌, String, Bool, true, false, not, ◌&&◌, ◌||◌, List, [], ◌∷◌, ◌++◌, Option, none, some, ◌==◌,
  ◌=s◌, if◌then◌else◌,
}
use vibe_thinker.AuditLog.Entry.{
  value_of, Content, Entry, Line, schema_version, read_all, read_strict,
}
use vibe_thinker.AuditLog.Signer.{Signer, verify}

pub data Problem : Type 0 where
  malformed_line missing_record_hash missing_previous_hash missing_sequence_number : Problem
  missing_schema_version invalid_schema_version duplicate_sequence unexpected_sequence : Problem
  previous_hash_mismatch record_hash_mismatch missing_signature signature_mismatch : Problem

abbrev pub is_missing : {A : Type 0} → Option A → Bool
is_missing none = true
is_missing (some a) = false

abbrev pub same_hash : Option String → Option String → Bool
same_hash none none = true
same_hash (some a) (some b) = a =s b
same_hash _ _ = false

abbrev pub contains : List ℕ → ℕ → Bool
contains [] n = false
contains (m ∷ ms) n = (m == n) || contains ms n

-- A problem that is reported if the test holds.
abbrev pub flag : Bool → Problem → List Problem
flag true p = p ∷ []
flag false p = []

abbrev pub schema_problems : Option ℕ → List Problem
schema_problems none = missing_schema_version ∷ []
schema_problems (some v) = flag (not (v == schema_version)) invalid_schema_version

abbrev pub sequence_problems : Bool → Option ℕ → List ℕ → ℕ → List Problem
sequence_problems strict none seen expected = []
sequence_problems strict (some n) seen expected =
    flag (strict && contains seen n) duplicate_sequence
    ++ flag (not (n == expected)) unexpected_sequence

abbrev pub seen_with : Option ℕ → List ℕ → List ℕ
seen_with none seen = seen
seen_with (some n) seen = n ∷ seen

module _ (digest : Content → String) (signer : Option Signer) where
  abbrev pub hash_problems : Option String → Content → List Problem
  hash_problems none c = []
  hash_problems (some h) c = flag (not (h =s digest c)) record_hash_mismatch

  abbrev pub signature_problems : Entry → List Problem
  signature_problems e = elim signer [
    | none ↦ []
    | some s ↦ elim e.signature [
      | none ↦ missing_signature ∷ []
      | some sig ↦ flag (not (verify s e.content sig)) signature_mismatch
    ]
  ]

  -- The checks of an entry that has its hash and, in strict mode, its number.
  abbrev pub entry_problems : Bool → Option String → ℕ → List ℕ → Entry → List Problem
  entry_problems strict prev expected seen e =
      (if strict
        then flag (is_missing e.content.previous_hash) missing_previous_hash
          ++ schema_problems e.content.schema_version
        else [])
      ++ (sequence_problems strict (value_of e.content.sequence_number) seen expected
          ++ (flag (not (same_hash (value_of e.content.previous_hash) prev)) previous_hash_mismatch
              ++ (hash_problems (value_of e.record_hash) e.content ++ signature_problems e)))

  -- The loop, with `prev_hash`, `expected_seq` and `seen_seqs`; an entry without its hash, or in
  -- strict mode without its number, is left at once.
  unfoldable pub verify_entries : Bool → Option String → ℕ → List ℕ → List Entry → List Problem
  verify_entries strict prev expected seen [] = []
  verify_entries strict prev expected seen (e ∷ es) =
      let no_hash = missing_record_hash ∷ verify_entries strict none (expected + 1) seen es in
      let no_number =
        flag (is_missing e.content.previous_hash) missing_previous_hash
        ++ missing_sequence_number ∷ verify_entries strict prev (expected + 1) seen es in
      let whole =
        entry_problems strict prev expected seen e
        ++ verify_entries strict (value_of e.record_hash) (expected + 1)
            (seen_with (value_of e.content.sequence_number) seen) es in
      if strict && is_missing e.record_hash
      then no_hash
      else if strict && is_missing e.content.sequence_number
      then no_number
      else whole

  abbrev pub strict_problems : Option (List Entry) → List Problem
  strict_problems none = malformed_line ∷ []
  strict_problems (some es) = verify_entries true none 1 [] es

  -- The list of errors; the log is valid if it is empty.
  unfoldable pub verify_chain : Bool → List Line → List Problem
  unfolding verify_entries read_strict read_all verify
  verify_chain true lines = strict_problems (read_strict lines)
  verify_chain false lines = verify_entries false none 1 [] (read_all lines)
