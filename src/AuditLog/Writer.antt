-- ===== src/AuditLog/Writer.antt =====
-- `record` of bitemporal_log.py, and `migrate_legacy_log`. The SHA-256 of a content, in the form that
-- `_hash_entry` gives it, is a parameter.
use vibe_thinker.Prelude.{
  ℕ, ◌+◌, String, List, [], ◌∷◌, ◌++◌, Bool, false, Option, none, some, length,
}
use vibe_thinker.AuditLog.Entry.{
  value_of, Body, Content, Signature, Entry, Line, written, schema_version, last_entry,
}
use vibe_thinker.AuditLog.Signer.{Signer, sign}

-- `last.get("record_hash") if last else None`
abbrev pub hash_of : Option Entry → Option String
hash_of none = none
hash_of (some last) = value_of last.record_hash

-- `_next_sequence_number`; `none` is the TypeError for a last number that is null.
abbrev pub next_sequence : Option Entry → Option ℕ
next_sequence none = some 1
next_sequence (some last) = elim last.content.sequence_number [
  | none ↦ some 1
  | some seq ↦ elim seq [ none ↦ none | some n ↦ some (n + 1) ]
]

module _ (digest : Content → String) where
  -- `if self._signer is not None: entry["signature"] = ...`; `none` is the signer's exception.
  abbrev pub signature_of : Option Signer → Content → Option (Option Signature)
  signature_of none c = some none
  signature_of (some s) c = elim (sign s c) [ none ↦ none | some sig ↦ some (some sig) ]

  abbrev pub sealed : Option Signer → Content → Option Entry
  sealed signer c = elim (signature_of signer c) [
    | none ↦ none
    | some sig ↦
        some (record { content = c; record_hash = some (some (digest c)); signature = sig })
  ]

  abbrev pub content_of : Option String → ℕ → Body → Content
  content_of previous seq body = record {
    schema_version = some schema_version;
    sequence_number = some (some seq);
    previous_hash = some previous;
    body = body;
  }

  -- `none` stands for an exception, with nothing written.
  unfoldable pub record_entry : Option Signer → Body → List Line → Option (List Line × Entry)
  unfolding last_entry sign
  record_entry signer body lines =
      let last = last_entry lines in
      elim (next_sequence last) [
        | none ↦ none
        | some seq ↦ elim (sealed signer (content_of (hash_of last) seq body)) [
          | none ↦ none
          | some e ↦ some (lines ++ written e ∷ [], e)
        ]
      ]

  -- The loop of the migration, on the bodies made of the legacy rows: it signs nothing.
  unfoldable pub migrate_rows : Option String → ℕ → List Body → List Line
  migrate_rows previous seq [] = []
  migrate_rows previous seq (body ∷ rows) =
      let c = content_of previous seq body in
      written (record { content = c; record_hash = some (some (digest c)); signature = none })
      ∷ migrate_rows (some (digest c)) (seq + 1) rows

  -- `migrate_legacy_log`, on the legacy file's rows and the output file; `none` is the refusal to
  -- write to a file that is there. The file that is written is new, or truncated by `overwrite`.
  unfoldable pub migrate_legacy_log :
      Option (List Body) → Option (List Line) → Bool → Option (Option (List Line) × ℕ)
  unfolding migrate_rows
  migrate_legacy_log none out overwrite = some (out, 0)
  migrate_legacy_log (some rows) (some old) false = none
  migrate_legacy_log (some rows) out overwrite = some (some (migrate_rows none 1 rows), length rows)
