-- ===== src/AuditLog/Entry.antt =====
-- The entries and the lines of the log file of bitemporal_log.py. An instant is a number (the source
-- compares ISO texts). `Field A` is a key's value: `none` if the key is missing, `some none` if it is
-- null; such are the keys that verification looks at.
use vibe_thinker.Prelude.{ℕ, String, List, [], ◌∷◌, Option, none, some}
use vibe_thinker.Prelude.Int.{ℤ}
use vibe_thinker.Json.{Json}

abbrev pub Field : Type 0 → Type 0
Field A = Option (Option A)

-- `entry.get(key)`
abbrev pub value_of : {A : Type 0} → Field A → Option A
value_of none = none
value_of (some v) = v

pub record Body : Type 0 where
  pub record_id : String
  pub valid_time : ℕ
  pub transaction_time : ℕ
  pub job_id : String
  pub event : String
  pub status : String
  pub query : String
  pub priority : ℤ
  pub force_route : Option String
  pub extra : Json
  pub correction_of : Option String

-- What the hash and the signature cover.
pub record Content : Type 0 where
  pub schema_version : Option ℕ
  pub sequence_number : Field ℕ
  pub previous_hash : Field String
  pub body : Body

-- A signature's text by its scheme; a text with another prefix is `unknown`.
pub data Signature : Type 0 where
  hmac_sha256 ed25519 unknown : String → Signature

pub record Entry : Type 0 where
  pub content : Content
  pub record_hash : Field String
  pub signature : Option Signature

-- A line of the file: blank, no JSON, or an entry.
pub data Line : Type 0 where
  blank malformed : Line
  written : Entry → Line

abbrev pub schema_version : ℕ
schema_version = 2

-- `read_all`: what is no JSON is skipped. A file that is not there reads as one with no line.
unfoldable pub read_all : List Line → List Entry
read_all [] = []
read_all (written e ∷ lines) = e ∷ read_all lines
read_all (line ∷ lines) = read_all lines

-- `iter_raw_records_strict`: `none` is the error that the first malformed line raises.
unfoldable pub read_strict : List Line → Option (List Entry)
read_strict [] = some []
read_strict (blank ∷ lines) = read_strict lines
read_strict (malformed ∷ lines) = none
read_strict (written e ∷ lines) = elim (read_strict lines) [ none ↦ none | some es ↦ some (e ∷ es) ]

abbrev pub last_of : Option Entry → List Line → Option Entry
last_of last [] = last
last_of last (written e ∷ lines) = last_of (some e) lines
last_of last (line ∷ lines) = last_of last lines

-- `_last_entry`
unfoldable pub last_entry : List Line → Option Entry
last_entry lines = last_of none lines
