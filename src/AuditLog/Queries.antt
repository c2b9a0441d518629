-- ===== src/AuditLog/Queries.antt =====
-- The reads of bitemporal_log.py along an axis: `history`, `state_as_of`, `current_state`.
use vibe_thinker.Prelude.{
  ℕ, String, Bool, true, not, ◌&&◌, List, [], ◌∷◌, Option, none, some, ltb, leb, ◌=s◌, keep, mem,
  if◌then◌else◌,
}
use vibe_thinker.Prelude.Dict.{Dict, get, put}
use vibe_thinker.AuditLog.Entry.{Entry, Line, read_all}

pub data Axis : Type 0 where
  valid transaction : Axis

-- `_validate_axis`; `none` is the ValueError.
unfoldable pub validate_axis : String → Option Axis
validate_axis name =
    if name =s "valid" then some valid else if name =s "transaction" then some transaction else none

-- `e[key]`
abbrev pub time : Axis → Entry → ℕ
time valid e = e.content.body.valid_time
time transaction e = e.content.body.transaction_time

abbrev pub id_of : Entry → String
id_of e = e.content.body.record_id

abbrev pub job_of : Entry → String
job_of e = e.content.body.job_id

unfoldable pub superseded_ids : List Entry → List String
superseded_ids [] = []
superseded_ids (e ∷ es) = elim e.content.body.correction_of [
  | none ↦ superseded_ids es
  | some id ↦ id ∷ superseded_ids es
]

abbrev pub is_live : List String → Entry → Bool
is_live superseded e = not (mem (id_of e) superseded)

-- `sorted` is stable: an entry is put before the first later one that is not earlier.
unfoldable pub insert_by : Axis → Entry → List Entry → List Entry
insert_by axis e [] = e ∷ []
insert_by axis e (x ∷ xs) =
    if leb (time axis e) (time axis x) then e ∷ x ∷ xs else x ∷ insert_by axis e xs

unfoldable pub sort_by : Axis → List Entry → List Entry
unfolding insert_by
sort_by axis [] = []
sort_by axis (e ∷ es) = insert_by axis e (sort_by axis es)

abbrev pub rows_of : List Line → String → List Entry
rows_of lines job_id =
    let es = read_all lines in keep (λ e. (job_of e =s job_id) && is_live (superseded_ids es) e) es

unfoldable pub history : List Line → String → Axis → List Entry
unfolding read_all superseded_ids sort_by
history lines job_id axis = sort_by axis (rows_of lines job_id)

-- `max(rows, key=...)` keeps the first of the greatest.
unfoldable pub latest_from : Axis → Entry → List Entry → Entry
latest_from axis best [] = best
latest_from axis best (e ∷ es) =
    latest_from axis (if ltb (time axis best) (time axis e) then e else best) es

abbrev pub first_latest : Axis → List Entry → Option Entry
first_latest axis [] = none
first_latest axis (e ∷ es) = some (latest_from axis e es)

unfoldable pub state_as_of : List Line → String → ℕ → Axis → Option Entry
unfolding read_all superseded_ids latest_from
state_as_of lines job_id as_of axis =
    let es = read_all lines in
    first_latest axis (
      keep (λ e. (job_of e =s job_id) && (leb (time axis e) as_of && is_live (superseded_ids es) e))
        es)

-- The loop of `current_state`: a later entry of the file replaces one that is not later in time.
abbrev pub replaces : Axis → Option Entry → Entry → Bool
replaces axis none e = true
replaces axis (some cur) e = leb (time axis cur) (time axis e)

unfoldable pub current_from : Axis → List String → Dict Entry → List Entry → Dict Entry
current_from axis superseded latest [] = latest
current_from axis superseded latest (e ∷ es) =
    current_from axis superseded
      (if is_live superseded e && replaces axis (get latest (job_of e)) e
        then put latest (job_of e) e
        else latest)
      es

unfoldable pub current_state : List Line → Axis → Dict Entry
unfolding read_all superseded_ids current_from
current_state lines axis = let es = read_all lines in current_from axis (superseded_ids es) [] es
