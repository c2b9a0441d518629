-- ===== src/AuditLog/History.antt =====
-- `history` and `current_state` of bitemporal_log.py: order, completeness, and the treatment of ties.
use vibe_thinker.Prelude.{
  ℕ, ◌≤◌, ◌≡◌, refl, ◌↔◌, String, Bool, true, false, ◌&&◌, List, [], ◌∷◌, All, In, arith, eq_iff,
  leb, ◌=s◌, if◌then◌else◌,
}
use vibe_thinker.AuditLog.Entry.{Entry, Line, read_all}
use vibe_thinker.AuditLog.Queries.{
  Axis, time, job_of, superseded_ids, is_live, insert_by, sort_by, rows_of, history,
}
use vibe_thinker.AuditLog.Reads.{In-keep, keep-In}

module _ (axis : Axis) where
  abbrev pub IsSorted : List Entry → Type 0
  IsSorted [] = Unit
  IsSorted (e ∷ es) = All (λ x. time axis e ≤ time axis x) es × IsSorted es

  All-insert :
      (P : Entry → Type 0) (e : Entry) (es : List Entry)
      → P e
      → All P es
      → All P (insert_by axis e es)
  unfolding insert_by
  All-insert P e [] p h = (p, tt)
  All-insert P e (x ∷ es) p h = split (leb (time axis e) (time axis x)) (All-insert P e es p h.1)
    where
      split :
          (b : Bool)
          → All P (insert_by axis e es)
          → All P (if b then e ∷ x ∷ es else x ∷ insert_by axis e es)
      split true rest = (p, h)
      split false rest = (h.0, rest)

  weaken :
      (a b : ℕ) (es : List Entry)
      → a ≤ b
      → All (λ x. b ≤ time axis x) es
      → All (λ x. a ≤ time axis x) es
  weaken a b [] l h = tt
  weaken a b (x ∷ es) l h = (omega (arith, l, h.0), weaken a b es l h.1)

  insert-IsSorted : (e : Entry) (es : List Entry) → IsSorted es → IsSorted (insert_by axis e es)
  unfolding insert_by
  insert-IsSorted e [] s = (tt, tt)
  insert-IsSorted e (x ∷ es) s =
      split (leb (time axis e) (time axis x)) refl (insert-IsSorted e es s.1)
    where
      split :
          (b : Bool)
          → leb (time axis e) (time axis x) ≡ b
          → IsSorted (insert_by axis e es)
          → IsSorted (if b then e ∷ x ∷ es else x ∷ insert_by axis e es)
      split true le rest =
          ((ground (arith, le), weaken (time axis e) (time axis x) es (ground (arith, le)) s.0), s)
      split false gt rest =
          (All-insert (λ y. time axis x ≤ time axis y) e es (ground (arith, gt)) s.0, rest)

  sort-IsSorted : (es : List Entry) → IsSorted (sort_by axis es)
  unfolding sort_by
  sort-IsSorted [] = tt
  sort-IsSorted (e ∷ es) = insert-IsSorted e (sort_by axis es) (sort-IsSorted es)

  In-insert : (a e : Entry) (es : List Entry) → In a (insert_by axis e es) ↔ In a (e ∷ es)
  unfolding insert_by
  In-insert a e [] = (λ i. i, λ i. i)
  In-insert a e (x ∷ es) = split (leb (time axis e) (time axis x)) (In-insert a e es)
    where
      split :
          (b : Bool)
          → In a (insert_by axis e es) ↔ In a (e ∷ es)
          → In a (if b then e ∷ x ∷ es else x ∷ insert_by axis e es) ↔ In a (e ∷ x ∷ es)
      split true ih = (λ i. i, λ i. i)
      split false ih = ground (arith, ih)

  In-sort : (a : Entry) (es : List Entry) → In a (sort_by axis es) ↔ In a es
  unfolding sort_by
  In-sort a [] = (λ i. i, λ i. i)
  In-sort a (e ∷ es) = ground (arith, In-insert a e (sort_by axis es), In-sort a es)

-- The history of a job is in the order of the axis, and holds exactly the entries of the file for the
-- job that no entry corrects.
pub history-IsSorted :
    (lines : List Line) (job_id : String) (axis : Axis)
    → IsSorted axis (history lines job_id axis)
      × ((e : Entry)
          → In e (history lines job_id axis) ↔ (
              In e (read_all lines)
              × (job_of e ≡ job_id)
              × (is_live (superseded_ids (read_all lines)) e ≡ true)))
unfolding history
history-IsSorted lines job_id axis = (
  sort-IsSorted axis (rows_of lines job_id),
  λ e.
      let test : Entry → Bool =
        λ x. (job_of x =s job_id) && is_live (superseded_ids (read_all lines)) x in
      let sorted = In-sort axis e (rows_of lines job_id) in
      (
        λ i.
            let (j, t) = In-keep test e (read_all lines) (sorted.0 i) in
            (j, ground (arith, t, eq_iff (job_of e) job_id), ground (arith, t)),
        λ h. sorted.1 (
            keep-In test e (read_all lines) h.0
              (ground (arith, h.1, h.2, eq_iff (job_of e) job_id))),
      ),
)
