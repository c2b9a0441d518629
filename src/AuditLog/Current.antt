-- ===== src/AuditLog/Current.antt =====
-- `current_state` of bitemporal_log.py: the latest entry of every job.
use vibe_thinker.Prelude.{
  ◌≤◌, ◌≡◌, refl, subst, ap, sym, ◌∙◌, ◌⊎◌, inl, inr, String, true, ◌&&◌, List, [], ◌∷◌, some, In,
  arith, eq_iff, eq_refl, ◌=s◌, Bool-cases, Option-cases, if◌then◌else◌,
}
use vibe_thinker.Prelude.Dict.{Dict, get, put, get-put}
use vibe_thinker.AuditLog.Entry.{Entry, Line, read_all}
use vibe_thinker.AuditLog.Queries.{
  Axis, time, job_of, superseded_ids, is_live, replaces, current_from, current_state,
}

module _ (axis : Axis) (superseded : List String) where
  abbrev next : Dict Entry → Entry → Dict Entry
  next latest e =
      if is_live superseded e && replaces axis (get latest (job_of e)) e
      then put latest (job_of e) e
      else latest

  -- The entry that stands for a job gives way only to one that is not earlier.
  next-keeps :
      (latest : Dict Entry) (e c : Entry) (k : String)
      → get latest k ≡ some c
      → (d : Entry) × (get (next latest e) k ≡ some d) × (time axis c ≤ time axis d)
  next-keeps latest e c k h =
      elim (Bool-cases (is_live superseded e && replaces axis (get latest (job_of e)) e)) [
        | inr stays ↦ (c, rw stays h, omega arith)
        | inl takes ↦ elim (Bool-cases (job_of e =s k)) [
          | inr other ↦ (c, rw takes (get-put latest (job_of e) k e ∙ rw other h), omega arith)
          | inl same ↦ (
            e,
            rw takes (get-put latest (job_of e) k e ∙ rw same refl),
            ground (arith, takes, h, ap (get latest) ((eq_iff (job_of e) k).0 same)),
          )
        ]
      ]

  -- A live entry is taken, unless a later one stands there.
  next-takes :
      (latest : Dict Entry) (e : Entry)
      → is_live superseded e ≡ true
      → (d : Entry) × (get (next latest e) (job_of e) ≡ some d) × (time axis e ≤ time axis d)
  next-takes latest e live = elim (Bool-cases (replaces axis (get latest (job_of e)) e)) [
    | inl takes ↦ (
      e,
      rw (live, takes) (get-put latest (job_of e) (job_of e) e ∙ rw (eq_refl (job_of e)) refl),
      omega arith,
    )
    | inr stays ↦ elim (Option-cases (get latest (job_of e))) [
      | inl absent ↦ absurd (ground (arith, stays, absent))
      | inr (c, there) ↦ (c, rw (live, stays) there, ground (arith, stays, there))
    ]
  ]

  from-keeps :
      (latest : Dict Entry) (es : List Entry) (c : Entry) (k : String)
      → get latest k ≡ some c
      → (d : Entry) × (get (current_from axis superseded latest es) k ≡ some d)
        × (time axis c ≤ time axis d)
  unfolding current_from
  from-keeps latest [] c k h = (c, h, omega arith)
  from-keeps latest (e ∷ es) c k h =
      let (d, g, l) = next-keeps latest e c k h in
      let (d', g', l') = from-keeps (next latest e) es d k g in (d', g', omega (arith, l, l'))

  from-takes :
      (latest : Dict Entry) (es : List Entry) (x : Entry)
      → In x es
      → is_live superseded x ≡ true
      → (d : Entry) × (get (current_from axis superseded latest es) (job_of x) ≡ some d)
        × (time axis x ≤ time axis d)
  unfolding current_from
  from-takes latest [] x i live = absurd i
  from-takes latest (e ∷ es) x (inr there) live = from-takes (next latest e) es x there live
  from-takes latest (e ∷ es) x (inl here) live =
      let (d, g, l) = next-takes latest x live in
      let (d', g', l') = from-keeps (next latest x) es d (job_of x) g in
      (
        d',
        subst (λ y. get (current_from axis superseded (next latest y) es) (job_of x) ≡ some d') here
            g',
        omega (arith, l, l'),
      )

  next_sound :
      (latest : Dict Entry) (e d : Entry) (k : String)
      → get (next latest e) k ≡ some d
      → (get latest k ≡ some d) ⊎ ((d ≡ e) × (job_of e ≡ k) × (is_live superseded e ≡ true))
  next_sound latest e d k h =
      elim (Bool-cases (is_live superseded e && replaces axis (get latest (job_of e)) e)) [
        | inr stays ↦ inl (sym (rw stays refl) ∙ h)
        | inl takes ↦
            let g = sym (get-put latest (job_of e) k e) ∙ (rw (next, takes) at h) in
            elim (Bool-cases (job_of e =s k)) [
              | inl same ↦
                  inr (cc (rw same at g), (eq_iff (job_of e) k).0 same, ground (arith, takes))
              | inr other ↦ inl (rw other at g)
            ]
      ]

  from_sound :
      (latest : Dict Entry) (es : List Entry) (d : Entry) (k : String)
      → get (current_from axis superseded latest es) k ≡ some d
      → (get latest k ≡ some d) ⊎ (In d es × (job_of d ≡ k) × (is_live superseded d ≡ true))
  unfolding current_from
  from_sound latest [] d k h = inl h
  from_sound latest (e ∷ es) d k h = elim (from_sound (next latest e) es d k h) [
    | inr (i, job, live) ↦ inr (inr i, job, live)
    | inl there ↦ elim (next_sound latest e d k there) [
      | inl before ↦ inl before
      | inr (same, job, live) ↦
          inr (
            inl same,
            ap job_of same ∙ job,
            subst (λ y. is_live superseded y ≡ true) (sym same) live,
          )
    ]
  ]

-- The current state of a job is an entry of the file for it that no entry corrects, and is at least as
-- late as every such entry; a job has one as soon as there is such an entry.
pub current_state_lem :
    (lines : List Line) (axis : Axis)
    → let live = superseded_ids (read_all lines) in
      ((d : Entry) (k : String)
        → get (current_state lines axis) k ≡ some d
        → In d (read_all lines) × (job_of d ≡ k) × (is_live live d ≡ true))
      × ((x : Entry)
          → In x (read_all lines)
          → is_live live x ≡ true
          → (d : Entry) × (get (current_state lines axis) (job_of x) ≡ some d)
            × (time axis x ≤ time axis d))
unfolding current_state get
current_state_lem lines axis = (
  λ d k h. elim (from_sound axis (superseded_ids (read_all lines)) [] (read_all lines) d k h) [
    | inl none_there ↦ absurd (cc none_there)
    | inr found ↦ found
  ],
  λ x i live. from-takes axis (superseded_ids (read_all lines)) [] (read_all lines) x i live,
)
