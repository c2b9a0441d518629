-- ===== src/AuditLog/Reads.antt =====
-- What the reads of bitemporal_log.py along an axis give back.
use vibe_thinker.Prelude.{
  ℕ, ◌≤◌, ◌≡◌, refl, subst, ap, sym, ◌∙◌, inl, inr, String, Bool, true, false, ◌&&◌, List, [], ◌∷◌,
  some, All, In, keep, arith, eq_iff, leb, ltb, ◌=s◌, if◌then◌else◌,
}
use vibe_thinker.AuditLog.Entry.{Entry, Line, read_all}
use vibe_thinker.AuditLog.Queries.{
  Axis, time, job_of, superseded_ids, is_live, latest_from, first_latest, state_as_of,
}

module _ {A : Type 0} (test : A → Bool) where
  pub In-keep : (a : A) (xs : List A) → In a (keep test xs) → In a xs × (test a ≡ true)
  In-keep a [] i = absurd i
  In-keep a (x ∷ xs) i = split (test x) refl i (In-keep a xs)
    where
      split :
          (b : Bool)
          → test x ≡ b
          → In a (if b then x ∷ keep test xs else keep test xs)
          → (In a (keep test xs) → In a xs × (test a ≡ true))
          → In a (x ∷ xs) × (test a ≡ true)
      split true kept (inl here) ih = (inl here, ap test here ∙ kept)
      split true kept (inr there) ih = (inr (ih there).0, (ih there).1)
      split false left j ih = (inr (ih j).0, (ih j).1)

  pub keep-In : (a : A) (xs : List A) → In a xs → test a ≡ true → In a (keep test xs)
  keep-In a [] i t = absurd i
  keep-In a (x ∷ xs) i t = split (test x) refl i (λ j. keep-In a xs j t)
    where
      split :
          (b : Bool)
          → test x ≡ b
          → In a (x ∷ xs)
          → (In a xs → In a (keep test xs))
          → In a (if b then x ∷ keep test xs else keep test xs)
      split true kept (inl here) ih = inl here
      split true kept (inr there) ih = inr (ih there)
      split false left (inl here) ih = absurd (cc (ap test here, t, left))
      split false left (inr there) ih = ih there

module _ (axis : Axis) where
  later_of :
      (b : Bool) (r best e : Entry) (es : List Entry)
      → In r ((if b then e else best) ∷ es)
      → In r (best ∷ e ∷ es)
  later_of true r best e es i = inr i
  later_of false r best e es (inl here) = inl here
  later_of false r best e es (inr there) = inr (inr there)

  latest-In : (best : Entry) (es : List Entry) → In (latest_from axis best es) (best ∷ es)
  unfolding latest_from
  latest-In best [] = inl refl
  latest-In best (e ∷ es) =
      let b = ltb (time axis best) (time axis e) in
      later_of b _ best e es (latest-In (if b then e else best) es)

  latest-ge :
      (best : Entry) (es : List Entry)
      → All (λ x. time axis x ≤ time axis (latest_from axis best es)) (best ∷ es)
  unfolding latest_from
  latest-ge best [] = (omega arith, tt)
  latest-ge best (e ∷ es) =
      let b = ltb (time axis best) (time axis e) in
      let h = latest-ge (if b then e else best) es in
      (ground (arith, h.0), (ground (arith, h.0), h.1))

All-In : {A : Type 0} (P : A → Type 0) (a : A) (xs : List A) → All P xs → In a xs → P a
All-In P a [] h i = absurd i
All-In P a (x ∷ xs) h (inl here) = subst P (sym here) h.0
All-In P a (x ∷ xs) h (inr there) = All-In P a xs h.1 there

-- The entry is of the job and the file, no entry corrects it, and it is not later than the instant.
pub record Known (lines : List Line) (job_id : String) (as_of : ℕ) (axis : Axis) (e : Entry)
    : Type 0 where
  pub written_there : In e (read_all lines)
  pub of_job : job_of e ≡ job_id
  pub early : time axis e ≤ as_of
  pub live : is_live (superseded_ids (read_all lines)) e ≡ true

abbrev known : List Line → String → ℕ → Axis → Entry → Bool
known lines job_id as_of axis e =
    (job_of e =s job_id) && (leb (time axis e) as_of && is_live (superseded_ids (read_all lines)) e)

module _ (lines : List Line) (job_id : String) (as_of : ℕ) (axis : Axis) where
  known→Known :
      (e : Entry)
      → In e (keep (known lines job_id as_of axis) (read_all lines))
      → Known lines job_id as_of axis e
  known→Known e i =
      let (j, t) = In-keep (known lines job_id as_of axis) e (read_all lines) i in
      record {
        written_there = j;
        of_job = ground (arith, t, eq_iff (job_of e) job_id);
        early = ground (arith, t);
        live = ground (arith, t);
      }

  Known→known :
      (e : Entry)
      → Known lines job_id as_of axis e
      → In e (keep (known lines job_id as_of axis) (read_all lines))
  Known→known e k =
      keep-In (known lines job_id as_of axis) e (read_all lines) k.written_there
        (ground (arith, k.of_job, k.early, k.live, eq_iff (job_of e) job_id))

  first_latest-In : (e : Entry) (es : List Entry) → first_latest axis es ≡ some e → In e es
  first_latest-In e [] h = cc
  first_latest-In e (x ∷ es) h = subst (λ y. In y (x ∷ es)) (cc h) (latest-In axis x es)

  first_latest-ge :
      (x : Entry) (es : List Entry)
      → In x es
      → (e : Entry) × (first_latest axis es ≡ some e) × (time axis x ≤ time axis e)
  first_latest-ge x [] i = absurd i
  first_latest-ge x (y ∷ es) i = (
    latest_from axis y es,
    refl,
    All-In (λ z. time axis z ≤ time axis (latest_from axis y es)) x (y ∷ es) (latest-ge axis y es)
        i,
  )

  -- What `state_as_of` returns is an entry of the file for the job, not later than the instant on the
  -- axis, and not corrected by another one; it is none only if there is no such entry, and no such
  -- entry is later than it.
  pub state_as_of_lem :
      ((e : Entry) → state_as_of lines job_id as_of axis ≡ some e → Known lines job_id as_of axis e)
      × ((x : Entry)
          → Known lines job_id as_of axis x
          → (e : Entry) × (state_as_of lines job_id as_of axis ≡ some e)
            × (time axis x ≤ time axis e))
  unfolding state_as_of
  state_as_of_lem = (
    λ e h. known→Known e (first_latest-In e _ h),
    λ x k.
        first_latest-ge x (keep (known lines job_id as_of axis) (read_all lines)) (Known→known x k),
  )
