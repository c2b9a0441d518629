-- ===== src/Security/Window.antt =====
-- The rate limiter of web_security.py against its meaning: a request is allowed if fewer than the
-- maximum of those allowed to its client lie in the window that ends now.
use vibe_thinker.Prelude.{
  ℕ, ◌+◌, ◌≤◌, ◌≡◌, refl, ap, sym, ◌∙◌, String, Bool, true, false, ◌&&◌, List, [], ◌∷◌, ◌++◌, arith,
  eq_refl, leb, ◌=s◌, length, keep, All, Bool-cases, inl, inr, if◌then◌else◌,
}
use vibe_thinker.Security.RateLimit.{evict}

-- Whether a hit lies in the window that ends now.
abbrev pub is_recent : ℕ → ℕ → ℕ → Bool
is_recent window now t = leb now (t + window)

-- How many requests of the client were allowed in the window, out of all that were allowed.
abbrev pub recent : ℕ → String → ℕ → List (String × ℕ) → List (String × ℕ)
recent window key now granted = keep (λ h. (h.0 =s key) && is_recent window now h.1) granted

-- The meaning: the verdicts, with the requests allowed so far.
unfoldable pub ideal : ℕ → ℕ → List (String × ℕ) → List (String × ℕ) → List Bool
ideal max window granted [] = []
ideal max window granted ((key, now) ∷ calls) =
    let yes = true ∷ ideal max window (granted ++ (key, now) ∷ []) calls in
    let no = false ∷ ideal max window granted calls in
    if leb max (length (recent window key now granted)) then no else yes

-- The clock does not go back.
abbrev pub Forward : ℕ → List (String × ℕ) → Type 0
Forward since [] = Unit
Forward since ((key, now) ∷ calls) = (since ≤ now) × Forward now calls

abbrev pub IsSorted : List ℕ → Type 0
IsSorted [] = Unit
IsSorted (t ∷ ts) = All (λ u. t ≤ u) ts × IsSorted ts

abbrev pub times_of : String → List (String × ℕ) → List ℕ
times_of key [] = []
times_of key ((k, t) ∷ granted) =
    let rest = times_of key granted in if k =s key then t ∷ rest else rest

keep-sorted :
    (window now t : ℕ) (ts : List ℕ)
    → now ≤ t + window
    → All (λ u. t ≤ u) ts
    → keep (is_recent window now) ts ≡ ts
keep-sorted window now t [] h a = refl
keep-sorted window now t (u ∷ ts) h a = ground (arith, a.0, keep-sorted window now t ts h a.1)

-- On hits in the order of time, what is evicted is what has left the window.
evict-keep :
    (window now : ℕ) (ts : List ℕ)
    → IsSorted ts
    → evict window now ts ≡ keep (is_recent window now) ts
unfolding evict
evict-keep window now [] s = refl
evict-keep window now (t ∷ ts) s =
    ground (arith, evict-keep window now ts s.1, keep-sorted window now t ts)

keep-keep :
    (window now later : ℕ) (ts : List ℕ)
    → now ≤ later
    → keep (is_recent window later) (keep (is_recent window now) ts)
      ≡ keep (is_recent window later) ts
keep-keep window now later [] h = refl
keep-keep window now later (t ∷ ts) h = ground (arith, keep-keep window now later ts h)

keep-append :
    {A : Type 0} (test : A → Bool) (xs ys : List A)
    → keep test (xs ++ ys) ≡ keep test xs ++ keep test ys
keep-append test [] ys = refl
keep-append test (x ∷ xs) ys = ground (arith, keep-append test xs ys)

length-recent :
    (window : ℕ) (key : String) (now : ℕ) (granted : List (String × ℕ))
    → length (recent window key now granted)
      ≡ length (keep (is_recent window now) (times_of key granted))
length-recent window key now [] = refl
length-recent window key now ((k, t) ∷ granted) =
    ground (arith, length-recent window key now granted)

times-append :
    (key k : String) (t : ℕ) (granted : List (String × ℕ))
    → times_of key (granted ++ (k, t) ∷ [])
      ≡ (if k =s key then times_of key granted ++ t ∷ [] else times_of key granted)
times-append key k t [] = refl
times-append key k t ((j, u) ∷ granted) = ground (arith, times-append key k t granted)

-- A client's deque is sorted, holds no later hit than `since`, and agrees with what was allowed on
-- every window from then on.
pub record Tracks (window since : ℕ) (key : String) (granted : List (String × ℕ)) (b : List ℕ)
    : Type 0 where
  pub sorted : IsSorted b
  pub upto : All (λ t. t ≤ since) b
  pub agree :
      (m : ℕ)
      → since ≤ m
      → keep (is_recent window m) b ≡ keep (is_recent window m) (times_of key granted)

keep-All :
    {A : Type 0} (P : A → Type 0) (test : A → Bool) (xs : List A) → All P xs → All P (keep test xs)
keep-All P test [] h = tt
keep-All P test (x ∷ xs) h = elim (Bool-cases (test x)) [
  | inl kept ↦ rw kept (h.0, keep-All P test xs h.1)
  | inr left ↦ rw left (keep-All P test xs h.1)
]

keep-IsSorted : (test : ℕ → Bool) (ts : List ℕ) → IsSorted ts → IsSorted (keep test ts)
keep-IsSorted test [] s = tt
keep-IsSorted test (t ∷ ts) s = elim (Bool-cases (test t)) [
  | inl kept ↦ rw kept (keep-All (λ u. t ≤ u) test ts s.0, keep-IsSorted test ts s.1)
  | inr left ↦ rw left (keep-IsSorted test ts s.1)
]

append-All :
    {A : Type 0} (P : A → Type 0) (xs : List A) (x : A) → All P xs → P x → All P (xs ++ x ∷ [])
append-All P [] x h p = (p, tt)
append-All P (y ∷ xs) x h p = (h.0, append-All P xs x h.1 p)

append-IsSorted :
    (ts : List ℕ) (now : ℕ) → All (λ t. t ≤ now) ts → IsSorted ts → IsSorted (ts ++ now ∷ [])
append-IsSorted [] now h s = (tt, tt)
append-IsSorted (t ∷ ts) now h s =
    (append-All (λ u. t ≤ u) ts now s.0 h.0, append-IsSorted ts now h.1 s.1)

module _ (window since now : ℕ) (key : String) (granted : List (String × ℕ)) (b : List ℕ) where
  pub later-Tracks :
      since ≤ now → Tracks window since key granted b → Tracks window now key granted b
  later-Tracks l t = record {
    sorted = t.sorted;
    upto = map-All b t.upto;
    agree = λ m h. t.agree m (omega arith);
  }
    where
      map-All : (ts : List ℕ) → All (λ t. t ≤ since) ts → All (λ t. t ≤ now) ts
      map-All [] h = tt
      map-All (x ∷ ts) h = (omega (arith, l, h.0), map-All ts h.1)

  pub evict-Tracks :
      since ≤ now
      → Tracks window since key granted b
      → Tracks window now key granted (evict window now b)
  evict-Tracks l t =
      let t' = later-Tracks l t in
      rw (evict-keep window now b t.sorted) (record {
        sorted = keep-IsSorted (is_recent window now) b t.sorted;
        upto = keep-All (λ u. u ≤ now) (is_recent window now) b t'.upto;
        agree = λ m h. keep-keep window now m b h ∙ t.agree m (omega arith);
      })

  -- The deque after eviction has as many hits as were allowed in the window.
  pub evict-length :
      since ≤ now
      → Tracks window since key granted b
      → length (evict window now b) ≡ length (recent window key now granted)
  evict-length l t =
      ap length (evict-keep window now b t.sorted ∙ t.agree now l)
      ∙ sym (length-recent window key now granted)

pub push-Tracks :
    (window now : ℕ) (key : String) (granted : List (String × ℕ)) (b : List ℕ)
    → Tracks window now key granted b
    → Tracks window now key (granted ++ (key, now) ∷ []) (b ++ now ∷ [])
push-Tracks window now key granted b t = record {
  sorted = append-IsSorted b now t.upto t.sorted;
  upto = append-All (λ u. u ≤ now) b now t.upto (omega arith);
  agree = λ m h.
      keep-append (is_recent window m) b (now ∷ [])
      ∙ ap (λ ts. ts ++ keep (is_recent window m) (now ∷ [])) (t.agree m h)
      ∙ sym (keep-append (is_recent window m) (times_of key granted) (now ∷ []))
      ∙ ap (keep (is_recent window m))
          (sym (times-append key key now granted ∙ rw (eq_refl key) refl));
}

pub other-Tracks :
    (window now : ℕ) (key k : String) (granted : List (String × ℕ)) (b : List ℕ)
    → (k =s key) ≡ false
    → Tracks window now key granted b
    → Tracks window now key (granted ++ (k, now) ∷ []) b
other-Tracks window now key k granted b off t = record {
  sorted = t.sorted;
  upto = t.upto;
  agree = λ m h.
      t.agree m h
      ∙ ap (keep (is_recent window m)) (sym (times-append key k now granted ∙ rw off refl));
}
