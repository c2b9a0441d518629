-- ===== src/Client/Order.antt =====
-- Which coordinators federated_queue.py asks, and from which it takes a job.
use vibe_thinker.Prelude.{
  ℕ, suc, ◌+◌, ◌≡◌, ◌↔◌, refl, sym, ap, subst, ◌∙◌, String, Bool, true, false, not, List, [], ◌∷◌,
  ◌++◌, Option, none, some, arith, if◌then◌else◌, Bool-cases, Option-cases, ◌⊎◌, inl, inr, length,
  is_nil, keep, In,
}
use vibe_thinker.Text.{Text, same_codes, same_codes-eq}
use vibe_thinker.JobQueue.Queue.{Queue}
use vibe_thinker.JobQueue.Queue as JobQueue
use vibe_thinker.Client.Urls.{
  Client, federation_configured, others_than, url_order, mark_url_success, In-keep,
}
use vibe_thinker.Client.Calls.{
  Offer, Answer, unreadable, refused, no_job, offers, or_zero, ask, claim_turn,
}

-- Taking a text out of a list and putting it in front keeps the members.
In-front : (s u : Text) (us : List Text) → In u (s ∷ others_than s us) ↔ (In u us ⊎ (u ≡ s))
In-front s u us =
    let (to, from) = In-keep (λ x. not (same_codes x s)) u us in
    (
      λ h. elim h [ inl same ↦ inr same | inr later ↦ inl (to later).1 ],
      λ h. elim h [
        | inr same ↦ inl same
        | inl member ↦ elim (Bool-cases (same_codes u s)) [
          | inl same ↦ inl (same_codes-eq u s same)
          | inr other ↦ inr (from (ap not other, member))
        ]
      ],
    )

-- What the order of the coordinators promises of one that is not the empty text.
pub record Asked (c : Client) (u : Text) : Type 0 where
  pub member : In u (url_order c) ↔ (In u c.urls ⊎ (u ≡ c.sticky))
  pub first : is_nil c.sticky ≡ false → (rest : List Text) × (url_order c ≡ c.sticky ∷ rest)

given : Text → Bool
given u = not (is_nil u)

In-given : (u : Text) (us : List Text) → is_nil u ≡ false → In u (keep given us) ↔ In u us
unfolding given
In-given u us h = let (to, from) = In-keep given u us in (λ m. (to m).1, λ m. from (ap not h, m))

abbrev order : Text → List Text → List Text
order s us =
    let rest = others_than s us in
    if is_nil us
    then (if is_nil s then [] else s ∷ [])
    else keep given (if is_nil s then rest else s ∷ rest)

not-nil : (u : Text) → is_nil u ≡ false → u ≡ [] → ⊥
not-nil u h e = cc (sym h ∙ ap is_nil e)

In-order :
    (s : Text) (us : List Text) (u : Text)
    → is_nil u ≡ false
    → In u (order s us) ↔ (In u us ⊎ (u ≡ s))
unfolding given
In-order [] [] u h =
    (λ m. absurd m, λ m. elim m [ inl x ↦ absurd x | inr same ↦ absurd (not-nil u h same) ])
In-order (a ∷ s) [] u h = (
  λ m. elim m [ inl same ↦ inr same | inr x ↦ absurd x ],
  λ m. elim m [ inl x ↦ absurd x | inr same ↦ inl same ],
)
In-order [] (v ∷ vs) u h =
    let (to, from) = In-front [] u (v ∷ vs) in
    let (out, into) = In-given u (others_than [] (v ∷ vs)) h in
    (
      λ m. to (inr (out m)),
      λ m. elim (from m) [ inl same ↦ absurd (not-nil u h same) | inr later ↦ into later ],
    )
In-order (a ∷ s) (v ∷ vs) u h =
    let (to, from) = In-front (a ∷ s) u (v ∷ vs) in
    let (out, into) = In-given u ((a ∷ s) ∷ others_than (a ∷ s) (v ∷ vs)) h in
    (λ m. to (out m), λ m. into (from m))

order-first :
    (s : Text) (us : List Text) → is_nil s ≡ false → (rest : List Text) × (order s us ≡ s ∷ rest)
unfolding given
order-first [] us h = absurd (cc h)
order-first (a ∷ s) [] h = ([], refl)
order-first (a ∷ s) (v ∷ vs) h = (keep given (others_than (a ∷ s) (v ∷ vs)), refl)

-- Every coordinator of the list is asked, and the one that answered last, which is asked first; no
-- other text is.
pub url_order-Asked : (c : Client) (u : Text) → is_nil u ≡ false → Asked c u
unfolding url_order given
url_order-Asked c u h = record {
  member = In-order c.sticky c.urls u h;
  first = order-first c.sticky c.urls;
}

abbrev with_query : Offer → Option String → Option (Offer × String)
with_query offer none = none
with_query offer (some query) = some (offer, query)

-- The answer hands out a job with a query.
abbrev pub query_of : Answer → Option (Offer × String)
query_of unreadable = none
query_of refused = none
query_of no_job = none
query_of (offers offer) = with_query offer offer.query

-- None of the answers from the `i`-th on hands out a job.
abbrev pub NoneOffers : (ℕ → Text → Answer) → ℕ → List Text → Type 0
NoneOffers answer i [] = Unit
NoneOffers answer i (u ∷ us) = (query_of (answer i u) ≡ none) × NoneOffers answer (suc i) us

-- What a loop over the coordinators gives, from the `i`-th request on.
pub data Asks (answer : ℕ → Text → Answer) (i : ℕ) (us : List Text) (local : Queue)
    : Client × Option (Text × (Offer × String)) → Type 0 where
  nothing :
      (c : Client) → c.local ≡ local → NoneOffers answer i us → Asks answer i us local (c, none)
  takes :
      (c : Client) (before after : List Text) (u : Text) (offer : Offer) (query : String)
      → c.local ≡ local
      → us ≡ before ++ u ∷ after
      → NoneOffers answer i before
      → query_of (answer (i + length before) u) ≡ some (offer, query)
      → Asks answer i us local (c, some (u, (offer, query)))

mark-local : (u : Text) (c : Client) → (mark_url_success u c).local ≡ c.local
unfolding mark_url_success
mark-local u c = ground arith

skip-Asks :
    (answer : ℕ → Text → Answer) (i : ℕ) (u : Text) (us : List Text) (local : Queue)
    (r : Client × Option (Text × (Offer × String)))
    → query_of (answer i u) ≡ none
    → Asks answer (suc i) us local r
    → Asks answer i (u ∷ us) local r
skip-Asks answer i u us local _ h (nothing c l n) = nothing c l (h, n)
skip-Asks answer i u us local _ h (takes c before after v offer query l split n e) =
    let place : suc i + length before ≡ i + suc (length before) = omega arith in
    takes c (u ∷ before) after v offer query l (ap (◌∷◌ u) split) (h, n)
      (subst (λ j. query_of (answer j v) ≡ some (offer, query)) place e)

ask-Asks :
    (answer : ℕ → Text → Answer) (i : ℕ) (us : List Text) (c : Client)
    → Asks answer i us c.local (ask answer i us c)
unfolding ask
ask-Asks answer i [] c = nothing c refl tt
ask-Asks answer i (u ∷ us) c = split (λ d. ask-Asks answer (suc i) us d) (answer i u) refl
  where
    pass :
        ((d : Client) → Asks answer (suc i) us d.local (ask answer (suc i) us d))
        → (d : Client) → d.local ≡ c.local
        → query_of (answer i u) ≡ none
        → Asks answer i (u ∷ us) c.local (ask answer (suc i) us d)
    pass later d l e =
        skip-Asks answer i u us c.local _ e
          (subst (λ q. Asks answer (suc i) us q (ask answer (suc i) us d)) l (later d))

    split :
        ((d : Client) → Asks answer (suc i) us d.local (ask answer (suc i) us d))
        → (a : Answer) → answer i u ≡ a
        → Asks answer i (u ∷ us) c.local (ask answer i (u ∷ us) c)
    split later unreadable e = rw (ask, e) (pass later c refl (ap query_of e))
    split later refused e = rw (ask, e) (pass later c refl (ap query_of e))
    split later no_job e = rw (ask, e) (pass later c refl (ap query_of e))
    split later (offers offer) e = elim (Option-cases offer.query) [
      | inl absent ↦
          let unasked : query_of (answer i u) ≡ none =
            ap query_of e ∙ ap (with_query offer) absent in
          rw (ask, e, absent) (pass later (mark_url_success u c) (mark-local u c) unasked)
      | inr (query, there) ↦
          let place : query_of (answer (i + 0) u) ≡ some (offer, query) =
            subst (λ j. query_of (answer j u) ≡ some (offer, query)) (omega arith)
              (ap query_of e ∙ ap (with_query offer) there) in
          rw (ask, e, there)
            (takes (mark_url_success u c) [] us u offer query (mark-local u c) refl tt place)
    ]

-- What one turn of the claim loop does.
pub data Turns (answer : ℕ → Text → Answer) (fresh : String) (now : ℕ) (us : List Text)
    (local : Queue) : Client × Option (Text × (Offer × String)) → Type 0 where
  idle :
      (c : Client)
      → c.local ≡ local
      → NoneOffers answer 0 us
      → Turns answer fresh now us local (c, none)
  claims :
      (c : Client) (before after : List Text) (u : Text) (offer : Offer) (query : String)
      → us ≡ before ++ u ∷ after
      → NoneOffers answer 0 before
      → query_of (answer (length before) u) ≡ some (offer, query)
      → c.local
        ≡ (JobQueue.submit query (or_zero offer.priority) offer.force_route none fresh now local).0
      → Turns answer fresh now us local (c, some (u, (offer, query)))

-- A turn of the claim loop takes the job of the first coordinator in the order that hands out one
-- with a query, and submits exactly that to the local queue; if none does, the local queue stays as
-- it was.
pub claim_turn-Turns :
    (answer : ℕ → Text → Answer) (fresh : String) (now : ℕ) (c : Client)
    → federation_configured c ≡ true
    → Turns answer fresh now (url_order c) c.local (claim_turn answer fresh now c)
unfolding claim_turn
claim_turn-Turns answer fresh now c h =
    rw h (submitted (ask answer 0 (url_order c) c) (ask-Asks answer 0 (url_order c) c))
  where
    submitted :
        (r : Client × Option (Text × (Offer × String)))
        → Asks answer 0 (url_order c) c.local r
        → Turns answer fresh now (url_order c) c.local (elim r.1 [
          | none ↦ (r.0, none)
          | some (u, (offer, query)) ↦
              let (local, job) =
                JobQueue.submit query
                  (or_zero offer.priority)
                  offer.force_route
                  none
                  fresh
                  now
                  r.0.local in
              (record r.0 { local = local }, some (u, (offer, query)))
        ])
    submitted _ (nothing d l n) = idle d l n
    submitted _ (takes d before after u offer query l split n e) =
        claims _ before after u offer query split n
          (subst (λ j. query_of (answer j u) ≡ some (offer, query)) (omega arith) e)
          (ap
            (λ q.
              (JobQueue.submit query (or_zero offer.priority) offer.force_route none fresh now q).0)
            l)
