-- ===== src/Client/Urls.antt =====
-- `FederatedJobQueue` of federated_queue.py: its coordinators, and which of them it asks first.
use vibe_thinker.Prelude.{
  ℕ, ◌≡◌, ◌↔◌, sym, ap, subst, Bool, true, false, not, ◌&&◌, List, [], ◌∷◌, Option, none, ◌==◌, ◌∙◌,
  if◌then◌else◌, Bool-cases, inl, inr, keep, is_nil, In,
}
use vibe_thinker.Text.{Text, same_codes, strip}
use vibe_thinker.JobQueue.Queue.{Queue}

-- `certificates` says that the paths of the three mTLS files are given and that the files are there.
pub record Client : Type 0 where
  pub urls : List Text
  pub sticky : Text
  pub certificates : Bool
  pub available : Option Bool
  pub warned : Bool
  pub local : Queue

-- `s.split(",")`: the first part, and the others.
abbrev parts : Text → Text × List Text
parts [] = ([], [])
parts (c ∷ cs) =
    let (first, others) = parts cs in
    if c == b',' then ([], first ∷ others) else (c ∷ first, others)

abbrev without_slash : ℕ → Text → Text
without_slash c [] = if c == b'/' then [] else c ∷ []
without_slash c (d ∷ ds) = c ∷ d ∷ ds

-- `s.rstrip("/")`
abbrev rstrip_slash : Text → Text
rstrip_slash [] = []
rstrip_slash (c ∷ cs) = without_slash c (rstrip_slash cs)

abbrev clean_urls : List Text → List Text
clean_urls [] = []
clean_urls (u ∷ us) =
    let rest = clean_urls us in if is_nil (strip u) then rest else rstrip_slash (strip u) ∷ rest

-- The list of `federation_url`.
unfoldable pub parse_urls : Text → List Text
parse_urls s = let (first, others) = parts s in clean_urls (first ∷ others)

abbrev pub first_or_empty : List Text → Text
first_or_empty [] = []
first_or_empty (u ∷ us) = u

unfoldable pub new_client : Text → Bool → Queue → Client
new_client federation_url certificates local =
    let urls = parse_urls federation_url in
    record {
      urls = urls;
      sticky = first_or_empty urls;
      certificates = certificates;
      available = none;
      warned = false;
      local = local;
    }

unfoldable pub federation_configured : Client → Bool
federation_configured c = not (is_nil c.sticky) && c.certificates

abbrev pub others_than : Text → List Text → List Text
others_than s us = keep (λ u. not (same_codes u s)) us

-- `_federation_url_order`
unfoldable pub url_order : Client → List Text
url_order c =
    let rest = others_than c.sticky c.urls in
    let given = keep (λ u. not (is_nil u)) in
    if is_nil c.urls
    then (if is_nil c.sticky then [] else c.sticky ∷ [])
    else given (if is_nil c.sticky then rest else c.sticky ∷ rest)

unfoldable pub mark_url_success : Text → Client → Client
mark_url_success url c =
    if not (is_nil url) && not (same_codes url c.sticky) then record c { sticky = url } else c

unfoldable pub warn_fallback : Client → Client
warn_fallback c = record c { warned = true }

pub In-keep :
    {A : Type 0} (test : A → Bool) (x : A) (xs : List A)
    → In x (keep test xs) ↔ ((test x ≡ true) × In x xs)
In-keep test x [] = (λ h. absurd h, λ h. h.1)
In-keep test x (y ∷ ys) =
    let (to, from) = In-keep test x ys in
    elim (Bool-cases (test y)) [
      | inl good ↦ rw good (
        λ h. elim h [
          | inl same ↦ (subst (λ z. test z ≡ true) (sym same) good, inl same)
          | inr later ↦ ((to later).0, inr (to later).1)
        ],
        λ h. elim h.1 [ inl same ↦ inl same | inr later ↦ inr (from (h.0, later)) ],
      )
      | inr bad ↦ rw bad (
        λ h. ((to h).0, inr (to h).1),
        λ h. elim h.1 [
          | inl same ↦ absurd (cc (sym h.0 ∙ ap test same ∙ bad))
          | inr later ↦ from (h.0, later)
        ],
      )
    ]
