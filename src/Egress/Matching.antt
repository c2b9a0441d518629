-- ===== src/Egress/Matching.antt =====
-- Which hosts the patterns of sandbox/sni_proxy.py let through.
use vibe_thinker.Prelude.{◌≡◌, ap, ◌∙◌, ◌↔◌, true, ◌∷◌, ◌++◌, some, Option-cases, inl, inr}
use vibe_thinker.Text.{
  Text, Without, same_codes-eq, same_codes_refl, split_once, split_once-append, split_once-splits,
}
use vibe_thinker.Egress.Domain.{clean, wildcard_suffix, domain_matches}

-- A host matches a pattern `*.suffix` exactly if it is one label without a dot, a dot, and the
-- suffix, once both are in lower case and stripped: neither the suffix alone nor two labels before it
-- match.
pub domain_matches-wildcard :
    (hostname pattern suffix : Text)
    → wildcard_suffix (clean pattern) ≡ some suffix
    → (domain_matches hostname pattern ≡ true)
      ↔ ((label : Text) × (clean hostname ≡ label ++ b'.' ∷ suffix) × Without b'.' label)
unfolding domain_matches
domain_matches-wildcard hostname pattern suffix h = (
  λ m. elim (Option-cases (split_once b'.' (clean hostname))) [
    | inl no_dot ↦ absurd (cc (rw (domain_matches, h, no_dot) at m))
    | inr (parts, cut) ↦
        let (whole, one) = split_once-splits b'.' (clean hostname) parts.0 parts.1 cut in
        let same = same_codes-eq parts.1 suffix (rw (domain_matches, h, cut) at m) in
        (parts.0, whole ∙ ap (λ s. parts.0 ++ b'.' ∷ s) same, one)
  ],
  λ (label, whole, one).
      rw (domain_matches, h, whole, split_once-append b'.' label suffix one)
        (same_codes_refl suffix),
)
