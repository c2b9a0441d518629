-- ===== src/Egress/Domain.antt =====
-- `domain_matches`, `_is_ip_allowed` and `is_domain_allowed` of sandbox/sni_proxy.py. What the package
-- `ipaddress` does is a parameter: its two parsers (`none` for a ValueError) and its tests.
use vibe_thinker.Prelude.{
  Bool, true, false, not, ◌&&◌, ◌||◌, List, [], ◌∷◌, Option, none, some, ◌==◌, if◌then◌else◌,
}
use vibe_thinker.Text.{Text, lowered, strip, same_codes, split_once}

pub record Addresses : Type 1 where
  pub Ip : Type 0
  pub Net : Type 0
  pub ip_address : Text → Option Ip
  pub ip_network : Text → Option Net
  pub contains : Net → Ip → Bool
  pub same_ip : Ip → Ip → Bool

-- `host.lower().strip()`
unfoldable pub clean : Text → Text
unfolding strip
clean host = strip (lowered host)

-- What follows `*.`, if the pattern starts so.
abbrev pub wildcard_suffix : Text → Option Text
wildcard_suffix (a ∷ b ∷ suffix) = if (a == b'*') && (b == b'.') then some suffix else none
wildcard_suffix _ = none

unfoldable pub domain_matches : Text → Text → Bool
unfolding clean split_once
domain_matches hostname pattern = elim (wildcard_suffix (clean pattern)) [
  | none ↦ same_codes (clean hostname) (clean pattern)
  | some suffix ↦ elim (split_once b'.' (clean hostname)) [
    | none ↦ false
    | some (label, rest) ↦ same_codes rest suffix
  ]
]

-- `text in texts`
abbrev pub member : Text → List Text → Bool
member s [] = false
member s (t ∷ texts) = same_codes s t || member s texts

abbrev pub any : (Text → Bool) → List Text → Bool
any test [] = false
any test (t ∷ texts) = test t || any test texts

abbrev pub is_empty : Text → Bool
is_empty [] = true
is_empty (c ∷ cs) = false

module _ (A : Addresses) where
  abbrev pub spec_holds : A.Ip → Text → Bool
  spec_holds addr spec = elim (A.ip_network spec) [
    | some network ↦ A.contains network addr
    | none ↦ elim (A.ip_address spec) [ none ↦ false | some other ↦ A.same_ip addr other ]
  ]

  unfoldable pub is_ip_allowed : Text → List Text → Bool
  unfolding strip
  is_ip_allowed host allowed_ips = elim (A.ip_address host) [
    | none ↦ false
    | some addr ↦
        any (λ spec. not (is_empty (strip spec)) && spec_holds addr (strip spec)) allowed_ips
  ]

  unfoldable pub is_domain_allowed : Text → List Text → List Text → List Text → Bool
  unfolding clean domain_matches is_ip_allowed
  is_domain_allowed hostname domains wildcards ips =
      member (clean hostname) domains
      || (any (domain_matches (clean hostname)) wildcards || is_ip_allowed (clean hostname) ips)
