-- ===== src/Egress/Tests.antt =====
-- The proxy of sandbox/sni_proxy.py on small inputs.
use vibe_thinker.Prelude.{
  ℕ, ◌≡◌, refl, ◌↔◌, true, false, List, [], ◌∷◌, ◌++◌, Option, none, some, length, ◌==◌,
  if◌then◌else◌,
}
use vibe_thinker.Prelude.Int.{ℤ, pos}
use vibe_thinker.Text.{Text, Without}
use vibe_thinker.Egress.Domain.{Addresses, clean, domain_matches, is_domain_allowed}
use vibe_thinker.Egress.Ports.{Entry, extract_allowlist_sets}
use vibe_thinker.Egress.Dns.{Auditor}
use vibe_thinker.Egress.Sni.{extract_sni}
use vibe_thinker.Egress.Proxy.{Proxy, World, tunnel, handle_connect}
use vibe_thinker.Egress.Matching.{domain_matches-wildcard}
use vibe_thinker.Egress.AllowList.{names}

-- A package that takes a text for an address if it begins with the digit 1.
abbrev addresses : Addresses
addresses = record {
  Ip = ℕ;
  Net = ℕ;
  ip_address = λ t. elim t [ [] ↦ none | c ∷ cs ↦ if c == b'1' then some (length cs) else none ];
  ip_network = λ t. none;
  contains = λ n i. false;
  same_ip = λ i j. i == j;
}

abbrev read_int : Text → Option ℤ
read_int t = some (pos 443)

abbrev pattern_text : Text
pattern_text = b'*' ∷ b'.' ∷ b'b' ∷ b'.' ∷ b'c' ∷ []

abbrev suffix : Text
suffix = b'b' ∷ b'.' ∷ b'c' ∷ []

domain_matches-wildcard_example :
    (domain_matches (b'A' ∷ b'.' ∷ b'B' ∷ b'.' ∷ b'c' ∷ []) pattern_text ≡ true) ↔ (
      (label : Text) × (clean (b'A' ∷ b'.' ∷ b'B' ∷ b'.' ∷ b'c' ∷ []) ≡ label ++ b'.' ∷ suffix)
      × Without b'.' label)
unfolding clean
domain_matches-wildcard_example =
    domain_matches-wildcard (b'A' ∷ b'.' ∷ b'B' ∷ b'.' ∷ b'c' ∷ []) pattern_text suffix refl

matches_run :
    (domain_matches (b'A' ∷ b'.' ∷ b'B' ∷ b'.' ∷ b'c' ∷ []) pattern_text ≡ true)
    × (domain_matches suffix pattern_text ≡ false)
unfolding domain_matches
matches_run = (refl, refl)

abbrev host : Text
host = b'a' ∷ b'.' ∷ b'c' ∷ []

abbrev auditor : Auditor
auditor = record {
  rate_limit = some 1;
  window = 60;
  queries = λ d. [];
  allowed_count = 0;
  denied_count = 0;
}

abbrev proxy : Proxy
proxy = record {
  domains = host ∷ [];
  wildcards = [];
  ips = [];
  ports = (host, pos 443 ∷ []) ∷ [];
  auditor = auditor;
  allowed_count = 0;
  denied_count = 0;
}

abbrev address : Text
address = b'1' ∷ b'2' ∷ []

abbrev world : World
world = record {
  now = 5;
  later = 6;
  answer = some (address ∷ []);
  others = λ a. a;
  connects = true;
  first_bytes = some (0 ∷ []);
}

abbrev target : Text
target = b'a' ∷ b'.' ∷ b'c' ∷ b':' ∷ b'4' ∷ b'4' ∷ b'3' ∷ []

connects :
    (handle_connect addresses read_int ([] ∷ target ∷ []) world proxy).1
    ≡ tunnel address (pos 443) (some (0 ∷ []))
unfolding handle_connect
connects = refl

-- A ClientHello without session, with one cipher suite and one compression method.
abbrev handshake : List ℕ
handshake =
    1 ∷ 0 ∷ 0 ∷ 57 ∷ 3 ∷ 3 ∷ 0 ∷ 0 ∷ 0 ∷ 0 ∷ 0 ∷ 0 ∷ 0 ∷ 0 ∷ 0 ∷ 0 ∷ 0 ∷ 0 ∷ 0 ∷ 0 ∷ 0 ∷ 0 ∷ 0 ∷ 0
    ∷ 0 ∷ 0 ∷ 0 ∷ 0 ∷ 0 ∷ 0 ∷ 0 ∷ 0 ∷ 0 ∷ 0 ∷ 0 ∷ 0 ∷ 0 ∷ 0 ∷ 0 ∷ 0 ∷ 2 ∷ 19 ∷ 1 ∷ 1 ∷ 0 ∷ 0 ∷ 12
    ∷ 0 ∷ 0 ∷ 0 ∷ 8 ∷ 0 ∷ 6 ∷ 0 ∷ 0 ∷ 3 ∷ 97 ∷ 46 ∷ 99 ∷ []

sni_run : extract_sni (22 ∷ 3 ∷ 1 ∷ 0 ∷ 59 ∷ handshake) ≡ some host
unfolding extract_sni
sni_run = refl

abbrev entries : List Entry
entries = names host (pos 443) ∷ []

-- A domain that the allow-list writes with a capital letter is never let through.
capital_blocked :
    let s = extract_allowlist_sets (names (b'A' ∷ b'.' ∷ b'c' ∷ []) (pos 443) ∷ []) in
    is_domain_allowed addresses (b'A' ∷ b'.' ∷ b'c' ∷ []) s.domains s.wildcards s.ips ≡ false
unfolding extract_allowlist_sets is_domain_allowed
capital_blocked = refl
