-- ===== src/Egress/Tunnel.antt =====
-- What a tunnel through the proxy of sandbox/sni_proxy.py has passed.
use vibe_thinker.Prelude.{ℕ, ◌≡◌, ◌⊎◌, true, List, ◌∷◌, Option, none, some}
use vibe_thinker.Prelude.Int.{ℤ}
use vibe_thinker.Text.{Text}
use vibe_thinker.Egress.Domain.{Addresses, is_domain_allowed}
use vibe_thinker.Egress.Ports.{is_port_allowed}
use vibe_thinker.Egress.Dns.{allow_query}
use vibe_thinker.Egress.Sni.{extract_sni}
use vibe_thinker.Egress.Proxy.{Proxy, World, split_target, sni_agrees, is_ip_literal}

-- What stands behind a tunnel: its host and port were allowed, its address is the first that the
-- resolver gave for the host, within the rate limit, and a peeked name agrees with the host.
pub record Granted (A : Addresses) (read_int : Text → Option ℤ) (target : Text) (w : World)
    (p : Proxy) (address : Text) (port : ℤ) (first : Option (List ℕ)) : Type 0 where
  pub host_allowed : is_domain_allowed A (split_target target).0 p.domains p.wildcards p.ips ≡ true
  pub number : read_int (split_target target).1 ≡ some port
  pub port_allowed : is_port_allowed A p.ports p.wildcards (split_target target).0 port ≡ true
  pub in_rate : (allow_query (split_target target).0 w.now p.auditor).1 ≡ true
  pub resolved : (ips : List Text) × (w.answer ≡ some (address ∷ ips))
  pub connected : w.connects ≡ true
  pub named :
      ((is_ip_literal A read_int (split_target target).0 ≡ true) × (first ≡ none))
      ⊎ ((peeked : List ℕ) × (w.first_bytes ≡ some peeked)
          × (first ≡ some peeked)
          × (sni_agrees (extract_sni peeked) (split_target target).0 ≡ true))
