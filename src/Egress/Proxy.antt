-- ===== src/Egress/Proxy.antt =====
-- `_handle_connect` of sandbox/sni_proxy.py: the decision on a CONNECT request and what follows it.
use vibe_thinker.Prelude.{
  ℕ, ◌+◌, Bool, true, false, not, ◌||◌, List, [], ◌∷◌, Option, none, some, if◌then◌else◌,
}
use vibe_thinker.Prelude.Int.{ℤ, pos}
use vibe_thinker.Text.{Text, lowered, same_codes, rpartition}
use vibe_thinker.Egress.Domain.{Addresses, is_domain_allowed, is_empty}
use vibe_thinker.Egress.Ports.{Ports, is_port_allowed}
use vibe_thinker.Egress.Dns.{Auditor, resolve_host}
use vibe_thinker.Egress.Sni.{extract_sni}

pub record Proxy : Type 0 where
  pub domains : List Text
  pub wildcards : List Text
  pub ips : List Text
  pub ports : Ports
  pub auditor : Auditor
  pub allowed_count : ℕ
  pub denied_count : ℕ

-- What comes from outside while the request is handled: the readings of the clock, the answer of the
-- resolver and what other connections do meanwhile, whether the upstream accepts, and the client's
-- first bytes (`none` for a timeout or a broken connection).
pub record World : Type 0 where
  pub now : ℕ
  pub later : ℕ
  pub answer : Option (List Text)
  pub others : Auditor → Auditor
  pub connects : Bool
  pub first_bytes : Option (List ℕ)

-- How the connection ends, or that it is tunnelled to an address and a port, the peeked bytes first.
pub data Outcome : Type 0 where
  closed forbidden bad_gateway value_error cut : Outcome
  tunnel : Text → ℤ → Option (List ℕ) → Outcome

abbrev pub split_target : Text → Text × Text
split_target target = elim (rpartition b':' target) [
  | none ↦ (target, b'4' ∷ b'4' ∷ b'3' ∷ [])
  | some (host, port) ↦ if is_empty host then (target, b'4' ∷ b'4' ∷ b'3' ∷ []) else (host, port)
]

abbrev pub deny : Proxy → Proxy
deny p = record p { denied_count = p.denied_count + 1 }

-- A name that differs from the target's closes the connection; an absent or an empty one does not.
abbrev pub sni_agrees : Option Text → Text → Bool
sni_agrees none host = true
sni_agrees (some sni) host = is_empty sni || same_codes (lowered sni) (lowered host)

abbrev pub after_peek : Text → Text → ℤ → Option (List ℕ) → Outcome
after_peek host address port none = cut
after_peek host address port (some []) = cut
after_peek host address port (some (b ∷ bytes)) =
    if sni_agrees (extract_sni (b ∷ bytes)) host
    then tunnel address port (some (b ∷ bytes))
    else cut

module _ (A : Addresses) (read_int : Text → Option ℤ) where
  abbrev pub is_ip_literal : Text → Bool
  is_ip_literal host = elim (A.ip_address host) [ none ↦ false | some addr ↦ true ]

  -- `open_connection(resolved_ip, int(port))`, then the peek.
  abbrev pub open_tunnel : Text → Text → Text → World → Outcome
  open_tunnel host port address w = elim (read_int port) [
    | none ↦ value_error
    | some n ↦
        if not w.connects
        then bad_gateway
        else if is_ip_literal host
        then tunnel address n none
        else after_peek host address n w.first_bytes
  ]

  abbrev pub port_number : Text → ℤ
  port_number port = elim (read_int port) [ none ↦ pos 443 | some n ↦ n ]

  abbrev pub connect_resolved : Text → Text → World → Proxy → Option Text → Proxy × Outcome
  connect_resolved host port w p none = (deny p, forbidden)
  connect_resolved host port w p (some address) =
      (record p { allowed_count = p.allowed_count + 1 }, open_tunnel host port address w)

  abbrev pub connect_to : Text → Text → World → Proxy → Proxy × Outcome
  connect_to host port w p =
      if not (is_domain_allowed A host p.domains p.wildcards p.ips)
      then (deny p, forbidden)
      else if not (is_port_allowed A p.ports p.wildcards host (port_number port))
      then (deny p, forbidden)
      else (let (auditor, resolved) = resolve_host host w.now w.later w.answer w.others p.auditor in
          connect_resolved host port w (record p { auditor = auditor }) resolved)

  -- On the words of the request line.
  unfoldable pub handle_connect : List Text → World → Proxy → Proxy × Outcome
  unfolding is_domain_allowed is_port_allowed resolve_host extract_sni rpartition
  handle_connect (method ∷ target ∷ words) w p =
      let (host, port) = split_target target in connect_to host port w p
  handle_connect _ w p = (record p { denied_count = p.denied_count + 1 }, closed)
