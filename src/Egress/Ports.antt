-- ===== src/Egress/Ports.antt =====
-- `_is_port_allowed` and `extract_allowlist_sets` of sandbox/sni_proxy.py. A set is a list in the
-- order in which Python iterates over it; a dictionary is a list of its items.
use vibe_thinker.Prelude.{
  Bool, true, false, not, ◌&&◌, ◌||◌, List, [], ◌∷◌, ◌++◌, Option, none, some, ◌==◌, if◌then◌else◌,
}
use vibe_thinker.Prelude.Int.{ℤ, pos_part, neg_part}
use vibe_thinker.Text.{Text, lowered, same_codes}
use vibe_thinker.Egress.Domain.{Addresses, clean, domain_matches, member}

abbrev pub Ports : Type 0
Ports = List (Text × List ℤ)

abbrev pub same_port : ℤ → ℤ → Bool
same_port a b = (pos_part a == pos_part b) && (neg_part a == neg_part b)

-- `port in ports`
abbrev pub has_port : ℤ → List ℤ → Bool
has_port port [] = false
has_port port (p ∷ ports) = same_port port p || has_port port ports

-- `ports.get(key)`; a missing key and an empty set are alike for the tests that follow.
unfoldable pub ports_of : Ports → Text → List ℤ
ports_of [] key = []
ports_of ((k, ports) ∷ rest) key = if same_codes k key then ports else ports_of rest key

abbrev pub no_ports : List ℤ → Bool
no_ports [] = true
no_ports (p ∷ ports) = false

-- The first pattern that matches and carries a restriction decides.
unfoldable pub wildcard_ports : Ports → Text → List Text → List ℤ
unfolding domain_matches ports_of
wildcard_ports allowed host [] = []
wildcard_ports allowed host (pattern ∷ patterns) =
    let ports = ports_of allowed (lowered pattern) in
    let rest = wildcard_ports allowed host patterns in
    if domain_matches host pattern && not (no_ports ports) then ports else rest

module _ (A : Addresses) where
  -- The first key that is a network around the address decides.
  abbrev pub network_allows : A.Ip → ℤ → Ports → Bool
  network_allows addr port [] = true
  network_allows addr port ((key, ports) ∷ rest) =
      let later = network_allows addr port rest in
      elim (A.ip_network key) [
        | none ↦ later
        | some network ↦ if A.contains network addr then has_port port ports else later
      ]

  unfoldable pub is_port_allowed : Ports → List Text → Text → ℤ → Bool
  unfolding clean ports_of wildcard_ports
  is_port_allowed allowed wildcards hostname port =
      let host = clean hostname in
      if not (no_ports (ports_of allowed host))
      then has_port port (ports_of allowed host)
      else if not (no_ports (wildcard_ports allowed host wildcards))
      then has_port port (wildcard_ports allowed host wildcards)
      else elim (A.ip_address host) [ none ↦ true | some addr ↦ network_allows addr port allowed ]

pub data Kind : Type 0 where
  domain ip cidr : Kind

-- An entry of the allow-list, as far as the extraction reads it.
pub record Entry : Type 0 where
  pub kind : Kind
  pub host : Text
  pub port : Option ℤ
  pub wildcard : Bool

-- `set.add`
abbrev pub add : Text → List Text → List Text
add s texts = if member s texts then texts else texts ++ s ∷ []

-- The set under the key is made if it is missing, and the port is added to it.
unfoldable pub add_port : Text → ℤ → Ports → Ports
add_port key port [] = (key, port ∷ []) ∷ []
add_port key port ((k, ports) ∷ rest) =
    let later = add_port key port rest in
    if same_codes k key
    then (k, if has_port port ports then ports else ports ++ port ∷ []) ∷ rest
    else (k, ports) ∷ later

abbrev pub restrict : Text → Option ℤ → Ports → Ports
restrict key none allowed = allowed
restrict key (some port) allowed = add_port (lowered key) port allowed

pub record Sets : Type 0 where
  pub domains : List Text
  pub wildcards : List Text
  pub ips : List Text
  pub ports : Ports

abbrev pub star : Text → Text
star host = b'*' ∷ b'.' ∷ host

abbrev pub add_domain : Bool → Entry → Sets → Sets
add_domain true e s = record s {
  wildcards = add (star e.host) s.wildcards;
  ports = restrict (star e.host) e.port s.ports;
}
add_domain false e s = record s {
  domains = add e.host s.domains;
  ports = restrict e.host e.port s.ports;
}

abbrev pub add_entry : Kind → Entry → Sets → Sets
add_entry Kind.domain e s = add_domain e.wildcard e s
add_entry _ e s = record s { ips = add e.host s.ips; ports = restrict e.host e.port s.ports }

abbrev pub add_entries : List Entry → Sets → Sets
add_entries [] s = s
add_entries (e ∷ es) s = add_entries es (add_entry e.kind e s)

unfoldable pub extract_allowlist_sets : List Entry → Sets
unfolding add_port
extract_allowlist_sets es =
    add_entries es (record { domains = []; wildcards = []; ips = []; ports = [] })
