-- ===== src/Egress/AllowList.antt =====
-- The allow-list of sandbox/sni_proxy.py against the sets that the proxy checks.
use vibe_thinker.Prelude.{
  ◌≡◌, refl, subst, sym, Bool, true, false, ◌||◌, List, [], ◌∷◌, ◌++◌, Option, none, some, arith,
  In, inl, inr,
}
use vibe_thinker.Prelude.Int.{ℤ, pos, negsuc}
use vibe_thinker.Text.{Text, lowered, strip, same_codes_refl}
use vibe_thinker.Egress.Domain.{Addresses, clean, member, is_domain_allowed}
use vibe_thinker.Egress.Ports.{
  Ports, same_port, has_port, ports_of, no_ports, is_port_allowed, Kind, Entry, add, add_port,
  restrict, Sets, star, add_domain, add_entry, add_entries, extract_allowlist_sets,
}

member-append : (s : Text) (ts us : List Text) → member s (ts ++ us) ≡ (member s ts || member s us)
member-append s [] us = refl
member-append s (t ∷ ts) us = ground (arith, member-append s ts us)

add-member : (s : Text) (ts : List Text) → member s (add s ts) ≡ true
add-member s ts = ground (arith, member-append s ts (s ∷ []), same_codes_refl s)

add-keeps : (s t : Text) (ts : List Text) → member s ts ≡ true → member s (add t ts) ≡ true
add-keeps s t ts h = ground (arith, member-append s ts (t ∷ []), h)

same_port_refl : (p : ℤ) → same_port p p ≡ true
same_port_refl (pos n) = ground arith
same_port_refl (negsuc n) = ground arith

has_port-append :
    (p : ℤ) (ps qs : List ℤ) → has_port p (ps ++ qs) ≡ (has_port p ps || has_port p qs)
has_port-append p [] qs = refl
has_port-append p (q ∷ ps) qs = ground (arith, has_port-append p ps qs)

add_port-has :
    (key : Text) (p : ℤ) (allowed : Ports)
    → has_port p (ports_of (add_port key p allowed) key) ≡ true
unfolding add_port ports_of
add_port-has key p [] = ground (arith, same_codes_refl key, same_port_refl p)
add_port-has key p ((k, ps) ∷ rest) =
    ground (arith, add_port-has key p rest, has_port-append p ps (p ∷ []), same_port_refl p)

add_port-keeps :
    (key k : Text) (p q : ℤ) (allowed : Ports)
    → has_port p (ports_of allowed key) ≡ true
    → has_port p (ports_of (add_port k q allowed) key) ≡ true
unfolding add_port ports_of
add_port-keeps key k p q [] h = absurd (cc h)
add_port-keeps key k p q ((j, ps) ∷ rest) h =
    ground (arith, h, add_port-keeps key k p q rest, has_port-append p ps (q ∷ []))

restrict-keeps :
    (key k : Text) (p : ℤ) (port : Option ℤ) (allowed : Ports)
    → has_port p (ports_of allowed key) ≡ true
    → has_port p (ports_of (restrict k port allowed) key) ≡ true
restrict-keeps key k p none allowed h = h
restrict-keeps key k p (some q) allowed h = add_port-keeps key (lowered k) p q allowed h

-- What the sets hold of a host and a port, they keep.
abbrev Holds : Text → ℤ → Sets → Type 0
Holds host p s = (member host s.domains ≡ true) × (has_port p (ports_of s.ports host) ≡ true)

add_domain-keeps :
    (b : Bool) (host : Text) (p : ℤ) (e : Entry) (s : Sets)
    → Holds host p s
    → Holds host p (add_domain b e s)
add_domain-keeps true host p e s h = (h.0, restrict-keeps host (star e.host) p e.port s.ports h.1)
add_domain-keeps false host p e s h =
    (add-keeps host e.host s.domains h.0, restrict-keeps host e.host p e.port s.ports h.1)

add_entry-keeps :
    (k : Kind) (host : Text) (p : ℤ) (e : Entry) (s : Sets)
    → Holds host p s
    → Holds host p (add_entry k e s)
add_entry-keeps Kind.domain host p e s h = add_domain-keeps e.wildcard host p e s h
add_entry-keeps _ host p e s h = (h.0, restrict-keeps host e.host p e.port s.ports h.1)

add_entries-keeps :
    (es : List Entry) (host : Text) (p : ℤ) (s : Sets)
    → Holds host p s
    → Holds host p (add_entries es s)
add_entries-keeps [] host p s h = h
add_entries-keeps (e ∷ es) host p s h =
    add_entries-keeps es host p _ (add_entry-keeps e.kind host p e s h)

-- A domain in lower case, with a port.
abbrev pub names : Text → ℤ → Entry
names host p = record { kind = Kind.domain; host = host; port = some p; wildcard = false }

add_entries-Holds :
    (es : List Entry) (host : Text) (p : ℤ) (s : Sets)
    → lowered host ≡ host
    → In (names host p) es
    → Holds host p (add_entries es s)
add_entries-Holds [] host p s l i = absurd i
add_entries-Holds (e ∷ es) host p s l (inr there) = add_entries-Holds es host p _ l there
add_entries-Holds (e ∷ es) host p s l (inl here) = add_entries-keeps es host p _ (
    subst (λ x. Holds host p (add_entry x.kind x s)) here
      (
        add-member host s.domains,
        subst (λ k. has_port p (ports_of (add_port k p s.ports) host) ≡ true) (sym l)
            (add_port-has host p s.ports),
      ))

no_ports-has : (p : ℤ) (ports : List ℤ) → has_port p ports ≡ true → no_ports ports ≡ false
no_ports-has p [] h = cc
no_ports-has p (q ∷ ports) h = refl

-- An allow-list that names a domain in lower case with a port lets that domain through on that port,
-- whatever else it names.
pub extract_allowlist_sets-allows :
    (A : Addresses) (es : List Entry) (host : Text) (p : ℤ)
    → lowered host ≡ host
    → strip host ≡ host
    → In (names host p) es
    → let s = extract_allowlist_sets es in
      (is_domain_allowed A host s.domains s.wildcards s.ips ≡ true)
      × (is_port_allowed A s.ports s.wildcards host p ≡ true)
unfolding extract_allowlist_sets is_domain_allowed is_port_allowed clean
extract_allowlist_sets-allows A es host p l t i =
    let h =
      add_entries-Holds es host p (record { domains = []; wildcards = []; ips = []; ports = [] }) l
        i in
    (rw (l, t, h.0) refl, rw (l, t, no_ports-has p _ h.1, h.1) refl)
