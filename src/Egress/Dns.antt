-- ===== src/Egress/Dns.antt =====
-- `DnsAuditor` and `_resolve_host` of sandbox/sni_proxy.py, without the printed audit lines.
use vibe_thinker.Prelude.{
  ℕ, ◌+◌, Bool, true, List, [], ◌∷◌, ◌++◌, Option, none, some, ltb, length, if◌then◌else◌,
}
use vibe_thinker.Text.{Text, same_codes}
use vibe_thinker.Egress.Domain.{clean}

-- `queries` is the `defaultdict(deque)`.
pub record Auditor : Type 0 where
  pub rate_limit : Option ℕ
  pub window : ℕ
  pub queries : Text → List ℕ
  pub allowed_count : ℕ
  pub denied_count : ℕ

abbrev pub update : Text → List ℕ → (Text → List ℕ) → Text → List ℕ
update domain times queries d = if same_codes domain d then times else queries d

-- `while bucket and bucket[0] < cutoff: bucket.popleft()`
unfoldable pub evict_queries : ℕ → ℕ → List ℕ → List ℕ
evict_queries window now [] = []
evict_queries window now (t ∷ times) =
    let rest = evict_queries window now times in if ltb (t + window) now then rest else t ∷ times

abbrev pub allow_under : Option ℕ → Text → ℕ → Auditor → Auditor × Bool
allow_under none domain now a = (a, true)
allow_under (some most) domain now a =
    let times = evict_queries a.window now (a.queries domain) in
    (record a { queries = update domain times a.queries }, ltb (length times) most)

unfoldable pub allow_query : Text → ℕ → Auditor → Auditor × Bool
unfolding clean evict_queries
allow_query domain now a = allow_under a.rate_limit (clean domain) now a

abbrev pub counted : Option ℕ → Text → ℕ → Auditor → Text → List ℕ
counted none domain now a = a.queries
counted (some most) domain now a = update domain (a.queries domain ++ now ∷ []) a.queries

-- `record` with the verdict "allowed", and with another one.
unfoldable pub record_allowed : Text → ℕ → Auditor → Auditor
unfolding clean
record_allowed domain now a = record a {
  allowed_count = a.allowed_count + 1;
  queries = counted a.rate_limit (clean domain) now a;
}

unfoldable pub record_denied : Auditor → Auditor
record_denied a = record a { denied_count = a.denied_count + 1 }

abbrev pub conclude_lookup : Text → ℕ → Option (List Text) → Auditor → Auditor × Option Text
conclude_lookup host now none a = (record_denied a, none)
conclude_lookup host now (some []) a = (record_denied a, none)
conclude_lookup host now (some (ip ∷ ips)) a = (record_allowed host now a, some ip)

-- `answer` is what `getaddrinfo` gives (`none` for its error), and `others` what other connections do
-- to the auditor while it is awaited.
unfoldable pub resolve_host :
    Text → ℕ → ℕ → Option (List Text) → (Auditor → Auditor) → Auditor → Auditor × Option Text
unfolding allow_query record_allowed record_denied
resolve_host host now later answer others a =
    let (a', allowed) = allow_query host now a in
    if allowed then conclude_lookup host later answer (others a') else (record_denied a', none)
