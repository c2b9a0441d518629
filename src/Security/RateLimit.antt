-- ===== src/Security/RateLimit.antt =====
-- `_RateLimiter` of web_security.py. A clock reading is a number of ticks; `hits[0] < now - window` is
-- written with the window on the other side.
use vibe_thinker.Prelude.{
  ℕ, ◌+◌, String, Bool, true, false, List, [], ◌∷◌, ◌++◌, none, some, ltb, leb, length,
  if◌then◌else◌,
}
use vibe_thinker.Prelude.Dict.{Dict, get, put}

pub record RateLimiter : Type 0 where
  pub max : ℕ
  pub window : ℕ
  pub hits : Dict (List ℕ)

unfoldable pub new_limiter : ℕ → ℕ → RateLimiter
new_limiter max window = record { max = max; window = window; hits = [] }

-- `self._hits[key]` of a `defaultdict(deque)`.
abbrev pub bucket : Dict (List ℕ) → String → List ℕ
bucket hits key = elim (get hits key) [ none ↦ [] | some times ↦ times ]

-- `while hits and hits[0] < cutoff: hits.popleft()`
unfoldable pub evict : ℕ → ℕ → List ℕ → List ℕ
evict window now [] = []
evict window now (t ∷ times) =
    let rest = evict window now times in if ltb (t + window) now then rest else t ∷ times

-- The deque after the call, and the verdict.
unfoldable pub admit : ℕ → ℕ → ℕ → List ℕ → List ℕ × Bool
unfolding evict
admit max window now times =
    let live = evict window now times in
    if leb max (length live) then (live, false) else (live ++ now ∷ [], true)

unfoldable pub check : String → ℕ → RateLimiter → RateLimiter × Bool
unfolding admit
check key now limiter =
    let (times, allowed) = admit limiter.max limiter.window now (bucket limiter.hits key) in
    (record limiter { hits = put limiter.hits key times }, allowed)

-- The verdicts of a sequence of calls.
unfoldable pub run_checks : List (String × ℕ) → RateLimiter → List Bool
unfolding check
run_checks [] limiter = []
run_checks ((key, now) ∷ calls) limiter =
    let (limiter', allowed) = check key now limiter in allowed ∷ run_checks calls limiter'
