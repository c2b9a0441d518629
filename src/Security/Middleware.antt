-- ===== src/Security/Middleware.antt =====
-- `security_middleware` and `_BodySizeLimitMiddleware` of web_security.py.
use vibe_thinker.Prelude.{
  ℕ, zero, suc, ◌+◌, String, Bool, true, false, ◌&&◌, List, [], ◌∷◌, Option, none, some, ltb, mem,
  ◌=s◌, if◌then◌else◌,
}
use vibe_thinker.Prelude.Int.{ℤ, pos, negsuc}
use vibe_thinker.Json.{codes}
use vibe_thinker.Security.RateLimit.{RateLimiter, new_limiter, check}

-- `a or b` on optional texts: an empty text counts as none.
abbrev pub or_text : Option String → Option String → Option String
or_text none b = b
or_text (some a) b = if a =s "" then b else some a

-- `api_key or _get_api_key_from_env()`
unfoldable pub effective_key : Option String → Option String → Option String
effective_key api_key env = or_text api_key (or_text env none)

abbrev pub is_ascii : List ℕ → Bool
is_ascii [] = true
is_ascii (c ∷ cs) = ltb c 128 && is_ascii cs

-- `hmac.compare_digest`; `none` is its TypeError for a text that is not ASCII.
unfoldable pub constant_time_eq : Option String → Option String → Option Bool
constant_time_eq none none = some true
constant_time_eq none (some b) = some false
constant_time_eq (some a) none = some false
constant_time_eq (some a) (some b) =
    if is_ascii (codes a) && is_ascii (codes b) then some (a =s b) else none

pub record Gate : Type 0 where
  pub exempt : List String
  pub key : Option String
  pub limiter : Option RateLimiter

-- `configure_security`, without CORS and the body limit; the window of 60 seconds is `minute` ticks.
unfoldable pub configure_security : ℕ → Option String → Option String → ℕ → List String → Gate
unfolding effective_key new_limiter
configure_security minute api_key env rate_limit_per_minute exempt = record {
  exempt = exempt;
  key = effective_key api_key env;
  limiter =
      if ltb 0 rate_limit_per_minute then some (new_limiter rate_limit_per_minute minute) else none;
}

pub data Verdict : Type 0 where
  passes unauthorized rate_limited server_error : Verdict

abbrev pub limit : Option RateLimiter → String → ℕ → Option RateLimiter × Verdict
limit none client now = (none, passes)
limit (some limiter) client now =
    let (limiter', allowed) = check client now limiter in
    (some limiter', if allowed then passes else rate_limited)

abbrev pub rate_gate : String → ℕ → Gate → Gate × Verdict
rate_gate client now g =
    let (limiter, verdict) = limit g.limiter client now in (record g { limiter = limiter }, verdict)

-- `none` is a request on an exempt path or without a key to check.
abbrev pub auth : Gate → String → Option String → Option (Option Bool)
auth g path provided = elim g.key [
  | none ↦ none
  | some key ↦ if mem path g.exempt then none else some (constant_time_eq provided (some key))
]

unfoldable pub security_middleware : String → Option String → String → ℕ → Gate → Gate × Verdict
unfolding constant_time_eq check
security_middleware path provided client now g = elim (auth g path provided) [
  | none ↦ rate_gate client now g
  | some none ↦ (g, server_error)
  | some (some false) ↦ (g, unauthorized)
  | some (some true) ↦ rate_gate client now g
]

-- What the application does next: it awaits a message, starts its response, or returns.
pub data Action : Type 0 where
  receives starts : Action

-- How the call of the middleware ends: the application returns; a 413 is sent; the response had
-- begun, and is cut.
pub data Ending : Type 0 where
  served too_large cut : Ending

-- The application with `guarded_receive` and `guarded_send`: the messages' body lengths (`none` for a
-- message of another type), and how many body bytes it has been given. An application that waits for
-- a message that does not come has ended as far as it got.
unfoldable pub guard : ℕ → ℕ → Bool → List Action → List (Option ℕ) → Ending × ℕ
guard max_bytes received started [] messages = (served, received)
guard max_bytes received started (starts ∷ actions) messages =
    guard max_bytes received true actions messages
guard max_bytes received started (receives ∷ actions) [] = (served, received)
guard max_bytes received started (receives ∷ actions) (none ∷ messages) =
    guard max_bytes received started actions messages
guard max_bytes received started (receives ∷ actions) (some n ∷ messages) =
    let on = guard max_bytes (received + n) started actions messages in
    if ltb max_bytes (received + n) then (if started then cut else too_large, received) else on

-- `content_length` is the first such header: `some none` if it is no number.
abbrev pub advertises : ℕ → Option (Option ℕ) → Bool
advertises max_bytes (some (some n)) = ltb max_bytes n
advertises max_bytes _ = false

-- The application called as it is: it gets every message that it awaits.
abbrev pub deliver : ℕ → List Action → List (Option ℕ) → Ending × ℕ
deliver received [] messages = (served, received)
deliver received (starts ∷ actions) messages = deliver received actions messages
deliver received (receives ∷ actions) [] = (served, received)
deliver received (receives ∷ actions) (none ∷ messages) = deliver received actions messages
deliver received (receives ∷ actions) (some n ∷ messages) = deliver (received + n) actions messages

-- The call on an HTTP request; a limit of 0 or less is none.
unfoldable pub body_limit : ℤ → Option (Option ℕ) → List Action → List (Option ℕ) → Ending × ℕ
unfolding guard
body_limit (negsuc n) content_length actions messages = deliver 0 actions messages
body_limit (pos zero) content_length actions messages = deliver 0 actions messages
body_limit (pos (suc n)) content_length actions messages =
    let max_bytes = suc n in
    if advertises max_bytes content_length
    then (too_large, 0)
    else guard max_bytes 0 false actions messages
