-- ===== src/Security/Tests.antt =====
-- The checks of web_security.py on small inputs.
use vibe_thinker.Prelude.{
  ℕ, ◌≡◌, refl, ◌≢◌, String, true, false, List, [], ◌∷◌, Option, none, some, arith,
}
use vibe_thinker.Security.RateLimit.{new_limiter, run_checks}
use vibe_thinker.Security.Window.{ideal}
use vibe_thinker.Security.Limit.{run_checks-ideal}
use vibe_thinker.Security.Middleware.{
  Gate, passes, security_middleware, Action, receives, starts, body_limit,
}
use vibe_thinker.Prelude.Int.{pos, ◌≤ℤ◌}
use vibe_thinker.Security.Gate.{security_middleware-key, Unlimited, Limited, body_limit-exact}

abbrev calls : List (String × ℕ)
calls = ("a", 1) ∷ ("a", 2) ∷ ("b", 3) ∷ ("a", 4) ∷ ("a", 70) ∷ []

-- The third request of a client in a minute is refused, and not counted.
verdicts : ideal 2 60 [] calls ≡ true ∷ true ∷ true ∷ false ∷ true ∷ []
unfolding ideal
verdicts = refl

run_checks-ideal_example : run_checks calls (new_limiter 2 60) ≡ ideal 2 60 [] calls
run_checks-ideal_example =
    run_checks-ideal 2 60 calls
      (omega arith, (omega arith, (omega arith, (omega arith, (omega arith, tt)))))

abbrev no_key : Option String
no_key = none

abbrev gate : Gate
gate = record { exempt = "/health" ∷ []; key = some "k"; limiter = none }

security_middleware-key_example :
    ((security_middleware "/submit" no_key "c" 0 gate).1 ≡ passes → no_key ≡ some "k")
    × (no_key ≢ some "k" → (security_middleware "/submit" no_key "c" 0 gate).0 ≡ gate)
security_middleware-key_example = security_middleware-key "/submit" no_key "c" 0 gate "k" refl refl

abbrev actions : List Action
actions = receives ∷ starts ∷ receives ∷ []

abbrev messages : List (Option ℕ)
messages = some 4 ∷ some 5 ∷ []

body_limit-exact_example :
    let reply = body_limit (pos 8) none actions messages in
    ((pos 8 ≤ℤ pos 0) → Unlimited actions messages reply)
    × ((pos 1 ≤ℤ pos 8) → Limited 8 none actions messages reply)
body_limit-exact_example = body_limit-exact (pos 8) none actions messages
