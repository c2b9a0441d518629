-- ===== src/Security/Gate.antt =====
-- What web_security.py lets through.
use vibe_thinker.Prelude.{
  ℕ, zero, suc, ◌+◌, ◌≤◌, ◌<◌, ◌≡◌, refl, ap, ◌≢◌, String, Bool, true, false, List, [], ◌∷◌, Option,
  none, some, arith, eq_iff, ltb, mem, Option-cases, Bool-cases, inl, inr, if◌then◌else◌, if_both,
}
use vibe_thinker.Prelude.Int.{ℤ, pos, negsuc, pos_part, ◌≤ℤ◌}
use vibe_thinker.Security.Middleware.{
  constant_time_eq, Gate, passes, security_middleware, Action, Ending, receives, starts, served,
  too_large, cut, guard, advertises, deliver, body_limit,
}

-- Two texts that compare equal are the same.
constant_time_eq-some :
    (provided : Option String) (key : String)
    → constant_time_eq provided (some key) ≡ some true
    → provided ≡ some key
unfolding constant_time_eq
constant_time_eq-some none key h = absurd (cc h)
constant_time_eq-some (some a) key h = ground (arith, h, eq_iff a key)

-- Behind a key, on a path that is not exempt, a request passes only with that key; and one that is
-- turned away for its key, or by an error, has not touched the rate limiter.
pub security_middleware-key :
    (path : String) (provided : Option String) (client : String) (now : ℕ) (g : Gate) (key : String)
    → g.key ≡ some key
    → mem path g.exempt ≡ false
    → ((security_middleware path provided client now g).1 ≡ passes → provided ≡ some key)
      × (provided ≢ some key → (security_middleware path provided client now g).0 ≡ g)
unfolding security_middleware
security_middleware-key path provided client now g key h e =
    elim (Option-cases (constant_time_eq provided (some key))) [
      | inl err ↦
          rw (security_middleware, h, e, err)
            (λ p. absurd (cc p), λ n. ap (λ k. record g { key = k }) h)
      | inr (true, same) ↦
          let it = constant_time_eq-some provided key same in (λ p. it, λ n. absurd (n it))
      | inr (false, other) ↦
          rw (security_middleware, h, e, other)
            (λ p. absurd (cc p), λ n. ap (λ k. record g { key = k }) h)
    ]

-- The body bytes that the messages bring, up to the last one that the application awaits.
abbrev pub demand : List Action → List (Option ℕ) → ℕ
demand [] messages = 0
demand (starts ∷ actions) messages = demand actions messages
demand (receives ∷ actions) [] = 0
demand (receives ∷ actions) (none ∷ messages) = demand actions messages
demand (receives ∷ actions) (some n ∷ messages) = n + demand actions messages

not_served : (started : Bool) → (if started then cut else too_large) ≢ served
not_served true e = cc e
not_served false e = cc e

guard-bound :
    (max received : ℕ) (started : Bool) (actions : List Action) (messages : List (Option ℕ))
    → received ≤ max
    → let (ending, given) = guard max received started actions messages in
      (given ≤ max)
      × (received + demand actions messages ≤ max
          → (ending ≡ served) × (given ≡ received + demand actions messages))
      × (max < received + demand actions messages → ending ≢ served)
unfolding guard
guard-bound max received started [] messages h = (h, λ l. (refl, omega arith), λ l e. omega arith)
guard-bound max received started (starts ∷ actions) messages h =
    guard-bound max received true actions messages h
guard-bound max received started (receives ∷ actions) [] h =
    (h, λ l. (refl, omega arith), λ l e. omega arith)
guard-bound max received started (receives ∷ actions) (none ∷ messages) h =
    guard-bound max received started actions messages h
guard-bound max received started (receives ∷ actions) (some n ∷ messages) h =
    elim (Bool-cases (ltb max (received + n))) [
      | inl over ↦ rw over (h, λ l. absurd (ground (arith, over, l)), λ l. not_served started)
      | inr fits ↦ rw fits (
          let (a, b, c) =
            guard-bound max (received + n) started actions messages (ground (arith, fits)) in
          (
            a,
            λ l. ((b (omega (arith, l))).0, omega (arith, (b (omega (arith, l))).1)),
            λ l. c (omega (arith, l)),
          ))
    ]

deliver-demand :
    (received : ℕ) (actions : List Action) (messages : List (Option ℕ))
    → let (ending, given) = deliver received actions messages in
      (ending ≡ served) × (given ≡ received + demand actions messages)
deliver-demand received [] messages = (refl, omega arith)
deliver-demand received (starts ∷ actions) messages = deliver-demand received actions messages
deliver-demand received (receives ∷ actions) [] = (refl, omega arith)
deliver-demand received (receives ∷ actions) (none ∷ messages) =
    deliver-demand received actions messages
deliver-demand received (receives ∷ actions) (some n ∷ messages) =
    let (done, given) = deliver-demand (received + n) actions messages in
    (done, omega (arith, given))

-- What a limit of at least one byte makes of a request.
abbrev pub Limited : ℕ → Option (Option ℕ) → List Action → List (Option ℕ) → Ending × ℕ → Type 0
Limited max content_length actions messages (ending, given) =
    (given ≤ max)
    × (advertises max content_length ≡ false
        → (demand actions messages ≤ max → (ending ≡ served) × (given ≡ demand actions messages))
          × (max < demand actions messages → ending ≢ served))

-- What an application gets that no limit guards.
abbrev pub Unlimited : List Action → List (Option ℕ) → Ending × ℕ → Type 0
Unlimited actions messages (ending, given) = (ending ≡ served) × (given ≡ demand actions messages)

unguarded :
    (actions : List Action) (messages : List (Option ℕ))
    → Unlimited actions messages (deliver 0 actions messages)
unguarded actions messages =
    let (done, given) = deliver-demand 0 actions messages in (done, omega (arith, given))

guarded :
    (max : ℕ) (content_length : Option (Option ℕ)) (actions : List Action)
    (messages : List (Option ℕ))
    → Limited max content_length actions messages (
        if advertises max content_length
        then (too_large, 0)
        else guard max 0 false actions messages)
guarded max content_length actions messages =
    let (a, b, c) = guard-bound max 0 false actions messages (omega arith) in
    if_both (Limited max content_length actions messages) (advertises max content_length) _ _
      (λ e. (omega arith, λ f. absurd (cc (e, f))))
      (λ e. (
        a,
        λ f. (
          λ l. ((b (omega (arith, l))).0, omega (arith, (b (omega (arith, l))).1)),
          λ l. c (omega (arith, l)),
        ),
      ))

-- Under a limit of at least one byte, the application is never given more body bytes than the limit,
-- whatever the request advertises; a request that does not advertise too much is served exactly if
-- the bytes that the application asks for are within the limit, and then it gets all of them. With a
-- limit of 0 or less every request is served, with all the bytes that the application asks for.
pub body_limit-exact :
    (max_bytes : ℤ) (content_length : Option (Option ℕ)) (actions : List Action)
    (messages : List (Option ℕ))
    → let reply = body_limit max_bytes content_length actions messages in
      ((max_bytes ≤ℤ pos 0) → Unlimited actions messages reply)
      × ((pos 1 ≤ℤ max_bytes) → Limited (pos_part max_bytes) content_length actions messages reply)
unfolding body_limit
body_limit-exact (negsuc n) content_length actions messages =
    (λ h. unguarded actions messages, λ h. absurd (omega (arith, h)))
body_limit-exact (pos zero) content_length actions messages =
    (λ h. unguarded actions messages, λ h. absurd (omega (arith, h)))
body_limit-exact (pos (suc n)) content_length actions messages =
    (λ h. absurd (omega (arith, h)), λ h. guarded (suc n) content_length actions messages)
