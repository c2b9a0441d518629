-- ===== src/Security/Limit.antt =====
-- The verdicts of `_RateLimiter.check` of web_security.py over any sequence of calls.
use vibe_thinker.Prelude.{
  ℕ, ◌≤◌, ◌≡◌, refl, subst, ap, sym, String, true, false, List, [], ◌∷◌, ◌++◌, arith, eq_iff, leb,
  ◌=s◌, length, Bool-cases, inl, inr, if◌then◌else◌,
}
use vibe_thinker.Prelude.Dict.{Dict, get, put, get-put}
use vibe_thinker.Security.RateLimit.{new_limiter, bucket, evict, admit, check, run_checks}
use vibe_thinker.Security.Window.{
  recent, ideal, Forward, Tracks, later-Tracks, evict-Tracks, evict-length, push-Tracks,
  other-Tracks,
}

bucket-put :
    (hits : Dict (List ℕ)) (key k : String) (times : List ℕ)
    → bucket (put hits key times) k ≡ (if key =s k then times else bucket hits k)
bucket-put hits key k times = ground (arith, get-put hits key k times)

module _ (window : ℕ) where
  -- Every client's deque tracks what was allowed.
  Exact : ℕ → List (String × ℕ) → Dict (List ℕ) → Type 0
  Exact since granted hits = (k : String) → Tracks window since k granted (bucket hits k)

  refuse-Exact :
      (since now : ℕ) (key : String) (granted : List (String × ℕ)) (hits : Dict (List ℕ))
      → since ≤ now
      → Exact since granted hits
      → Exact now granted (put hits key (evict window now (bucket hits key)))
  unfolding Exact
  refuse-Exact since now key granted hits l t k =
      subst (Tracks window now k granted) (sym (bucket-put hits key k _))
        (elim (Bool-cases (key =s k)) [
          | inl same ↦
              rw (same, (eq_iff key k).0 same)
                (evict-Tracks window since now k granted (bucket hits k) l (t k))
          | inr off ↦ rw off (later-Tracks window since now k granted (bucket hits k) l (t k))
        ])

  allow-Exact :
      (since now : ℕ) (key : String) (granted : List (String × ℕ)) (hits : Dict (List ℕ))
      → since ≤ now
      → Exact since granted hits
      → Exact now
          (granted ++ (key, now) ∷ [])
          (put hits key (evict window now (bucket hits key) ++ now ∷ []))
  unfolding Exact
  allow-Exact since now key granted hits l t k =
      subst (Tracks window now k (granted ++ (key, now) ∷ [])) (sym (bucket-put hits key k _))
        (elim (Bool-cases (key =s k)) [
          | inl same ↦
              rw (same, (eq_iff key k).0 same)
                (push-Tracks window now k granted _
                  (evict-Tracks window since now k granted (bucket hits k) l (t k)))
          | inr off ↦ rw off (
              other-Tracks window now k key granted (bucket hits k) off
                (later-Tracks window since now k granted (bucket hits k) l (t k)))
        ])

  verdicts :
      (max since : ℕ) (granted calls : List (String × ℕ)) (hits : Dict (List ℕ))
      → Forward since calls
      → Exact since granted hits
      → run_checks calls (record { max = max; window = window; hits = hits })
        ≡ ideal max window granted calls
  unfolding run_checks check admit ideal Exact
  verdicts max since granted [] hits f t = refl
  verdicts max since granted ((key, now) ∷ calls) hits f t =
      let count = evict-length window since now key granted (bucket hits key) f.0 (t key) in
      elim (Bool-cases (leb max (length (recent window key now granted)))) [
        | inl full ↦
            rw (count, full)
              (ap (◌∷◌ false) (
                verdicts max now granted calls _ f.1
                  (refuse-Exact since now key granted hits f.0 t)))
        | inr room ↦
            rw (count, room)
              (ap (◌∷◌ true) (
                verdicts max now (granted ++ (key, now) ∷ []) calls _ f.1
                  (allow-Exact since now key granted hits f.0 t)))
      ]

-- With a clock that does not go back, a new limiter allows a request exactly if fewer than the
-- maximum of the requests that it allowed to the same client lie in the window that ends now.
pub run_checks-ideal :
    (max window : ℕ) (calls : List (String × ℕ))
    → Forward 0 calls
    → run_checks calls (new_limiter max window) ≡ ideal max window [] calls
unfolding new_limiter Exact get
run_checks-ideal max window calls f =
    verdicts window max 0 [] calls [] f
      (λ k. record { sorted = tt; upto = tt; agree = λ m h. refl })
