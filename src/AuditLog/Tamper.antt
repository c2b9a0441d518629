-- ===== src/AuditLog/Tamper.antt =====
-- What the hash chain of bitemporal_log.py proves about a log that `verify_chain` accepts.
use vibe_thinker.Prelude.{
  ℕ, ◌+◌, ◌≡◌, refl, subst, ap, ◌∙◌, sym, ◌≢◌, String, Bool, true, false, not, List, [], ◌∷◌, ◌++◌,
  Option, none, some, All, length, arith, eq_iff, if◌then◌else◌,
}
use vibe_thinker.AuditLog.Entry.{Field, value_of, Content, Entry, Line, read_strict}
use vibe_thinker.AuditLog.Signer.{Signer}
use vibe_thinker.AuditLog.Verify.{
  Problem, same_hash, flag, is_missing, seen_with, entry_problems, hash_problems, verify_entries,
  verify_chain, strict_problems,
}

-- The hash of the last entry.
abbrev pub final_hash : List Entry → Option String
final_hash [] = none
final_hash (e ∷ []) = value_of e.record_hash
final_hash (e ∷ x ∷ es) = final_hash (x ∷ es)

-- All of the entries but their signatures.
abbrev pub unsigned : List Entry → List (Content × Field String)
unsigned [] = []
unsigned (e ∷ es) = (e.content, e.record_hash) ∷ unsigned es

-- No record hash is null, which `verify_chain` lets pass unchecked.
abbrev pub HasHash : Entry → Type 0
HasHash e = e.record_hash ≢ some none

-- No content of the first log has the digest of another content of the second one.
abbrev pub NoCollision : (Content → String) → List Entry → List Entry → Type 0
NoCollision digest es es' =
    All (λ e. All (λ e'. digest e.content ≡ digest e'.content → e.content ≡ e'.content) es') es

same_hash-eq : (a b : Option String) → same_hash a b ≡ true → a ≡ b
same_hash-eq none none h = refl
same_hash-eq none (some b) h = cc
same_hash-eq (some a) none h = cc
same_hash-eq (some a) (some b) h = ap some ((eq_iff a b).0 h)

both_nil {ℓ} : {A : Type ℓ} (xs ys : List A) → xs ++ ys ≡ [] → (xs ≡ []) × (ys ≡ [])
both_nil [] ys h = (refl, h)
both_nil (x ∷ xs) ys h = absurd (cc h)

flag-nil : (b : Bool) (p : Problem) → flag (not b) p ≡ [] → b ≡ true
flag-nil true p h = refl
flag-nil false p h = cc

-- The last of three branches is taken, if the other two report a problem and none is reported.
third :
    (xs ys ws zs : List Problem) (b b' : Bool)
    → (if b
        then Problem.missing_record_hash ∷ xs
        else if b'
        then ys ++ Problem.missing_sequence_number ∷ ws
        else zs)
      ≡ []
    → (b ≡ false) × (b' ≡ false) × (zs ≡ [])
third xs ys ws zs true b' h = absurd (cc h)
third xs ys ws zs false true h =
    absurd (cc ((both_nil ys (Problem.missing_sequence_number ∷ ws) h).1))
third xs ys ws zs false false h = (refl, refl, h)

is_missing-some : {A : Type 0} (o : Option A) → is_missing o ≡ false → (a : A) × (o ≡ some a)
is_missing-some none h = cc
is_missing-some (some a) h = (a, refl)

module _ (digest : Content → String) (signer : Option Signer) where
  -- What an entry without a problem says.
  record Honest (prev : Option String) (n : ℕ) (seen : List ℕ) (e : Entry) (es : List Entry)
      : Type 0 where
    hash : e.record_hash ≡ some (some (digest e.content))
    previous : value_of e.content.previous_hash ≡ prev
    rest :
        (m : ℕ) × (seen' : List ℕ) × (verify_entries digest signer true
            (some (digest e.content))
            m
            seen'
            es
          ≡ [])

  -- A strict run that reports nothing has left no entry early.
  whole :
      (prev : Option String) (n : ℕ) (seen : List ℕ) (e : Entry) (es : List Entry)
      → verify_entries digest signer true prev n seen (e ∷ es) ≡ []
      → (h : Option String) × (e.record_hash ≡ some h)
        × (entry_problems digest signer true prev n seen e ≡ [])
        × (verify_entries digest signer true h
              (n + 1)
              (seen_with (value_of e.content.sequence_number) seen)
              es
            ≡ [])
  unfolding verify_entries
  whole prev n seen e es v =
      let (no_hash, no_number, z) =
        third _ _ _ _ (is_missing e.record_hash) (is_missing e.content.sequence_number) v in
      let (own, rest) = both_nil (entry_problems digest signer true prev n seen e) _ z in
      let (h, hash) = is_missing-some e.record_hash no_hash in
      (
        h,
        hash,
        own,
        subst
            (λ k.
              verify_entries digest signer true (value_of k) (n + 1)
                (seen_with (value_of e.content.sequence_number) seen) es
              ≡ [])
            hash rest,
      )

  step-Honest :
      (prev : Option String) (n : ℕ) (seen : List ℕ) (e : Entry) (es : List Entry)
      → HasHash e
      → verify_entries digest signer true prev n seen (e ∷ es) ≡ []
      → Honest prev n seen e es
  step-Honest prev n seen e es h v =
      let (k, hash, own, rest) = whole prev n seen e es v in
      let (_, numbered) = both_nil _ _ own in
      let (_, linked) = both_nil _ _ numbered in
      let (link, hashed) = both_nil _ _ linked in
      let (right, _) =
        both_nil (hash_problems digest signer (value_of e.record_hash) e.content) _ hashed in
      let same =
        stored k (λ none_k. h (hash ∙ ap some none_k))
          (subst (λ r. hash_problems digest signer (value_of r) e.content ≡ []) hash right) in
      record {
        hash = hash ∙ ap some same;
        previous = same_hash-eq _ _ (flag-nil _ _ link);
        rest = (
          n + 1,
          seen_with (value_of e.content.sequence_number) seen,
          subst
              (λ p.
                verify_entries digest signer true p (n + 1)
                  (seen_with (value_of e.content.sequence_number) seen) es
                ≡ [])
              same rest,
        );
      }
    where
      stored :
          (k : Option String)
          → k ≢ none
          → hash_problems digest signer k e.content ≡ []
          → k ≡ some (digest e.content)
      stored none h p = absurd (h refl)
      stored (some k) h p = ap some ((eq_iff k (digest e.content)).0 (flag-nil _ _ p))

  fewer-NoCollision :
      (e' : Entry) (es es' : List Entry)
      → NoCollision digest es (e' ∷ es')
      → NoCollision digest es es'
  fewer-NoCollision e' [] es' nc = tt
  fewer-NoCollision e' (e ∷ es) es' nc = (nc.0.1, fewer-NoCollision e' es es' nc.1)

  -- Of two verified logs of one length, in which no hash is null and between which no digests
  -- collide, the hash of the last entry fixes all entries but for their signatures.
  chain_injective :
      (es es' : List Entry) (prev prev' : Option String) (n n' : ℕ) (seen seen' : List ℕ)
      → length es ≡ length es'
      → All HasHash es
      → All HasHash es'
      → NoCollision digest es es'
      → verify_entries digest signer true prev n seen es ≡ []
      → verify_entries digest signer true prev' n' seen' es' ≡ []
      → final_hash es ≡ final_hash es'
      → unsigned es ≡ unsigned es'
  chain_injective [] [] prev prev' n n' seen seen' l hs hs' nc v v' f = refl
  chain_injective [] (e' ∷ es') prev prev' n n' seen seen' l hs hs' nc v v' f = absurd (omega arith)
  chain_injective (e ∷ es) [] prev prev' n n' seen seen' l hs hs' nc v v' f = absurd (omega arith)
  chain_injective (e ∷ []) (e' ∷ []) prev prev' n n' seen seen' l hs hs' nc v v' f =
      let a = step-Honest prev n seen e [] hs.0 v in
      let a' = step-Honest prev' n' seen' e' [] hs'.0 v' in
      let same : some (digest e.content) ≡ some (digest e'.content) =
        sym (ap value_of a.hash) ∙ f ∙ ap value_of a'.hash in
      rw (nc.0.0 (cc same), a.hash ∙ ap some same ∙ sym a'.hash) refl
  chain_injective (e ∷ []) (e' ∷ x' ∷ xs') prev prev' n n' seen seen' l hs hs' nc v v' f =
      absurd (omega arith)
  chain_injective (e ∷ x ∷ xs) (e' ∷ []) prev prev' n n' seen seen' l hs hs' nc v v' f =
      absurd (omega arith)
  chain_injective (e ∷ x ∷ xs) (e' ∷ x' ∷ xs') prev prev' n n' seen seen' l hs hs' nc v v' f =
      let a = step-Honest prev n seen e (x ∷ xs) hs.0 v in
      let a' = step-Honest prev' n' seen' e' (x' ∷ xs') hs'.0 v' in
      let (m, s, w) = a.rest in
      let (m', s', w') = a'.rest in
      let all =
        chain_injective (x ∷ xs) (x' ∷ xs') (some (digest e.content)) (some (digest e'.content)) m
          m' s s' (omega arith) hs.1 hs'.1 (fewer-NoCollision e' (x ∷ xs) (x' ∷ xs') nc.1) w w' f in
      let b = step-Honest (some (digest e.content)) m s x xs hs.1.0 w in
      let b' = step-Honest (some (digest e'.content)) m' s' x' xs' hs'.1.0 w' in
      let same : some (digest e.content) ≡ some (digest e'.content) =
        sym b.previous ∙ ap (λ c. value_of c.previous_hash) (first all) ∙ b'.previous in
      rw (nc.0.0 (cc same), a.hash ∙ ap some same ∙ sym a'.hash, all) refl
    where
      first :
          {c d : Content} {h k : Field String} {cs ds : List (Content × Field String)}
          → (c, h) ∷ cs ≡ (d, k) ∷ ds
          → c ≡ d
      first h = cc h

  -- Of two files that pass the strict verification, have equally many entries, none with a null hash,
  -- and no two entries whose digests collide, the hash of the last entry fixes the contents and the
  -- record hashes of all entries. It does not fix their signatures, which no hash covers: two such
  -- files may differ in them.
  pub verify_chain-tamper :
      (lines lines' : List Line) (es es' : List Entry)
      → read_strict lines ≡ some es
      → read_strict lines' ≡ some es'
      → length es ≡ length es'
      → All HasHash es
      → All HasHash es'
      → NoCollision digest es es'
      → verify_chain digest signer true lines ≡ []
      → verify_chain digest signer true lines' ≡ []
      → final_hash es ≡ final_hash es'
      → unsigned es ≡ unsigned es'
  unfolding verify_chain
  verify_chain-tamper lines lines' es es' r r' l hs hs' nc v v' f =
      chain_injective es es' none none 1 1 [] [] l hs hs' nc
        (subst (λ o. strict_problems digest signer o ≡ []) r v)
        (subst (λ o. strict_problems digest signer o ≡ []) r' v') f
