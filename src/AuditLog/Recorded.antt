-- ===== src/AuditLog/Recorded.antt =====
-- Logs that bitemporal_log.py writes itself, by `record` or by the migration, and `verify_chain`.
use vibe_thinker.Prelude.{
  ℕ, suc, ◌+◌, ◌≡◌, refl, subst, ap, ◌⊎◌, inl, inr, ◌∙◌, sym, String, Bool, true, false, List, [],
  ◌∷◌, ◌++◌, Option, none, some, length, arith,
}
use mathlib.Core.List.{append-nil, append_assoc}
use vibe_thinker.AuditLog.Entry.{Body, Content, Entry, Line, blank, malformed, written, read_all}
use vibe_thinker.AuditLog.Signer.{Signer}
use vibe_thinker.AuditLog.Writer.{content_of, migrate_rows, migrate_legacy_log}
use vibe_thinker.AuditLog.Verify.{verify_chain}
use vibe_thinker.AuditLog.Chain.{
  record_all, Works, Chain, read-Chain, Chain-verify, record_entry-Chain,
}

abbrev pub bodies_of : List Entry → List Body
bodies_of [] = []
bodies_of (e ∷ es) = e.content.body ∷ bodies_of es

module _ (digest : Content → String) (signer : Option Signer) where
  bodies-append :
      (prev : Option String) (seq : ℕ) (lines : List Line) (e : Entry)
      → Chain digest signer prev seq lines
      → bodies_of (read_all (lines ++ written e ∷ []))
        ≡ bodies_of (read_all lines) ++ e.content.body ∷ []
  unfolding read_all
  bodies-append prev seq [] e c = refl
  bodies-append prev seq (blank ∷ lines) e c = absurd c
  bodies-append prev seq (malformed ∷ lines) e c = absurd c
  bodies-append prev seq (written x ∷ lines) e c =
      ap (◌∷◌ x.content.body) (bodies-append (some (digest x.content)) (suc seq) lines e c.1)

  Chain-valid :
      (strict : Bool) (lines : List Line)
      → Chain digest signer none 1 lines
      → verify_chain digest signer strict lines ≡ []
  unfolding verify_chain
  Chain-valid true lines c =
      rw (read-Chain digest signer none 1 lines c)
        (Chain-verify digest signer true none 1 [] lines (λ m h. refl) c)
  Chain-valid false lines c = Chain-verify digest signer false none 1 [] lines (λ m h. refl) c

  record_all-Chain :
      (bodies : List Body) (lines : List Line)
      → Works signer
      → Chain digest signer none 1 lines
      → (lines' : List Line) × (record_all digest signer bodies lines ≡ some lines')
        × Chain digest signer none 1 lines'
        × (bodies_of (read_all lines') ≡ bodies_of (read_all lines) ++ bodies)
  unfolding record_all
  record_all-Chain [] lines w c = (lines, refl, c, sym (append-nil (bodies_of (read_all lines))))
  record_all-Chain (body ∷ bodies) lines w c =
      let (e, made, chained, same) = record_entry-Chain digest signer body lines w c in
      let (lines', run, done, all) = record_all-Chain bodies (lines ++ written e ∷ []) w chained in
      (
        lines',
        rw (record_all, made) run,
        done,
        all
            ∙ ap (λ bs. bs ++ bodies) (bodies-append none 1 lines e c)
            ∙ append_assoc (bodies_of (read_all lines)) (e.content.body ∷ []) bodies
            ∙ rw same refl,
      )

  -- With no signer, or one that can sign and whose public key accepts what its private key signed,
  -- every sequence of writes to a new log succeeds, gives back the written bodies in their order, and
  -- passes the verification, strict or not, without a problem.
  pub record_all-valid :
      (strict : Bool) (bodies : List Body)
      → Works signer
      → (lines : List Line) × (record_all digest signer bodies [] ≡ some lines)
        × (bodies_of (read_all lines) ≡ bodies)
        × (verify_chain digest signer strict lines ≡ [])
  unfolding read_all
  record_all-valid strict bodies w =
      let (lines, run, chained, all) = record_all-Chain bodies [] w tt in
      (lines, run, all, Chain-valid strict lines chained)

module _ (digest : Content → String) where
  migrate_rows-Chain :
      (prev : Option String) (seq : ℕ) (rows : List Body)
      → Chain digest none prev seq (migrate_rows digest prev seq rows)
  unfolding migrate_rows
  migrate_rows-Chain prev seq [] = tt
  migrate_rows-Chain prev seq (body ∷ rows) =
      let next = some (digest (content_of digest prev seq body)) in
      let one_more : seq + 1 ≡ suc seq = omega arith in
      (
        record { schema = refl; number = refl; previous = refl; hash = refl; signed = refl },
        subst (λ n. Chain digest none next n (migrate_rows digest next (seq + 1) rows)) one_more
            (migrate_rows-Chain next (seq + 1) rows),
      )

  bodies-migrate_rows :
      (prev : Option String) (seq : ℕ) (rows : List Body)
      → bodies_of (read_all (migrate_rows digest prev seq rows)) ≡ rows
  unfolding migrate_rows read_all
  bodies-migrate_rows prev seq [] = refl
  bodies-migrate_rows prev seq (body ∷ rows) =
      ap (◌∷◌ body)
        (bodies-migrate_rows (some (digest (content_of digest prev seq body))) (seq + 1) rows)

  -- To a new file, or with leave to overwrite, the migration writes every legacy row in its order,
  -- counts them, and what it writes passes the verification without a signer, strict or not.
  pub migrate_legacy_log-valid :
      (strict overwrite : Bool) (rows : List Body) (out : Option (List Line))
      → (out ≡ none) ⊎ (overwrite ≡ true)
      → (lines : List Line) × (migrate_legacy_log digest (some rows) out overwrite
          ≡ some (some lines, length rows))
        × (bodies_of (read_all lines) ≡ rows)
        × (verify_chain digest none strict lines ≡ [])
  unfolding migrate_legacy_log
  migrate_legacy_log-valid strict overwrite rows out h =
      let lines = migrate_rows digest none 1 rows in
      (
        lines,
        writes out overwrite h,
        bodies-migrate_rows none 1 rows,
        Chain-valid digest none strict lines (migrate_rows-Chain none 1 rows),
      )
    where
      writes :
          (out : Option (List Line)) (overwrite : Bool)
          → (out ≡ none) ⊎ (overwrite ≡ true)
          → migrate_legacy_log digest (some rows) out overwrite
            ≡ some (some (migrate_rows digest none 1 rows), length rows)
      writes none b h = refl
      writes (some old) true h = refl
      writes (some old) false (inl h) = cc
      writes (some old) false (inr h) = cc
