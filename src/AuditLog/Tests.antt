-- ===== src/AuditLog/Tests.antt =====
-- The audit log of bitemporal_log.py on small inputs.
use vibe_thinker.Prelude.{
  ℕ, ◌≤◌, ◌≡◌, refl, ◌↔◌, String, true, List, [], ◌∷◌, Option, none, some, In,
}
use vibe_thinker.Prelude.Int.{pos}
use vibe_thinker.Prelude.Dict.{get, put}
use vibe_thinker.Json.{obj, end}
use vibe_thinker.AuditLog.Entry.{
  Body, Content, Entry, Line, hmac_sha256, written, read_all, read_strict,
}
use vibe_thinker.AuditLog.Signer.{Signer, hmac, sign}
use vibe_thinker.AuditLog.Verify.{verify_chain}
use vibe_thinker.AuditLog.Chain.{record_all}
use vibe_thinker.AuditLog.Recorded.{bodies_of, record_all-valid}
use vibe_thinker.AuditLog.Tamper.{unsigned, verify_chain-tamper}
use vibe_thinker.AuditLog.Queries.{
  valid, time, job_of, superseded_ids, is_live, history, state_as_of, current_state,
}
use vibe_thinker.AuditLog.Reads.{Known, state_as_of_lem}
use vibe_thinker.AuditLog.Current.{current_state_lem}
use vibe_thinker.AuditLog.History.{IsSorted, history-IsSorted}

abbrev body : String → ℕ → String → Body
body id t event = record {
  record_id = id;
  valid_time = t;
  transaction_time = t;
  job_id = "j";
  event = event;
  status = event;
  query = "q";
  priority = pos 0;
  force_route = none;
  extra = obj end;
  correction_of = none;
}

-- A digest that tells these bodies apart.
abbrev digest : Content → String
digest c = c.body.event

abbrev bodies : List Body
bodies = body "r1" 1 "submitted" ∷ body "r2" 2 "started" ∷ []

abbrev signer : Option Signer
signer = some (hmac digest)

record_all-valid_example :
    (lines : List Line) × (record_all digest signer bodies [] ≡ some lines)
    × (bodies_of (read_all lines) ≡ bodies)
    × (verify_chain digest signer true lines ≡ [])
unfolding sign
record_all-valid_example =
    record_all-valid digest signer true bodies (tt, λ c. (hmac_sha256 (digest c), refl))

abbrev entry : Option String → ℕ → Body → Entry
entry previous n b = record {
  content = record {
    schema_version = some 2;
    sequence_number = some (some n);
    previous_hash = some previous;
    body = b;
  };
  record_hash = some (some b.event);
  signature = none;
}

abbrev entries : List Entry
entries =
    entry none 1 (body "r1" 1 "submitted") ∷ entry (some "submitted") 2 (body "r2" 2 "started") ∷ []

abbrev lines : List Line
lines =
    written (entry none 1 (body "r1" 1 "submitted"))
    ∷ written (entry (some "submitted") 2 (body "r2" 2 "started"))
    ∷ []

-- The same contents; a signature, which is not covered by the hash, has been added.
abbrev signed : Entry
signed = record (entry none 1 (body "r1" 1 "submitted")) { signature = some (hmac_sha256 "x") }

abbrev entries' : List Entry
entries' = signed ∷ entry (some "submitted") 2 (body "r2" 2 "started") ∷ []

abbrev lines' : List Line
lines' = written signed ∷ written (entry (some "submitted") 2 (body "r2" 2 "started")) ∷ []

verify_chain-tamper_example : unsigned entries ≡ unsigned entries'
unfolding verify_chain read_strict
verify_chain-tamper_example =
    verify_chain-tamper digest none lines lines' entries entries' refl refl refl
      (λ e. cc e, (λ e. cc e, tt)) (λ e. cc e, (λ e. cc e, tt))
      ((λ e. refl, (λ e. absurd (cc e), tt)), ((λ e. absurd (cc e), (λ e. refl, tt)), tt)) refl refl
      refl

state_as_of_lem_example :
    ((e : Entry) → state_as_of lines "j" 5 valid ≡ some e → Known lines "j" 5 valid e)
    × ((x : Entry)
        → Known lines "j" 5 valid x
        → (e : Entry) × (state_as_of lines "j" 5 valid ≡ some e) × (time valid x ≤ time valid e))
state_as_of_lem_example = state_as_of_lem lines "j" 5 valid

history-IsSorted_example :
    IsSorted valid (history lines "j" valid)
    × ((e : Entry)
        → In e (history lines "j" valid) ↔ (
            In e (read_all lines)
            × (job_of e ≡ "j")
            × (is_live (superseded_ids (read_all lines)) e ≡ true)))
history-IsSorted_example = history-IsSorted lines "j" valid

current_state_lem_example :
    let live = superseded_ids (read_all lines) in
    ((d : Entry) (k : String)
      → get (current_state lines valid) k ≡ some d
      → In d (read_all lines) × (job_of d ≡ k) × (is_live live d ≡ true))
    × ((x : Entry)
        → In x (read_all lines)
        → is_live live x ≡ true
        → (d : Entry) × (get (current_state lines valid) (job_of x) ≡ some d)
          × (time valid x ≤ time valid d))
current_state_lem_example = current_state_lem lines valid

-- Two events of one instant: the state as of that instant is the first, the current state the last.
abbrev twice : List Line
twice =
    written (entry none 1 (body "r1" 1 "submitted"))
    ∷ written (entry (some "submitted") 2 (body "r2" 1 "started"))
    ∷ []

ties :
    (state_as_of twice "j" 1 valid ≡ some (entry none 1 (body "r1" 1 "submitted")))
    × (get (current_state twice valid) "j"
        ≡ some (entry (some "submitted") 2 (body "r2" 1 "started")))
unfolding state_as_of current_state get put
ties = (refl, refl)

-- A null hash is not checked, even in strict mode.
null_hash :
    verify_chain digest none true
      (written (record (entry none 1 (body "r1" 1 "submitted")) { record_hash = some none }) ∷ [])
    ≡ []
unfolding verify_chain
null_hash = refl
