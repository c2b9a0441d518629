-- ===== src/Cache/Trajectories.antt =====
-- `VerifiedTrajectoryStore` of persistent_cache.py: its state, and how it is read.
use vibe_thinker.Prelude.{
  ℕ, suc, String, Bool, true, false, not, ◌&&◌, List, [], ◌∷◌, map, Option, none, some, leb, ◌=s◌,
  if◌then◌else◌, set, get_elem?, is_nil,
}
use vibe_thinker.Prelude.Int.{ℤ, ltb_ℤ}
use vibe_thinker.Cache.Entry.{Vector, Entry, or_default, is_trustworthy}
use vibe_thinker.Cache.Entries.{SimilarityMode, Match, Backend, touch}
use vibe_thinker.Cache.Results.{one, usable_rows}

pub record Trajectories (S : Type 0) : Type 0 where
  pub entries : List Entry
  pub matrix : Option (List Vector)
  pub file : Option (List Entry)
  pub store : Option S
  pub mode : SimilarityMode
  pub has_model : Bool
  pub agentdb_only : Bool
  pub retrieval_threshold : ℤ
  pub max_entries : ℕ
  pub max_few_shot : ℕ
  pub autosave : Bool

-- A dict that `retrieve` gives back.
pub record Example : Type 0 where
  pub query : String
  pub answer : String
  pub score : ℕ
  pub verification_method : String
  pub task_type : String
  pub similarity : ℤ

-- What a loop has gathered: the examples, the indices of the entries that they come from, and
-- whether it ended by the `KeyError` of an entry without `query` or `answer`.
pub record Gathered : Type 0 where
  pub examples : List Example
  pub touched : List ℕ
  pub raised : Bool

abbrev pub nothing : Gathered
nothing = record { examples = []; touched = []; raised = false }

abbrev pub key_error : Gathered
key_error = record { examples = []; touched = []; raised = true }

abbrev pub also : Example → ℕ → Gathered → Gathered
also example i rest = record {
  examples = example ∷ rest.examples;
  touched = i ∷ rest.touched;
  raised = rest.raised;
}

abbrev pub example_with : Entry → ℤ → String → String → Example
example_with entry similarity query answer = record {
  query = query;
  answer = answer;
  score = or_default entry.score 0;
  verification_method = or_default entry.verification_method "";
  task_type = or_default entry.task_type "";
  similarity = similarity;
}

-- `entry["query"]` and `entry["answer"]` must be there.
unfoldable pub example_of : Entry → ℤ → Option Example
example_of entry similarity = elim entry.query [
  | none ↦ none
  | some query ↦ elim entry.answer [
    | none ↦ none
    | some answer ↦ some (example_with entry similarity query answer)
  ]
]

abbrev pub same_text : Option String → String → Bool
same_text none s = false
same_text (some t) s = t =s s

-- `not (task_type and entry.get("task_type") != task_type)`
abbrev pub type_fits : Option String → Entry → Bool
type_fits none entry = true
type_fits (some t) entry = if t =s "" then true else same_text entry.task_type t

abbrev pub fits : Option String → Entry → Bool
fits task_type entry = type_fits task_type entry && is_trustworthy entry false

-- The body of the loops behind their tests: the example is appended, and the loop ends when there
-- are enough.
abbrev pub append_example : ℕ → ℕ → ℕ → Entry → ℤ → Gathered → Gathered
append_example max_few_shot count i entry similarity rest = elim (example_of entry similarity) [
  | none ↦ key_error
  | some example ↦ also example i (if leb max_few_shot (suc count) then nothing else rest)
]

module _ (max_few_shot : ℕ) (task_type : Option String) where
  -- The loop by exact match, from index `i` and with `count` examples so far.
  unfoldable pub gather_exact : String → ℕ → ℕ → List Entry → Gathered
  gather_exact query i count [] = nothing
  gather_exact query i count (e ∷ es) =
      let skip = gather_exact query (suc i) count es in
      let rest = gather_exact query (suc i) (suc count) es in
      if same_text e.query query && fits task_type e
      then append_example max_few_shot count i e one rest
      else skip

  -- The loop by similarity. An index out of range, which a ranking never gives, ends it.
  unfoldable pub gather_similar : ℤ → List ℤ → List Entry → ℕ → List ℕ → Gathered
  gather_similar threshold sims entries count [] = nothing
  gather_similar threshold sims entries count (i ∷ is) =
      let skip = gather_similar threshold sims entries count is in
      let rest = gather_similar threshold sims entries (suc count) is in
      elim (get_elem? sims i) [
        | none ↦ nothing
        | some sim ↦ elim (get_elem? entries i) [
          | none ↦ nothing
          | some e ↦
              if ltb_ℤ sim threshold
              then nothing
              else if fits task_type e
              then append_example max_few_shot count i e sim rest
              else skip
        ]
      ]

  -- The loop over the matches of the vector store, with a default for every key.
  unfoldable pub gather_matches : ℤ → ℕ → List Match → List Example
  gather_matches threshold count [] = []
  gather_matches threshold count (m ∷ ms) =
      let skip = gather_matches threshold count ms in
      let rest = gather_matches threshold (suc count) ms in
      if ltb_ℤ m.similarity threshold
      then []
      else if fits task_type m.metadata
      then example_with m.metadata m.similarity (or_default m.metadata.query "")
          (or_default m.metadata.answer "")
        ∷ (if leb max_few_shot (suc count) then [] else rest)
      else skip

abbrev pub touch_all : List ℕ → List Entry → List Entry
touch_all [] entries = entries
touch_all (i ∷ is) entries =
    touch_all is (elim (get_elem? entries i) [ none ↦ entries | some e ↦ set entries i (touch e) ])

module _ {S : Type 0} where
  -- The access counts are kept in memory whatever happens, and saved only if the loop ends and found
  -- something.
  abbrev pub after_gather : Gathered → Trajectories S → Trajectories S × Gathered
  after_gather g t =
      let t' = record t { entries = touch_all g.touched t.entries } in
      (
        if t.autosave && (not g.raised && not (is_nil g.examples))
            then record t' { file = some t'.entries }
            else t',
        g,
      )

  unfoldable pub gather_local : Backend S → String → Option String → Trajectories S → Gathered
  gather_local b query task_type t = elim (usable_rows t.mode t.has_model t.matrix) [
    | none ↦ gather_exact t.max_few_shot task_type query 0 0 t.entries
    | some rows ↦
        let sims = map (λ row. b.cosine (b.encode query) row) rows in
        gather_similar t.max_few_shot task_type t.retrieval_threshold sims t.entries 0
          (b.ranking sims)
  ]

  unfoldable pub gather_remote : Backend S → S → String → Option String → Trajectories S → Gathered
  gather_remote b s query task_type t =
      if t.has_model
      then record nothing {
        examples =
            gather_matches t.max_few_shot task_type t.retrieval_threshold 0
              (b.search s (b.encode query) t.max_few_shot);
      }
      else nothing

  unfoldable pub retrieve :
      Backend S → String → Option String → Trajectories S → Trajectories S × Gathered
  retrieve b query task_type t =
      let here =
        if is_nil t.entries
        then (t, nothing)
        else after_gather (gather_local b query task_type t) t in
      elim t.store [
        | none ↦ here
        | some s ↦ if t.agentdb_only then (t, gather_remote b s query task_type t) else here
      ]
