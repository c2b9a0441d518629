-- ===== src/Orchestrator/Keywords.antt =====
-- The patterns and keywords by which hybrid_orchestrator.py tells the type of a task.
use vibe_thinker.Prelude.{String, Bool, true, false, List, [], ◌∷◌, map}
use vibe_thinker.Orchestrator.Patterns.{
  Regex, boundary, alt, star, text, ◌~◌, plus, optional, any, digit, space, word, one_of, whole,
}

abbrev pub non_programming_code_patterns : List Regex
non_programming_code_patterns = map whole (
    "code of conduct" ∷ "code of ethics" ∷ "dress code" ∷ "building code" ∷ "legal code"
    ∷ "code of honor" ∷ "code of practice" ∷ "area code" ∷ "zip code" ∷ "barcode" ∷ "qr code"
    ∷ "code pink" ∷ "code blue" ∷ "code red" ∷ [])

abbrev any_text : List String → Regex
any_text [] = one_of ""
any_text (s ∷ ss) = alt (text s) (any_text ss)

abbrev pub strong_code_signals : List Regex
strong_code_signals =
    (boundary
      ~ text "debug"
      ~ boundary
      ~ star any
      ~ boundary
      ~ any_text ("python" ∷ "javascript" ∷ "rust" ∷ "java" ∷ "c++" ∷ "go" ∷ [])
      ~ boundary)
    ∷ map whole (
        "leetcode" ∷ "hackerrank" ∷ "codeforces" ∷ "github" ∷ "gitlab" ∷ "npm" ∷ "pip install"
        ∷ "stack overflow" ∷ "unit test" ∷ "pytest" ∷ "compile error" ∷ "syntax error" ∷ "segfault"
        ∷ [])

-- `_?\{?\d+\}?`, the index of a variable.
abbrev index : Regex
index = optional (text "_") ~ optional (text "{") ~ plus digit ~ optional (text "}")

abbrev pub math_intent_patterns : List Regex
math_intent_patterns =
    (boundary
      ~ text "solve"
      ~ boundary
      ~ star any
      ~ boundary
      ~ any_text
          ("equation" ∷ "integral" ∷ "derivative" ∷ "sum" ∷ "series" ∷ "system" ∷ "inequality" ∷ [])
      ~ boundary)
    ∷ whole "compute"
    ∷ whole "calculate"
    ∷ whole "prove"
    ∷ whole "evaluate"
    ∷ (boundary ~ text "what is" ~ plus space ~ plus digit)
    ∷ whole "find the value"
    ∷ (boundary
        ~ text "find"
        ~ plus space
        ~ plus word
        ~ plus space
        ~ text "of"
        ~ boundary
        ~ star any
        ~ digit)
    ∷ (boundary ~ plus digit ~ star space ~ one_of "+-*/=" ~ star space ~ plus digit)
    ∷ text "\\boxed"
    ∷ text "\\frac"
    ∷ text "\\int"
    ∷ text "\\sum"
    ∷ whole "derivative of"
    ∷ whole "integral of"
    ∷ (boundary ~ text "sum of" ~ boundary ~ star any ~ digit)
    ∷ whole "geometric series"
    ∷ whole "recurrence"
    ∷ whole "probability of"
    ∷ whole "matrix"
    ∷ whole "vector"
    ∷ whole "theorem"
    ∷ whole "algebra"
    ∷ whole "calculus"
    ∷ whole "combinatorics"
    ∷ (boundary
        ~ text "a_"
        ~ optional (text "{")
        ~ plus word
        ~ optional (text "}")
        ~ star space
        ~ text "=")
    ∷ (boundary ~ text "a" ~ index ~ boundary)
    ∷ (boundary ~ text "x" ~ index ~ boundary)
    ∷ (boundary
        ~ text "a_"
        ~ optional (text "{")
        ~ text "n+1"
        ~ optional (text "}")
        ~ star space
        ~ text "=")
    ∷ (boundary ~ text "a_n" ~ star space ~ one_of "+-*/^")
    ∷ (boundary ~ text "find" ~ plus space ~ text "a" ~ index)
    ∷ (boundary ~ text "solve this step by step" ~ boundary ~ star any ~ digit)
    ∷ (boundary ~ text "a_1" ~ star space ~ text "=" ~ star space ~ digit)
    ∷ []

pub record TaskConfig : Type 0 where
  pub name : String
  pub keywords : List String
  pub requires_tools : List String
  pub requires_model : Bool

abbrev pub task_type_keywords : List TaskConfig
task_type_keywords =
    record {
      name = "math";
      keywords =
          "solve" ∷ "calculate" ∷ "prove" ∷ "find the value" ∷ "sum" ∷ "sequence" ∷ "series"
          ∷ "integral" ∷ "derivative" ∷ "probability" ∷ "recurrence" ∷ "equation" ∷ "matrix"
          ∷ "vector" ∷ "theorem" ∷ "geometric" ∷ "algebra" ∷ "calculus" ∷ "combinatorics"
          ∷ "compute" ∷ "evaluate" ∷ [];
      requires_tools = "deterministic_check" ∷ [];
      requires_model = true;
    }
    ∷ record {
      name = "code";
      keywords =
          "leetcode" ∷ "code" ∷ "algorithm" ∷ "complexity" ∷ "implement" ∷ "function" ∷ "debug"
          ∷ "refactor" ∷ "program" ∷ "python" ∷ "javascript" ∷ "rust" ∷ "compile" ∷ [];
      requires_tools = "python_exec" ∷ "unit_tests" ∷ [];
      requires_model = true;
    }
    ∷ record {
      name = "planning";
      keywords =
          "plan" ∷ "strategy" ∷ "roadmap" ∷ "design" ∷ "architect" ∷ "steps to" ∷ "how to"
          ∷ "approach" ∷ [];
      requires_tools = [];
      requires_model = true;
    }
    ∷ record {
      name = "retrieval";
      keywords =
          "search" ∷ "find information" ∷ "look up" ∷ "retrieve" ∷ "what does the docs say" ∷ [];
      requires_tools = "search" ∷ "retrieval" ∷ [];
      requires_model = false;
    }
    ∷ record {
      name = "summarization";
      keywords = "summarize" ∷ "summarise" ∷ "tldr" ∷ "brief" ∷ "overview" ∷ "key points" ∷ [];
      requires_tools = [];
      requires_model = true;
    }
    ∷ record {
      name = "conversation";
      keywords =
          "explain" ∷ "what is" ∷ "who is" ∷ "history of" ∷ "compare" ∷ "opinion" ∷ "describe"
          ∷ "tell me about" ∷ "why does" ∷ [];
      requires_tools = [];
      requires_model = true;
    }
    ∷ []
