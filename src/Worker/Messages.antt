-- ===== src/Worker/Messages.antt =====
-- What app/worker/runner.py makes of the agent's messages: texts, names of tools, and the parsed output.
use Prim.Native.String.{◌++◌ as ◌<>◌}
use deep_agent_blueprint.Prelude.{
  ℕ, String, Option, none, some, List, [], ◌∷◌, ◌++◌, ◌==◌, if◌then◌else◌,
}
use deep_agent_blueprint.Prelude.Exec.{Result, ok, err}
use deep_agent_blueprint.Json.{Json, str, arr, obj, Items, nil, cons, get_field, dict_of, truthy}
use deep_agent_blueprint.Schemas.{Failure, AgentOutput, other_error}
use deep_agent_blueprint.Deps.{Deps, Loaded, value, other_exception}

-- what a candidate comes to: an output, none, or an exception that is not caught
pub data Verdict : Type 0 where
  taken : AgentOutput → Verdict
  skipped raised : Verdict

-- A message of the agent: `content`, and the names of `tool_calls`, in order.
pub record Message : Type 0 where
  pub content : Json
  pub tool_calls : List (Option String)

abbrev pub last? {ℓ} : {A : Type ℓ} → List A → Option A
last? [] = none
last? (x ∷ []) = some x
last? (x ∷ y ∷ ys) = last? (y ∷ ys)

abbrev pub tool_of : Option Message → Option String
tool_of none = none
tool_of (some m) = elim (last? m.tool_calls) [ none ↦ none | some name ↦ name ]

-- `_last_tool_name`
abbrev pub last_tool_name : List Message → Option String
last_tool_name messages = tool_of (last? messages)

-- a content block counts if it is a dict with type "text"; a text that is no `str` makes `join` raise
unfoldable pub block_text : Json → Option String
block_text (obj fs) = elim (get_field "type" fs) [
  | some (str kind) ↦
      if kind == "text"
      then elim (get_field "text" fs) [ none ↦ some "" | some (str t) ↦ some t | some _ ↦ none ]
      else some ""
  | _ ↦ some ""
]
block_text _ = some ""

unfoldable pub join_texts : Option String → Option String → Option String
join_texts (some t) (some rest) = some (t <> rest)
join_texts _ _ = none

unfoldable pub join_blocks : Items → Option String
unfolding block_text join_texts
join_blocks nil = some ""
join_blocks (cons b bs) = join_texts (block_text b) (join_blocks bs)

module _ ⦃d : Deps⦄ where
  -- `_message_text`
  unfoldable pub message_text : Message → Result Failure String
  unfolding join_blocks
  message_text m = elim m.content [
    | str t ↦ ok t
    | arr bs ↦ elim (join_blocks bs) [ none ↦ err other_error | some t ↦ ok t ]
    | c ↦ ok (if truthy c then d.texts.to_str c else "")
  ]

  -- the candidates of `_parse_agent_output`, in the order in which they are collected
  abbrev pub braced : String → Option ℕ → List String
  braced text none = []
  braced text (some open_at) = d.texts.slice text open_at (d.texts.behind_close text) ∷ []

  unfoldable pub candidates : String → List String
  candidates text = d.texts.fenced text ++ braced text (d.texts.find_open text)

  -- what one candidate gives: `json.loads`, a dict, and the model's validation
  abbrev pub verdict_of : Option AgentOutput → Verdict
  verdict_of none = skipped
  verdict_of (some o) = taken o

  unfoldable pub output_of : Loaded → Verdict
  output_of (value (obj fs)) = verdict_of (d.texts.validate_output (dict_of fs))
  output_of other_exception = raised
  output_of _ = skipped

  unfoldable pub parsed_candidate : String → Verdict
  unfolding output_of
  parsed_candidate candidate = output_of (d.texts.loads candidate)

  -- `for candidate in reversed(candidates)`: the last that is not skipped
  unfoldable pub last_parsed : List String → Verdict
  last_parsed [] = skipped
  last_parsed (c ∷ cs) = elim (last_parsed cs) [
    | taken o ↦ taken o
    | raised ↦ raised
    | skipped ↦ parsed_candidate c
  ]

  unfoldable pub unstructured : String → AgentOutput
  unstructured text = record {
    summary = d.texts.strip text;
    sources = [];
    details = [];
    proposed_actions = [];
  }

  -- `_parse_agent_output`
  unfoldable pub parse_agent_output : String → Result Failure AgentOutput
  parse_agent_output text = elim (last_parsed (candidates text)) [
    | taken o ↦ ok o
    | raised ↦ err other_error
    | skipped ↦ ok (unstructured text)
  ]
