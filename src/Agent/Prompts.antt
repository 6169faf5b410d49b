-- ===== src/Agent/Prompts.antt =====
-- app/agent/prompts.py: the system prompt of the research agent.
use Prim.Native.String.{◌++◌ as ◌<>◌}
use deep_agent_blueprint.Prelude.{String, Option, none, some, List, [], ◌∷◌, Dict, ◌≡◌, refl}
use deep_agent_blueprint.Json.{Object}
use deep_agent_blueprint.Schemas.{JobRecord}
use deep_agent_blueprint.Templates.{Part, lit, slot, format, format-some, covers}

unfoldable pub core_template : List Part
core_template =
    lit "You are a research agent for the \""
    ∷ slot "domain"
    ∷ lit "\" domain. You investigate the task\n"
    ∷ lit "using ONLY the read-only tools provided, then report findings and (whe"
    ∷ lit "n the\n"
    ∷ lit "task calls for a change) propose actions for a human to approve. You c"
    ∷ lit "annot\n"
    ∷ lit "perform mutations — you have no tools that write — and you never prete"
    ∷ lit "nd to\n"
    ∷ lit "have made a change.\n"
    ∷ lit "\n"
    ∷ slot "domain_instructions"
    ∷ lit "\n"
    ∷ lit "\n"
    ∷ lit "## Rules\n"
    ∷ lit "- Ground every claim in tool output; cite identifiers/URLs in sources."
    ∷ lit "\n"
    ∷ lit "- Work in parallel: when your next lookups do not depend on each other"
    ∷ lit ",\n"
    ∷ lit "  issue the tool calls concurrently (multiple tool calls in one turn),"
    ∷ lit " and\n"
    ∷ lit "  when a retriever sub-agent is available, delegate independent source"
    ∷ lit "s to\n"
    ∷ lit "  it as parallel sub-tasks — one per source or entity. All tools are\n"
    ∷ lit "  read-only and the service caps concurrent downstream calls, so paral"
    ∷ lit "lel\n"
    ∷ lit "  fan-out is always safe. Only serialize when a result genuinely deter"
    ∷ lit "mines\n"
    ∷ lit "  the next query.\n"
    ∷ lit "- Never include credentials, tokens, or secrets in any output.\n"
    ∷ lit "- Propose an action only when the task asks for a change, and only fro"
    ∷ lit "m the\n"
    ∷ lit "  action catalog below. Include everything execution needs in the payl"
    ∷ lit "oad —\n"
    ∷ lit "  the payload must be fully self-contained.\n"
    ∷ lit "- For each proposed action, capture the target's current state you obs"
    ∷ lit "erved\n"
    ∷ lit "  (version, status, timestamp) as preconditions, so drift is detected "
    ∷ lit "at\n"
    ∷ lit "  execution time.\n"
    ∷ lit "- Write the preview as one or two sentences a human approver can judge"
    ∷ lit "\n"
    ∷ lit "  without opening the target system.\n"
    ∷ lit "\n"
    ∷ lit "## Action catalog\n"
    ∷ slot "action_catalog"
    ∷ lit "\n"
    ∷ lit "\n"
    ∷ lit "## OUTPUT CONTRACT (mandatory)\n"
    ∷ lit "End your final answer with exactly one fenced JSON block:\n"
    ∷ lit "\n"
    ∷ lit "```json\n"
    ∷ lit "{"
    ∷ lit "\n"
    ∷ lit "  \"summary\": \"<what you found, 2-6 sentences>\",\n"
    ∷ lit "  \"sources\": [{"
    ∷ lit "\"title\": \"...\", \"url_or_id\": \"...\"}"
    ∷ lit "],\n"
    ∷ lit "  \"details\": {"
    ∷ lit "}"
    ∷ lit ",\n"
    ∷ lit "  \"proposed_actions\": [\n"
    ∷ lit "    {"
    ∷ lit "\n"
    ∷ lit "      \"action_type\": \"<from the catalog>\",\n"
    ∷ lit "      \"target\": {"
    ∷ lit "\"system\": \""
    ∷ slot "domain"
    ∷ lit "\"}"
    ∷ lit ",\n"
    ∷ lit "      \"payload\": {"
    ∷ lit "}"
    ∷ lit ",\n"
    ∷ lit "      \"preview\": \"<human-readable summary of the change>\",\n"
    ∷ lit "      \"preconditions\": {"
    ∷ lit "}"
    ∷ lit "\n"
    ∷ lit "    }"
    ∷ lit "\n"
    ∷ lit "  ]\n"
    ∷ lit "}"
    ∷ lit "\n"
    ∷ lit "```\n"
    ∷ lit "\n"
    ∷ lit "Use an empty proposed_actions list when no change is needed.\n"
    ∷ []

-- A mutation of the domain: its action type, and `json.dumps` of the properties of its schema.
abbrev catalog_line : String → String → String
catalog_line action_type properties =
    "- `" <> (action_type <> ("` — payload schema: " <> properties))

-- `"\n".join(...)`
unfoldable pub catalog_lines : Dict String → String
catalog_lines [] = ""
catalog_lines ((action_type, properties) ∷ []) = catalog_line action_type properties
catalog_lines ((action_type, properties) ∷ rest) =
    catalog_line action_type properties <> ("\n" <> catalog_lines rest)

unfoldable pub catalog : Dict String → String
catalog [] = "(none — this domain is research-only; never propose actions)"
catalog schemas = catalog_lines schemas

-- `schemas` gives for every action type the text of its schema's properties; `none` is a KeyError.
unfoldable pub render_research_prompt : String → String → Dict String → Option String
render_research_prompt domain instructions schemas =
    format
      (("domain", domain)
        ∷ ("domain_instructions", instructions)
        ∷ ("action_catalog", catalog schemas)
        ∷ [])
      core_template

-- `f"{title}: {json.dumps(value, default=str)}"`, for a dict that is there and not empty
abbrev dict_part : (Object → String) → String → Option Object → String
dict_part dumps title none = ""
dict_part dumps title (some []) = ""
dict_part dumps title (some fields) = "\n\n" <> (title <> (": " <> dumps fields))

-- `_render_task` of app/worker/runner.py
unfoldable pub render_task : (Object → String) → JobRecord → String
render_task dumps r =
    ("Task: " <> r.task)
    <> (dict_part dumps "Context" r.context <> dict_part dumps "Constraints" r.constraints)

-- The prompt can always be made: every field of the template is given.
pub render_research_prompt-some :
    (domain instructions : String) (schemas : Dict String)
    → (prompt : String) × (render_research_prompt domain instructions schemas ≡ some prompt)
unfolding render_research_prompt core_template covers
render_research_prompt-some domain instructions schemas = format-some _ core_template refl
