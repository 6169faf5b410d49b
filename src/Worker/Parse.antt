-- ===== src/Worker/Parse.antt =====
-- `_parse_agent_output` of app/worker/runner.py: which candidate it takes.
use deep_agent_blueprint.Prelude.{String, List, [], ◌∷◌, ◌++◌, ◌≡◌}
use deep_agent_blueprint.Deps.{Deps}
use deep_agent_blueprint.Worker.{Verdict, taken, skipped, raised, parsed_candidate}

module _ ⦃d : Deps⦄ where
  abbrev pub AllSkipped : List String → Type 0
  AllSkipped [] = Unit
  AllSkipped (c ∷ cs) = (parsed_candidate c ≡ skipped) × AllSkipped cs

  -- A candidate with this verdict, and all that stand behind it skipped.
  pub record IsLast (cs : List String) (v : Verdict) : Type 0 where
    pub before : List String
    pub chosen : String
    pub after : List String
    pub split : cs ≡ before ++ chosen ∷ after
    pub parses : parsed_candidate chosen ≡ v
    pub refused : AllSkipped after

  -- What the loop over the candidates may come to.
  abbrev pub Decides : List String → Verdict → Type 0
  Decides cs (taken o) = IsLast cs (taken o)
  Decides cs raised = IsLast cs raised
  Decides cs skipped = AllSkipped cs
