-- ===== src/Samples/Script.antt =====
-- scripts/new_domain.py on a small repository.
use deep_agent_blueprint.Prelude.{
  ◌≡◌, refl, true, false, is_some, lookup, [], ◌∷◌, if◌then◌else◌, ◌==◌,
}
use deep_agent_blueprint.Prelude.Exec.{ok}
use deep_agent_blueprint.Logging.Format.{text_of}
use deep_agent_blueprint.NewDomain.{
  Files, Casing, adapter_path, test_path, registry_path, cases_path, is_domain_name, new_domain,
}
use deep_agent_blueprint.Templates.{format}
use deep_agent_blueprint.NewDomain.Texts.{
  adapter_template, unit_test_template, builder_snippet, case_snippet,
}
use deep_agent_blueprint.NewDomain.Additions.{Keeps, new_domain-Keeps}

abbrev casing : Casing
casing = record {
  lower = λ t. t;
  title = λ t. if t == "wiki" then "Wiki" else t;
  without_underscores = λ t. t;
}

abbrev repository : Files
repository =
    (registry_path, text_of "ADAPTER_BUILDERS: dict = {\n    # scaffold:register\n}\n")
    ∷ (cases_path, text_of "CASES: list = [\n    # scaffold:contract-case\n]\n")
    ∷ []

new_domain-Keeps_example :
    Keeps (test_path "wiki") repository (new_domain casing "wiki" repository).1
    × (is_some (lookup (adapter_path "wiki") repository) ≡ true
        → (new_domain casing "wiki" repository).1 ≡ repository)
    × (is_domain_name (text_of "wiki") ≡ false
        → new_domain casing "wiki" repository ≡ (ok 2, repository))
new_domain-Keeps_example = new_domain-Keeps casing "wiki" repository

scaffolds : (new_domain casing "wiki" repository).0 ≡ ok 0
unfolding new_domain text_of is_domain_name format adapter_template unit_test_template
    builder_snippet case_snippet
scaffolds = refl
