-- ===== src/NewDomain.antt =====
-- scripts/new_domain.py, which writes the files of a new domain and registers it. A file is the list of its
-- code points, the file system the files by their paths below the repository's root, whose folders are
-- taken to be there. What is printed is left out.
pub mod Texts
pub mod Additions
use Prim.Native.String.{◌++◌ as ◌<>◌}
use deep_agent_blueprint.Prelude.{
  ℕ, String, Bool, true, false, Option, none, some, List, [], ◌∷◌, ◌++◌, ◌&&◌, ◌||◌, eqb, leb,
  if◌then◌else◌, is_some, all, length, drop, Dict, lookup, insert,
}
use deep_agent_blueprint.Prelude.Exec.{Exec, ok, pure, raise, gets, ◌>>=◌, ◌>>◌}
use deep_agent_blueprint.Logging.{Text, starts}
use deep_agent_blueprint.Logging.Format.{text_of}
use deep_agent_blueprint.Templates.{Part, format}
use deep_agent_blueprint.NewDomain.Texts.{
  adapter_template, unit_test_template, builder_snippet, case_snippet,
}

abbrev pub Files : Type 0
Files = Dict Text

-- a FileNotFoundError, and a KeyError of `format`
pub data Fault : Type 0 where
  file_missing : String → Fault
  key_error : Fault

abbrev pub Script : Type 0 → Type 0
Script A = Exec Files Fault A

-- `str.lower`, `str.title` and the removal of underscores
pub record Casing : Type 0 where
  pub lower : String → String
  pub title : String → String
  pub without_underscores : String → String

abbrev is_letter : ℕ → Bool
is_letter n = leb b'a' n && leb n b'z'

abbrev is_name_char : ℕ → Bool
is_name_char n = is_letter n || ((leb b'0' n && leb n b'9') || eqb n b'_')

-- `re.fullmatch(r"[a-z][a-z0-9_]+", name)`
unfoldable pub is_domain_name : Text → Bool
is_domain_name [] = false
is_domain_name (c ∷ []) = false
is_domain_name (c ∷ rest) = is_letter c && all is_name_char rest

-- `text.replace(old, new, 1)` for an `old` that is not empty
unfoldable pub replace_first : Text → Text → Text → Text
replace_first old new [] = []
replace_first old new (c ∷ t) =
    let rest = replace_first old new t in
    if starts old (c ∷ t) then new ++ drop (length old) (c ∷ t) else c ∷ rest

abbrev pub adapter_path : String → String
adapter_path name = "app/adapters/" <> (name <> ".py")

abbrev pub test_path : String → String
test_path name = "tests/unit/test_" <> (name <> "_adapter.py")

abbrev pub registry_path : String
registry_path = "app/adapters/__init__.py"

abbrev pub cases_path : String
cases_path = "tests/contract/cases.py"

abbrev pub opened : String → Option Text → Script Text
opened path none = raise (file_missing path)
opened path (some t) = pure t

abbrev pub read_text : String → Script Text
read_text path files = opened path (lookup path files) files

abbrev pub write_text : String → Text → Script Unit
write_text path t files = (ok tt, insert path t files)

abbrev pub filled : Option String → Script Text
filled none = raise key_error
filled (some t) = pure (text_of t)

abbrev pub registry_marker : Text
registry_marker = text_of "ADAPTER_BUILDERS: dict"

abbrev pub register_marker : Text
register_marker = text_of "    # scaffold:register"

abbrev pub cases_marker : Text
cases_marker = text_of "CASES: list"

abbrev pub case_marker : Text
case_marker = text_of "    # scaffold:contract-case"

-- the registry with a builder and its entry; the first replacement is of a text by itself
unfoldable pub registered : String → Text → Text → Text
registered name builder text =
    let kept = replace_first (text_of "ADAPTER_BUILDERS:") (text_of "ADAPTER_BUILDERS:") text in
    let built = replace_first registry_marker (builder ++ registry_marker) kept in
    replace_first register_marker
      (text_of ("    \"" <> (name <> ("\": _build_" <> (name <> ",\n")))) ++ register_marker) built

unfoldable pub with_case : String → Text → Text → Text
with_case name case text =
    let stubbed = replace_first cases_marker (case ++ cases_marker) text in
    replace_first case_marker (text_of ("    _" <> (name <> "_case,\n")) ++ case_marker) stubbed

module _ (k : Casing) where
  abbrev pub class_name : String → String
  class_name name = k.without_underscores (k.title name) <> "Adapter"

  abbrev pub names : String → Dict String
  names name = ("name", name) ∷ ("class_name", class_name name) ∷ []

  abbrev pub names_and_title : String → Dict String
  names_and_title name =
      ("name", name) ∷ ("class_name", class_name name) ∷ ("title", k.title name) ∷ []

  -- the parts of `main` that write: the contract case, the builder, the files
  unfoldable pub register_case : String → Script ℕ
  register_case name = do
    cases ← read_text cases_path
    case ← filled (format (names name) case_snippet)
    write_text cases_path (with_case name case cases)
    pure 0

  unfoldable pub register_domain : String → Script ℕ
  unfolding register_case
  register_domain name = do
    registry ← read_text registry_path
    builder ← filled (format (names name) builder_snippet)
    write_text registry_path (registered name builder registry)
    register_case name

  unfoldable pub scaffold : String → Script ℕ
  unfolding register_domain
  scaffold name = do
    adapter ← filled (format (names_and_title name) adapter_template)
    write_text (adapter_path name) adapter
    test ← filled (format (names name) unit_test_template)
    write_text (test_path name) test
    register_domain name

  unfoldable pub new_domain : String → Script ℕ
  unfolding scaffold
  new_domain name =
      if is_domain_name (text_of name)
      then (do
        there ← gets (λ files. is_some (lookup (adapter_path name) files))
        (if there then pure 1 else scaffold name))
      else pure 2

  -- `main`, with `sys.argv`
  unfoldable pub main : List String → Script ℕ
  unfolding new_domain
  main (script ∷ arg ∷ []) = new_domain (k.lower arg)
  main argv = pure 2
