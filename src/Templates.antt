-- ===== src/Templates.antt =====
-- `str.format` on the templates of app/agent/prompts.py and scripts/new_domain.py, which name their
-- fields. A template is its parts, where `{{` and `}}` stand for braces.
use Prim.Native.String.{◌++◌ as ◌<>◌}
use deep_agent_blueprint.Prelude.{
  String, Bool, true, ◌&&◌, ◌≡◌, refl, Option, some, List, [], ◌∷◌, Dict, lookup, is_some, then?,
  Option-cases, inl, inr,
}

-- a text as it is, and the field of a name
pub data Part : Type 0 where
  lit slot : String → Part

-- `none` is a KeyError
unfoldable pub format : Dict String → List Part → Option String
format fields [] = some ""
format fields (lit t ∷ parts) = then? (format fields parts) λ rest. some (t <> rest)
format fields (slot name ∷ parts) =
    then? (lookup name fields) λ t. then? (format fields parts) λ rest. some (t <> rest)

-- whether every field of the template is given
unfoldable pub covers : Dict String → List Part → Bool
covers fields [] = true
covers fields (lit t ∷ parts) = covers fields parts
covers fields (slot name ∷ parts) = is_some (lookup name fields) && covers fields parts

-- A template whose fields are all given is filled in.
pub format-some :
    (fields : Dict String) (parts : List Part)
    → covers fields parts ≡ true
    → (t : String) × (format fields parts ≡ some t)
unfolding covers format
format-some fields [] h = ("", refl)
format-some fields (lit t ∷ parts) h =
    let (rest, e) = format-some fields parts h in (t <> rest, rw e refl)
format-some fields (slot name ∷ parts) h = elim (Option-cases (lookup name fields)) [
  | inl missing ↦ cc (rw missing at h)
  | inr (t, given) ↦
      let (rest, e) = format-some fields parts (rw given at h) in (t <> rest, rw (given, e) refl)
]
