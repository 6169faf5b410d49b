-- ===== src/Logging.antt =====
-- app/observability/logging.py: the registry of secrets and `redact`. A text is the list of its code
-- points; the set of secrets is a list in the order in which the loop meets them.
pub mod Redaction
pub mod Format
pub mod Lines
use deep_agent_blueprint.Prelude.{
  ℕ, zero, suc, ◌-◌, Bool, true, false, Option, none, some, List, [], ◌∷◌, ◌++◌, ◌&&◌, ◌||◌, eqb,
  leb, if◌then◌else◌, length,
}

abbrev pub Text : Type 0
Text = List ℕ

-- "[REDACTED", and the whole marker
abbrev pub marker_front : Text
marker_front = b'[' ∷ b'R' ∷ b'E' ∷ b'D' ∷ b'A' ∷ b'C' ∷ b'T' ∷ b'E' ∷ b'D' ∷ []

abbrev pub redacted : Text
redacted = marker_front ++ (b']' ∷ [])

abbrev pub min_secret_len : ℕ
min_secret_len = 6

-- `text.startswith(s)`
unfoldable pub starts : Text → Text → Bool
starts [] t = true
starts (x ∷ s) [] = false
starts (x ∷ s) (c ∷ t) = eqb x c && starts s t

-- `s in text`
unfoldable pub contains_text : Text → Text → Bool
unfolding starts
contains_text s [] = starts s []
contains_text s (c ∷ t) = starts s (c ∷ t) || contains_text s t

-- `text.replace(s, REDACTED)` for a non-empty `s`; the first `skip` characters are those of an occurrence
-- that has been replaced
unfoldable pub replaced : Text → ℕ → Text → Text
unfolding starts
replaced s skip [] = []
replaced s (suc skip) (c ∷ t) = replaced s skip t
replaced s zero (c ∷ t) =
    let behind = replaced s (length s - 1) t in
    let next = replaced s zero t in if starts s (c ∷ t) then redacted ++ behind else c ∷ next

unfoldable pub redact : List Text → Text → Text
unfolding contains_text replaced
redact [] text = text
redact (s ∷ secrets) text =
    redact secrets (if contains_text s text then replaced s 0 text else text)

unfoldable pub register_secret : Option Text → List Text → List Text
register_secret none secrets = secrets
register_secret (some value) secrets =
    if leb min_secret_len (length value) then value ∷ secrets else secrets
