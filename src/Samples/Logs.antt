-- ===== src/Samples/Logs.antt =====
-- A log line with two secrets.
use deep_agent_blueprint.Prelude.{refl, [], ◌∷◌, ◌++◌, arith}
use deep_agent_blueprint.Logging.{Text, contains_text}
use deep_agent_blueprint.Logging.Redaction.{IsSecret}

abbrev secret_1 : Text
secret_1 = b's' ∷ b'e' ∷ b'c' ∷ b'r' ∷ b'-' ∷ b'1' ∷ []

abbrev secret_2 : Text
secret_2 = b's' ∷ b'e' ∷ b'c' ∷ b'r' ∷ b'-' ∷ b'2' ∷ []

secret_1-IsSecret : IsSecret secret_1
unfolding contains_text
secret_1-IsSecret = (
  omega arith,
  record {
    no_open = (
      omega arith,
      (omega arith, (omega arith, (omega arith, (omega arith, (omega arith, tt))))),
    );
    no_close = (
      omega arith,
      (omega arith, (omega arith, (omega arith, (omega arith, (omega arith, tt))))),
    );
    no_part = refl;
  },
)

secret_2-IsSecret : IsSecret secret_2
unfolding contains_text
secret_2-IsSecret = (
  omega arith,
  record {
    no_open = (
      omega arith,
      (omega arith, (omega arith, (omega arith, (omega arith, (omega arith, tt))))),
    );
    no_close = (
      omega arith,
      (omega arith, (omega arith, (omega arith, (omega arith, (omega arith, tt))))),
    );
    no_part = refl;
  },
)

abbrev line : Text
line = b'k' ∷ b'=' ∷ (secret_1 ++ (b';' ∷ secret_2))
