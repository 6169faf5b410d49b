-- ===== src/Correlation/Scopes.antt =====
-- `bound_context` (app/observability/correlation.py): what is bound inside, and what is left behind.
use deep_agent_blueprint.Prelude.{String, ◌≡◌, refl, ap, ◌∙◌, Option, none, some}
use deep_agent_blueprint.Correlation.{Context, bind, reset, bound, unbound, bound_context}

reset-bind : (v old : Option String) → reset v old (bind v old) ≡ old
reset-bind none old = refl
reset-bind (some v) old = refl

unbound-bound : (given c : Context) → unbound given c (bound given c) ≡ c
unbound-bound given c = rw (
  reset-bind given.correlation_id c.correlation_id,
  reset-bind given.request_id c.request_id,
  reset-bind given.job_id c.job_id,
  reset-bind given.action_id c.action_id,
  reset-bind given.consumer_id c.consumer_id,
)

module _ {A S : Type 0} where
  -- A block that leaves the context variables as it finds them.
  abbrev pub Restores : (Context × S → A × (Context × S)) → Type 0
  Restores block = (c : Context) (s : S) → (block (c, s)).1.0 ≡ c

  -- A block under `bound_context` runs with every given variable bound to its value and the others as
  -- they were; if it rebinds nothing for good, then afterwards, exception or not, every variable is as
  -- before, so that nested scopes close one by one.
  pub bound_context-Restores :
      (given : Context) (block : Context × S → A × (Context × S))
      → Restores block
      → Restores (bound_context given block)
  unfolding bound_context
  bound_context-Restores given block keeps c s =
      ap (unbound given c) (keeps (bound given c) s) ∙ unbound-bound given c
