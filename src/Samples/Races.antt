-- ===== src/Samples/Races.antt =====
-- A job that the API cancels while the worker takes it up.
use deep_agent_blueprint.Samples.{service}
