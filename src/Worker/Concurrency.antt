-- ===== src/Worker/Concurrency.antt =====
-- `cap_read_concurrency` of app/worker/runner.py: the read tools of a run under one semaphore. What
-- `async with` on a semaphore does is asyncio's; here a semaphore is an object that its number tells
-- from the others, and a wrapped tool holds the one that it enters.
use deep_agent_blueprint.Prelude.{ℕ, zero, suc, List, map}

-- a tool that is a coroutine function, and one that is not
pub data Tool : Type 0 where
  coroutine plain : ℕ → Tool

-- `asyncio.Semaphore(limit)`
pub record Semaphore : Type 0 where
  pub serial : ℕ
  pub limit : ℕ

-- a tool as the agent gets it: entering a semaphore, or as it is
pub data Wrapped : Type 0 where
  capped_tool : Semaphore → Tool → Wrapped
  as_is : Tool → Wrapped

abbrev pub wrap : Semaphore → Tool → Wrapped
wrap semaphore (coroutine n) = capped_tool semaphore (coroutine n)
wrap semaphore (plain n) = as_is (plain n)

-- `made` counts the semaphores that there are so far.
unfoldable pub cap_read_concurrency : List Tool → ℕ → ℕ → List Wrapped × ℕ
cap_read_concurrency tools zero made = (map as_is tools, made)
cap_read_concurrency tools (suc n) made =
    let semaphore : Semaphore = record { serial = made; limit = suc n } in
    (map (wrap semaphore) tools, suc made)
