-- ===== src/Correlation.antt =====
-- app/observability/correlation.py: `bound_context`, and `CorrelationMiddleware` around an endpoint that
-- sends one reply. A variable's token is the value that it had; log lines are left out.
pub mod Header
pub mod Scopes
use Prim.Native.Char.{code}
use deep_agent_blueprint.Prelude.{
  ℕ, suc, ◌+◌, String, Bool, true, false, Option, none, some, List, [], ◌∷◌, ◌++◌, ◌==◌, ◌&&◌, eqb,
  leb, not, if◌then◌else◌, is_some,
}
use deep_agent_blueprint.Prelude.Exec.{Result, ok, err}
use deep_agent_blueprint.Schemas.{Failure}
use deep_agent_blueprint.Deps.{Deps, World}
use deep_agent_blueprint.App.{App}

-- The context variables, `none` being their default.
pub record Context : Type 0 where
  pub correlation_id : Option String
  pub request_id : Option String
  pub job_id : Option String
  pub action_id : Option String
  pub consumer_id : Option String

-- `var.set(value)` where a value is given
abbrev pub bind : Option String → Option String → Option String
bind none old = old
bind (some v) old = some v

-- `var.reset(token)` for a variable that was set, to the value that it had
abbrev pub reset : Option String → Option String → Option String → Option String
reset none old now = now
reset (some v) old now = old

-- the arguments of `bound_context` are a context, too
abbrev pub bound : Context → Context → Context
bound given c = record {
  correlation_id = bind given.correlation_id c.correlation_id;
  request_id = bind given.request_id c.request_id;
  job_id = bind given.job_id c.job_id;
  action_id = bind given.action_id c.action_id;
  consumer_id = bind given.consumer_id c.consumer_id;
}

abbrev pub unbound : Context → Context → Context → Context
unbound given c now = record {
  correlation_id = reset given.correlation_id c.correlation_id now.correlation_id;
  request_id = reset given.request_id c.request_id now.request_id;
  job_id = reset given.job_id c.job_id now.job_id;
  action_id = reset given.action_id c.action_id now.action_id;
  consumer_id = reset given.consumer_id c.consumer_id now.consumer_id;
}

-- The block that is run returns a result or an exception, in `A`.
unfoldable pub bound_context :
    {A S : Type 0} → Context → (Context × S → A × (Context × S)) → Context × S → A × (Context × S)
bound_context given block (c, s) =
    let (a, (c', s')) = block (bound given c, s) in (a, (unbound given c c', s'))

-- `lower` of an ASCII letter
abbrev lower : ℕ → ℕ
lower n = if leb b'A' n && leb n b'Z' then n + 32 else n

-- `k.lower() == CORRELATION_HEADER.lower()`
unfoldable pub same_header : String → String → Bool
same_header String.[] String.[] = true
same_header (String.◌∷◌ c s) (String.◌∷◌ e t) =
    let rest = same_header s t in eqb (lower (code c)) (lower (code e)) && rest
same_header _ _ = false

abbrev pub correlation_header : String
correlation_header = "X-Correlation-Id"

abbrev pub HeaderLines : Type 0
HeaderLines = List (String × String)

-- `headers.get(...)` of the dict of header lines: the last of the lines with that name
unfoldable pub supplied_id : HeaderLines → Option String
unfolding same_header
supplied_id [] = none
supplied_id ((k, v) ∷ rest) =
    let later = supplied_id rest in
    elim later [
      | some u ↦ some u
      | none ↦ if same_header k correlation_header then some v else none
    ]

-- the header lines of a reply that are kept
unfoldable pub without_id : HeaderLines → HeaderLines
unfolding same_header
without_id [] = []
without_id ((k, v) ∷ rest) =
    let kept = without_id rest in if same_header k correlation_header then kept else (k, v) ∷ kept

-- `value or other`
abbrev pub or_text : Option String → String → String
or_text none other = other
or_text (some v) other = if v == "" then other else v

-- what `send_wrapper` makes of the header lines of a reply
abbrev pub send_wrapper : String → Option String → HeaderLines → HeaderLines
send_wrapper cid active lines = without_id lines ++ ((correlation_header, or_text active cid) ∷ [])

-- A reply as it is sent: its header lines and the rest.
pub record Sent (A : Type 0) : Type 0 where
  pub header_lines : HeaderLines
  pub reply : A

module _ ⦃d : Deps⦄ where
  -- `cid`, and the state after `new_id()` where it was called
  abbrev pub cid_of : Option String → World d → String × World d
  cid_of none w = (d.uuid4 w.uuids_drawn, record w { uuids_drawn = suc w.uuids_drawn })
  cid_of (some v) w =
      if v == ""
      then (d.uuid4 w.uuids_drawn, record w { uuids_drawn = suc w.uuids_drawn })
      else (v, w)

  -- what the app runs in: the id, where it comes from, and the draw of the request's own id
  abbrev pub entered : HeaderLines → World d → World d
  entered lines w =
      let (cid, v) = cid_of (supplied_id lines) w in
      record v {
        correlation_id = some cid;
        correlation_from_header = is_some (supplied_id lines);
        uuids_drawn = suc v.uuids_drawn;
      }

  abbrev sent_with :
      {A : Type 0}
      → HeaderLines
      → String
      → Option String
      → Result Failure A
      → Result Failure (Sent A)
  sent_with lines cid active (err e) = err e
  sent_with lines cid active (ok a) =
      ok (record { header_lines = send_wrapper cid active lines; reply = a })

  -- `CorrelationMiddleware.__call__` on an HTTP request; `lines` are the header lines that the framework
  -- has made for the reply
  unfoldable pub correlation_middleware :
      {A : Type 0} → HeaderLines → HeaderLines → App A → App (Sent A)
  correlation_middleware request_lines lines app w =
      let (cid, v) = cid_of (supplied_id request_lines) w in
      let (r, after) = app (entered request_lines w) in
      (
        sent_with lines cid after.correlation_id r,
        record after {
          correlation_id = w.correlation_id;
          correlation_from_header = w.correlation_from_header;
        },
      )
