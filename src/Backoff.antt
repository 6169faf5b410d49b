-- ===== src/Backoff.antt =====
-- `read_request_with_backoff` of app/adapters/base.py: how reads of a rate-limited target are sent again.
-- The request is a function on a state of the target; delays are in milliseconds, and `read_delay` is
-- what `float` makes of a Retry-After header, which raises on a text that is no number.
use deep_agent_blueprint.Prelude.{
  ℕ, zero, suc, ◌*◌, ◌^◌, ◌≤◌, String, ◌≡◌, ◌≢◌, String-cases, refl, ◌==◌, Bool, true, false, ◌||◌,
  Option, none, some, inl, inr, if◌then◌else◌, arith, eqb, Bool-cases, Option-cases,
}
use deep_agent_blueprint.Json.{Json}

pub record Response : Type 0 where
  pub status_code : ℕ
  pub retry_after : Option String
  -- what `response.json()` returns; `none` if it raises
  pub body : Option Json

-- what the call does: it returns a response, the client raises, or `float` raises
pub data Answer : Type 0 where
  returned : Response → Answer
  raised : Answer
  value_error : Answer

abbrev pub is_retryable : Response → Bool
is_retryable r =
    eqb r.status_code 429
    || (eqb r.status_code 502 || (eqb r.status_code 503 || eqb r.status_code 504))

abbrev answer_of : Option Response → Answer
answer_of none = raised
answer_of (some r) = returned r

module _ {S : Type 0} (send : S → Option Response × S) (read_delay : String → Option ℕ) where
  -- the delay before the next send
  abbrev pub delay_for : ℕ → ℕ → Option String → Option ℕ
  delay_for base_delay attempt none = some (base_delay * 2 ^ attempt)
  delay_for base_delay attempt (some text) =
      if text == "" then some (base_delay * 2 ^ attempt) else read_delay text

  -- what an attempt that is not the last does with its response
  abbrev wait_or_return : ℕ → ℕ → S → Answer × S → Option Response → Answer × S
  wait_or_return base_delay attempt s' later none = (raised, s')
  wait_or_return base_delay attempt s' later (some r) =
      if is_retryable r
      then elim (delay_for base_delay attempt r.retry_after) [
        | none ↦ (value_error, s')
        | some n ↦ later
      ]
      else (returned r, s')

  -- the loop from `attempt` on, with `left` retries after this one
  unfoldable pub attempts : ℕ → ℕ → ℕ → S → Answer × S
  attempts base_delay attempt zero s = let (a, s') = send s in (answer_of a, s')
  attempts base_delay attempt (suc left) s =
      let (a, s') = send s in
      let later = attempts base_delay (suc attempt) left s' in
      wait_or_return base_delay attempt s' later a

  unfoldable pub read_request_with_backoff : ℕ → ℕ → S → Answer × S
  unfolding attempts
  read_request_with_backoff max_retries base_delay s = attempts base_delay 0 max_retries s

  -- There is no Retry-After header, an empty one, or one that is a number.
  abbrev pub HasDelay : Option String → Type 0
  HasDelay h = (text : String) → h ≡ some text → text ≢ "" → (n : ℕ) × (read_delay text ≡ some n)

  -- How a call may go: a run of retryable responses, and a last send that decides.
  pub data Sent : ℕ → S → Answer × S → Type 0 where
    decided :
        (left : ℕ) (s : S) (r : Response)
        → (send s).0 ≡ some r
        → is_retryable r ≡ false
        → Sent left s (returned r, (send s).1)
    failed : (left : ℕ) (s : S) → (send s).0 ≡ none → Sent left s (raised, (send s).1)
    exhausted :
        (s : S) (r : Response)
        → (send s).0 ≡ some r
        → is_retryable r ≡ true
        → Sent 0 s (returned r, (send s).1)
    unreadable :
        (left : ℕ) (s : S) (r : Response) (text : String)
        → (send s).0 ≡ some r
        → is_retryable r ≡ true
        → r.retry_after ≡ some text
        → text ≢ ""
        → read_delay text ≡ none
        → Sent (suc left) s (value_error, (send s).1)
    again :
        (left : ℕ) (s : S) (r : Response) (q : Answer × S)
        → (send s).0 ≡ some r
        → is_retryable r ≡ true
        → HasDelay r.retry_after
        → Sent left (send s).1 q
        → Sent (suc left) s q

  delay_none :
      (base_delay attempt : ℕ) (h : Option String)
      → delay_for base_delay attempt h ≡ none
      → (text : String) × (h ≡ some text) × (text ≢ "") × (read_delay text ≡ none)
  delay_none b a none e = cc
  delay_none b a (some text) e = elim (String-cases text "") [
    | inl blank ↦ cc (rw blank at e)
    | inr (full, differs) ↦ (text, refl, differs, rw full at e)
  ]

  delay_some :
      (base_delay attempt n : ℕ) (h : Option String)
      → delay_for base_delay attempt h ≡ some n
      → HasDelay h
  delay_some b a n h e text given full = elim (String-cases text "") [
    | inl blank ↦ absurd (full blank)
    | inr (differ, _) ↦ (n, rw (given, differ) at e)
  ]

  attempts-Sent : (b a left : ℕ) (s : S) → Sent left s (attempts b a left s)
  unfolding attempts
  attempts-Sent b a zero s = elim (Option-cases (send s).0) [
    | inl nothing ↦ rw nothing (failed zero s nothing)
    | inr (r, answered) ↦ elim (Bool-cases (is_retryable r)) [
      | inl busy ↦ rw answered (exhausted s r answered busy)
      | inr fine ↦ rw answered (decided zero s r answered fine)
    ]
  ]
  attempts-Sent b a (suc left) s = elim (Option-cases (send s).0) [
    | inl nothing ↦ rw nothing (failed (suc left) s nothing)
    | inr (r, answered) ↦ elim (Bool-cases (is_retryable r)) [
      | inr fine ↦ rw (answered, fine) (decided (suc left) s r answered fine)
      | inl busy ↦ elim (Option-cases (delay_for b a r.retry_after)) [
        | inl unread ↦
            let (text, header, full, bad) = delay_none b a r.retry_after unread in
            rw (answered, busy, unread) (unreadable left s r text answered busy header full bad)
        | inr (n, wait) ↦
            rw (answered, busy, wait)
              (again left s r _ answered busy (delay_some b a n r.retry_after wait)
                (attempts-Sent b (suc a) left (send s).1))
      ]
    ]
  ]

  -- A read is sent again exactly while the response asks for it, its Retry-After header, if it has a
  -- non-empty one, is a number, and retries are left: the call returns
  -- the first response that is none of 429, 502, 503 and 504, or the one after the last retry, or fails
  -- where the client raises or at a Retry-After header that is no number.
  pub read_request_with_backoff-Sent :
      (max_retries base_delay : ℕ) (s : S)
      → Sent max_retries s (read_request_with_backoff max_retries base_delay s)
  unfolding read_request_with_backoff
  read_request_with_backoff-Sent m b s = attempts-Sent b 0 m s

  -- the target after `n` sends
  abbrev pub after : ℕ → S → S
  after zero s = s
  after (suc n) s = after n (send s).1

  Sent-bounded :
      {left : ℕ} {s : S} {q : Answer × S}
      → Sent left s q
      → (n : ℕ) × (n ≤ left) × (q.1 ≡ after (suc n) s)
  Sent-bounded (decided left s r e f) = (0, omega arith, refl)
  Sent-bounded (failed left s e) = (0, omega arith, refl)
  Sent-bounded (exhausted s r e f) = (0, omega arith, refl)
  Sent-bounded (unreadable left s r text e f h g b) = (0, omega arith, refl)
  Sent-bounded (again left s r q e f h rest) =
      let (n, few, ends) = Sent-bounded rest in (suc n, omega arith, ends)

  -- A call sends its request at least once and at most once more than `max_retries`, whatever the
  -- target answers, and does nothing else to the target.
  pub read_request_with_backoff-bounded :
      (max_retries base_delay : ℕ) (s : S)
      → (n : ℕ) × (n ≤ max_retries)
        × ((read_request_with_backoff max_retries base_delay s).1 ≡ after (suc n) s)
  read_request_with_backoff-bounded m b s = Sent-bounded (read_request_with_backoff-Sent m b s)

  -- A read is sent again exactly while the response asks for it, its Retry-After header, if it has a
  -- non-empty one, is a number, and retries are left: the call returns
  -- the first response that is none of 429, 502, 503 and 504, or the one after the last retry, or fails
  -- where the client raises or at a Retry-After header that is no number. It sends its request at
  -- least once and at most once more than `max_retries`, and does nothing else to the target.
  pub read_request_with_backoff_lem :
      (max_retries base_delay : ℕ) (s : S)
      → Sent max_retries s (read_request_with_backoff max_retries base_delay s)
        × ((n : ℕ) × (n ≤ max_retries)
            × ((read_request_with_backoff max_retries base_delay s).1 ≡ after (suc n) s))
  read_request_with_backoff_lem m b s =
      (read_request_with_backoff-Sent m b s, read_request_with_backoff-bounded m b s)
