-- ===== src/Api/DbConnection.antt =====
-- apps/api/src/adapters/db/pg.connector.ts: how the api connects to its database, and comes back to
-- it. What the database answers to its n-th call, and the n-th value of `Math.random` in units of
-- 2 ^ -53, are parameters. A delay is an exact fraction, where the source rounds to a double.
pub mod Attempts
pub mod Delays
use fullstack_starter.Prelude.{
  ℕ, zero, suc, ◌+◌, ◌-◌, ◌*◌, ◌^◌, String, Bool, true, false, ◌||◌, Option, List, ◌∷◌, length, leb,
  ltb, if◌then◌else◌, or_else, ◌==◌,
}

pub record Ratio : Type 0 where
  pub num : ℕ
  pub den : ℕ

pub record RetryConfig : Type 0 where
  pub max_retries : ℕ
  pub retry_delay : ℕ
  pub max_retry_delay : ℕ
  pub backoff_multiplier : Ratio
  pub jitter : Bool

-- `process.env.DB_JITTER === 'true' || true`
abbrev pub jitter_of : Option String → Bool
jitter_of env = (or_else env "" == "true") || true

-- `baseDelay * Math.pow(backoffMultiplier, attempt - 1)`
abbrev pub exponential_delay : RetryConfig → ℕ → Ratio
exponential_delay c attempt = record {
  num = c.retry_delay * c.backoff_multiplier.num ^ (attempt - 1);
  den = c.backoff_multiplier.den ^ (attempt - 1);
}

-- `Math.min(exponentialDelay, maxDelay)`
abbrev pub min_delay : Ratio → ℕ → Ratio
min_delay d max = if leb d.num (max * d.den) then d else record { num = max; den = 1 }

abbrev pub unit : ℕ
unit = 2 ^ 53

-- `delay + (random - 0.5) * 2 * (delay * 0.1)`, which is `delay * (0.9 + 0.2 * random)`
abbrev pub with_jitter : Ratio → ℕ → Ratio
with_jitter d random = record { num = d.num * (9 * unit + 2 * random); den = d.den * (10 * unit) }

unfoldable pub calculate_retry_delay : RetryConfig → ℕ → ℕ → Ratio
calculate_retry_delay c attempt random =
    let delay = min_delay (exponential_delay c attempt) c.max_retry_delay in
    if c.jitter then with_jitter delay random else delay

-- the calls to the database so far, the delays that were waited (the last one first), and the timers
-- that `setupReconnectionHandlers` has started
pub record Connection : Type 0 where
  pub calls : ℕ
  pub waits : List Ratio
  pub timers : ℕ

abbrev pub called : Connection → Connection
called s = record s { calls = suc s.calls }

module _ (answers : ℕ → Bool) (random : ℕ → ℕ) (c : RetryConfig) where
  -- a failed attempt: it waits, if it is not the last one
  unfoldable pub after_failure : ℕ → Connection → Connection
  unfolding calculate_retry_delay
  after_failure attempt s =
      if ltb attempt c.max_retries
      then record s {
        calls = suc s.calls;
        waits = calculate_retry_delay c attempt (random (length s.waits)) ∷ s.waits;
      }
      else called s

  -- The body of both loops, with the number of attempts that are left.
  unfoldable pub connect_from : ℕ → ℕ → Connection → Bool × Connection
  unfolding after_failure
  connect_from zero attempt s = (false, s)
  connect_from (suc n) attempt s =
      let rest = connect_from n (suc attempt) (after_failure attempt s) in
      if answers s.calls then (true, called s) else rest

  abbrev pub with_timer : Bool × Connection → Bool × Connection
  with_timer (true, s) = (true, record s { timers = suc s.timers })
  with_timer (false, s) = (false, s)

  -- `for (let attempt = 1; attempt <= maxRetries; attempt++)`
  unfoldable pub test_connection : Connection → Bool × Connection
  unfolding connect_from
  test_connection s = with_timer (connect_from c.max_retries 1 s)

  unfoldable pub attempt_reconnection : Connection → Connection
  unfolding connect_from
  attempt_reconnection s = (connect_from c.max_retries 1 s).1

  -- the body of the timer
  unfoldable pub check_connection : Connection → Connection
  unfolding attempt_reconnection
  check_connection s = if answers s.calls then called s else attempt_reconnection (called s)
