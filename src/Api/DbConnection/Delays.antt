-- ===== src/Api/DbConnection/Delays.antt =====
-- How long the api waits between two attempts to connect.
use native.Mathlib.Nat.{mul-le-mul_left, mul-le-mul_right}
use fullstack_starter.Prelude.{ℕ, ◌+◌, ◌*◌, ◌≤◌, inl, inr, Bool-cases, leb, arith}
use fullstack_starter.Api.DbConnection.{
  Ratio, RetryConfig, exponential_delay, min_delay, unit, with_jitter, calculate_retry_delay,
}

-- `a / b ≤ x / y`
abbrev pub AtMost : Ratio → Ratio → Type 0
AtMost a b = a.num * b.den ≤ b.num * a.den

capped : (d : Ratio) (max : ℕ) → (min_delay d max).num ≤ max * (min_delay d max).den
capped d max = elim (Bool-cases (leb d.num (max * d.den))) [
  | inl below ↦ rw below (ground (arith, below))
  | inr above ↦ rw above (omega arith)
]

lower : (n d u r : ℕ) → 9 * n * (d * (10 * u)) ≤ n * (9 * u + 2 * r) * (10 * d)
lower n d u r = grind arith

upper : (n d u max x : ℕ) → x ≤ max * d * (11 * u) → x * 10 ≤ 11 * max * (d * (10 * u))
upper n d u max x h = grind arith

plain_lower : (n d : ℕ) → 9 * n * d ≤ n * (10 * d)
plain_lower n d = grind arith

plain_upper : (n d max : ℕ) → n ≤ max * d → n * 10 ≤ 11 * max * d
plain_upper n d max h = grind arith

-- `9 / 10 * base ≤ delay ≤ 11 / 10 * max`
abbrev pub IsBetween : Ratio → ℕ → Ratio → Type 0
IsBetween base max delay =
    AtMost (record { num = 9 * base.num; den = 10 * base.den }) delay
    × AtMost delay (record { num = 11 * max; den = 10 })

with_jitter-IsBetween :
    (d : Ratio) (max random : ℕ)
    → d.num ≤ max * d.den
    → random ≤ unit
    → IsBetween d max (with_jitter d random)
with_jitter-IsBetween d max random under h =
    let more : d.num * (9 * unit + 2 * random) ≤ d.num * (11 * unit) =
      mul-le-mul_left d.num (omega (arith, h)) in
    let capped_more : d.num * (11 * unit) ≤ max * d.den * (11 * unit) =
      mul-le-mul_right (11 * unit) under in
    (
      lower d.num d.den unit random,
      upper d.num d.den unit max (d.num * (9 * unit + 2 * random))
          (omega (arith, more, capped_more)),
    )

-- Every delay stands between 0.9 times the capped exponential one and 1.1 times the longest delay
-- that is configured, whatever the attempt.
pub calculate_retry_delay-IsBetween :
    (c : RetryConfig) (attempt random : ℕ)
    → random ≤ unit
    → IsBetween
        (min_delay (exponential_delay c attempt) c.max_retry_delay)
        c.max_retry_delay
        (calculate_retry_delay c attempt random)
unfolding calculate_retry_delay
calculate_retry_delay-IsBetween c attempt random h =
    let base = min_delay (exponential_delay c attempt) c.max_retry_delay in
    let under = capped (exponential_delay c attempt) c.max_retry_delay in
    elim (Bool-cases c.jitter) [
      | inl jittered ↦ rw jittered (with_jitter-IsBetween base c.max_retry_delay random under h)
      | inr plain ↦
          rw plain
            (plain_lower base.num base.den, plain_upper base.num base.den c.max_retry_delay under)
    ]
