-- ===== src/Api/DbConnection/Attempts.antt =====
-- How the attempts to connect end.
use fullstack_starter.Prelude.{
  ℕ, zero, suc, ◌+◌, ◌<◌, ◌≡◌, refl, ap, ◌∙◌, subst, ◌⊎◌, inl, inr, Bool, true, false, Bool-cases,
  arith,
}
use fullstack_starter.Api.DbConnection.{
  RetryConfig, Connection, after_failure, connect_from, with_timer, test_connection,
}

-- the database answers the call number `start + k` and none of the `k` before it
pub record IsFirst (answers : ℕ → Bool) (start k : ℕ) : Type 0 where
  pub answered : answers (start + k) ≡ true
  pub before : (j : ℕ) → j < k → answers (start + j) ≡ false

-- how `n` attempts end that begin with the call number `start`
abbrev pub Settled : (ℕ → Bool) → ℕ → ℕ → Bool → ℕ → Type 0
Settled answers start n connected calls =
    ((k : ℕ) × (k < n) × IsFirst answers start k × (connected ≡ true) × (calls ≡ start + suc k))
    ⊎ (((j : ℕ) → j < n → answers (start + j) ≡ false) × (connected ≡ false) × (calls ≡ start + n))

failed_first :
    (answers : ℕ → Bool) (start n : ℕ)
    → answers start ≡ false
    → ((j : ℕ) → j < n → answers (suc start + j) ≡ false)
    → (j : ℕ) → j < suc n
    → answers (start + j) ≡ false
failed_first answers start n here later zero h =
    let e : start + 0 ≡ start = omega arith in ap answers e ∙ here
failed_first answers start n here later (suc j) h =
    let e : start + suc j ≡ suc start + j = omega arith in ap answers e ∙ later j (omega (arith, h))

later_attempts :
    (answers : ℕ → Bool) (start n : ℕ) (connected : Bool) (calls : ℕ)
    → answers start ≡ false
    → Settled answers (suc start) n connected calls
    → Settled answers start (suc n) connected calls
later_attempts answers start n connected calls here (inl (k, short, first, up, count)) =
    let e : start + suc k ≡ suc start + k = omega arith in
    inl (
      suc k,
      omega (arith, short),
      record {
        answered = ap answers e ∙ first.answered;
        before = failed_first answers start k here first.before;
      },
      up,
      omega (arith, count),
    )
later_attempts answers start n connected calls here (inr (none_up, down, count)) =
    inr (failed_first answers start n here none_up, down, omega (arith, count))

module _ (answers : ℕ → Bool) (random : ℕ → ℕ) (c : RetryConfig) where
  after_failure-calls :
      (attempt : ℕ) (s : Connection)
      → ((after_failure answers random c attempt s).calls ≡ suc s.calls)
        × ((after_failure answers random c attempt s).timers ≡ s.timers)
  unfolding after_failure
  after_failure-calls attempt s = ground arith

  connect_from-Settled :
      (n attempt : ℕ) (s : Connection)
      → Settled answers s.calls n
          (connect_from answers random c n attempt s).0
          (connect_from answers random c n attempt s).1.calls
        × ((connect_from answers random c n attempt s).1.timers ≡ s.timers)
  unfolding connect_from
  connect_from-Settled zero attempt s =
      (inr (λ j h. absurd (omega (arith, h)), refl, omega arith), refl)
  connect_from-Settled (suc n) attempt s = elim (Bool-cases (answers s.calls)) [
    | inl up ↦ rw up (
      inl (
        0,
        omega arith,
        record {
          answered = let e : s.calls + 0 ≡ s.calls = omega arith in ap answers e ∙ up;
          before = λ j h. absurd (omega (arith, h));
        },
        refl,
        omega arith,
      ),
      refl,
    )
    | inr down ↦ rw down (
        let s' = after_failure answers random c attempt s in
        let (same, timers) = after_failure-calls attempt s in
        let (settled, kept) = connect_from-Settled n (suc attempt) s' in
        (
          later_attempts answers s.calls n (connect_from answers random c n (suc attempt) s').0
              (connect_from answers random c n (suc attempt) s').1.calls down
              (subst
                (λ z.
                  Settled answers z n (connect_from answers random c n (suc attempt) s').0
                    (connect_from answers random c n (suc attempt) s').1.calls)
                same settled),
          kept ∙ timers,
        ))
  ]

  -- how a connection that was tried at `s` ended
  abbrev pub Ended : Connection → Bool × Connection → Type 0
  Ended s x =
      ((k : ℕ) × (k < c.max_retries)
        × IsFirst answers s.calls k
        × (x.0 ≡ true)
        × (x.1.calls ≡ s.calls + suc k)
        × (x.1.timers ≡ suc s.timers))
      ⊎ (((j : ℕ) → j < c.max_retries → answers (s.calls + j) ≡ false)
          × (x.0 ≡ false)
          × (x.1.calls ≡ s.calls + c.max_retries)
          × (x.1.timers ≡ s.timers))

  with_timer-Ended :
      (s : Connection) (x : Bool × Connection)
      → Settled answers s.calls c.max_retries x.0 x.1.calls
      → x.1.timers ≡ s.timers
      → Ended s (with_timer answers random c x)
  with_timer-Ended s (true, t) (inl (k, short, first, up, count)) kept =
      inl (k, short, first, refl, count, ap suc kept)
  with_timer-Ended s (false, t) (inl (k, short, first, up, count)) kept = cc
  with_timer-Ended s (true, t) (inr (none_up, down, count)) kept = cc
  with_timer-Ended s (false, t) (inr (none_up, down, count)) kept = inr (none_up, refl, count, kept)

  -- The attempts to connect end: as soon as the database answers one of the first `maxRetries`
  -- calls, that call is the last one, the result is true, and one timer that watches the connection
  -- is started; where it answers none of them, exactly `maxRetries` calls were made, the result is
  -- false and no timer is started.
  pub test_connection-Ended : (s : Connection) → Ended s (test_connection answers random c s)
  unfolding test_connection
  test_connection-Ended s =
      let (settled, kept) = connect_from-Settled c.max_retries 1 s in
      with_timer-Ended s (connect_from answers random c c.max_retries 1 s) settled kept
