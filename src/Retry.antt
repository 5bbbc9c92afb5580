-- ===== src/Retry.antt =====
-- The loop in which a client tries again to connect until its budget of time is spent, as
-- `Disconnected::connect` has it (crates/ill-core/src/actor_type/mqtt_client/runtime.rs). Durations
-- are in nanoseconds.
pub mod Ends
use i_ll.Prelude.{ℕ, zero, suc, ◌+◌, ◌-◌, ◌/◌, Bool, Option, none, some, leb, if◌then◌else◌}
use i_ll.Runtime.{RunOutcome}

-- What an attempt gives within its time: the time is up, the mode and the outcome of a connection, or
-- an error.
pub data Attempt (M : Type 0) : Type 0 where
  expired : Attempt M
  accepted : M → RunOutcome → Attempt M
  failed : RunOutcome → Attempt M

-- What the loop needs: the clock, the attempt, the mode in which it starts, the errors after which it
-- tries again, and the outcome when the time is up.
pub record Connector (World M : Type 0) : Type 0 where
  pub now : World → ℕ
  pub sleep : ℕ → World → World
  pub attempt : ℕ → World → Attempt M × World
  pub start : M
  pub is_transient : RunOutcome → Bool
  pub timed_out : RunOutcome

-- The pause before another attempt is at most 200 milliseconds.
unfoldable pub pause : ℕ → ℕ
pause remaining = if leb 200000000 remaining then 200000000 else remaining

module _ {World M : Type 0} (C : Connector World M) where
  -- The mode, the outcome and the world.
  abbrev pub Step : Type 0
  Step = M × RunOutcome × World

  or_timeout : Option RunOutcome → RunOutcome
  or_timeout none = C.timed_out
  or_timeout (some o) = o

  after_error : RunOutcome → ℕ → (RunOutcome → World → Option Step) → World → Option Step
  unfolding pause
  after_error outcome remaining again w =
      if C.is_transient outcome
      then again outcome (C.sleep (pause remaining) w)
      else some (C.start, outcome, w)

  after_attempt : Attempt M × World → ℕ → (RunOutcome → World → Option Step) → Option Step
  unfolding after_error
  after_attempt (expired, w) remaining again = some (C.start, C.timed_out, w)
  after_attempt (accepted m o, w) remaining again = some (m, o, w)
  after_attempt (failed o, w) remaining again = after_error o remaining again w

  round : ℕ → Option RunOutcome → (RunOutcome → World → Option Step) → World → Option Step
  unfolding or_timeout after_attempt
  round zero last again w = some (C.start, or_timeout last, w)
  round (suc r) last again w = after_attempt (C.attempt (suc r) w) (suc r) again

  -- The loop, on fuel, until a point in time.
  unfoldable pub connect_loop : ℕ → ℕ → Option RunOutcome → World → Option Step
  unfolding round
  connect_loop zero deadline last w = none
  connect_loop (suc fuel) deadline last w =
      round (deadline - C.now w) last (λ outcome w'. connect_loop fuel deadline (some outcome) w') w

  -- The loop with a budget. A pause takes 200 milliseconds or what is left of the time.
  unfoldable pub connect_within : ℕ → World → Option Step
  unfolding connect_loop
  connect_within timeout w = connect_loop (timeout / 200000000 + 2) (C.now w + timeout) none w
