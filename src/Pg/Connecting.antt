-- ===== src/Pg/Connecting.antt =====
-- The loop that connects ends (crates/ill-core/src/actor_type/pg_client/runtime.rs).
use i_ll.Prelude.{ℕ, ◌+◌, ◌≤◌, true, Option, none, some, ok, err, ◌≡◌, refl, if◌then◌else◌}
use i_ll.Value.{len}
use i_ll.Actor.Command.{Mode, CommandDef, pg_disconnected}
use i_ll.Actor.Client.{pg_connect}
use i_ll.Runtime.{RunOutcome}
use i_ll.Exec.Modes.{succeeded, target_or}
use i_ll.Exec.Outcomes.{conforms}
use i_ll.Pg.Server.{Config, Timed, expired, returned, Driver}
use i_ll.Pg.Server.Reasons.{Fails, network-Fails, connect-Fails, classify_connect_error-Fails}
use i_ll.Retry.Ends.{Ended, Behaves, connect_within-returns}
use i_ll.Pg.{PgMode, disconnected, Step, attempted, connector, connect_with, mode_of}

module _ (O : Driver) where
  -- The outcome is one that the command declares, and the mode is the command's target if the command
  -- succeeded, and the mode before otherwise.
  unfoldable pub Declared : Mode → CommandDef → Step O → Type 0
  Declared before def s =
      (conforms def s.1 ≡ true)
      × (mode_of O s.0 ≡ (if succeeded s.1 then target_or def.transitions_to before else before))

  unfoldable pub Returns : Mode → CommandDef → Option (Step O) → Type 0
  Returns before def o = (s : Step O) × (o ≡ some s) × Declared before def s

  pub stay-Declared :
      (mode : PgMode O) (def : CommandDef) (o : RunOutcome) (w : O.World)
      → Fails def o
      → Declared (mode_of O mode) def (mode, o, w)
  unfolding Fails Declared
  stay-Declared mode def o w (fits, unsuccessful) = (fits, rw unsuccessful refl)

  -- What the loop leaves.
  Left : PgMode O → RunOutcome → Type 0
  Left mode o =
      (conforms pg_connect o ≡ true)
      × (mode_of O mode ≡ (
          if succeeded o
          then target_or pg_connect.transitions_to pg_disconnected
          else pg_disconnected))

  attempted-Ended : (t : Timed O.Client × O.World) → Ended (Fails pg_connect) Left (attempted O t).0
  unfolding attempted Ended
  attempted-Ended (expired, w) = tt
  attempted-Ended (returned (ok client), w) =
      unfold Left conforms pg_connect mode_of len in (refl, refl)
  attempted-Ended (returned (err e), w) = classify_connect_error-Fails O.to_lowercase e

  start-Left : (o : RunOutcome) → Fails pg_connect o → Left disconnected o
  unfolding Fails Left mode_of
  start-Left o (fits, unsuccessful) = (fits, rw unsuccessful refl)

  attempted-now : (t : Timed O.Client × O.World) → (attempted O t).1 ≡ t.1
  unfolding attempted
  attempted-now (expired, w) = refl
  attempted-now (returned (ok client), w) = refl
  attempted-now (returned (err e), w) = refl

  module _ (forward : (cfg : Config) (d : ℕ) (w : O.World) → O.now w ≤ O.now (O.connect cfg d w).1)
      (sleeps : (d : ℕ) (w : O.World) → O.now w + d ≤ O.now (O.sleep d w)) where
    connector-Behaves : (cfg : Config) → Behaves (connector O cfg) (Fails pg_connect) Left
    unfolding connector
    connector-Behaves cfg = record {
      forward = λ d w. rw (attempted-now (O.connect cfg d w)) (forward cfg d w);
      sleeps = sleeps;
      attempts = λ d w. attempted-Ended (O.connect cfg d w);
      out_of_time = network-Fails "timeout";
      stays = λ o h. start-Left o h;
    }

    pub connect_with-Returns :
        (cfg : Option Config) (w : O.World)
        → Returns pg_disconnected pg_connect (connect_with O cfg w)
    unfolding connect_with
    connect_with-Returns none w =
        unfold Returns mode_of in
        (_, refl, stay-Declared disconnected pg_connect _ w (connect-Fails "other"))
    connect_with-Returns (some cfg) w =
        unfold Returns Declared Left in
        connect_within-returns (connector O cfg) (Fails pg_connect) Left (connector-Behaves cfg)
          cfg.timeout w
