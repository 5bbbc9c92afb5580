-- ===== src/Pg.antt =====
-- The `pg_client` actor at run time (crates/ill-core/src/actor_type/pg_client/runtime.rs).
pub mod Rows
pub mod Server
pub mod Connecting
pub mod Declared
use i_ll.Prelude.{
  ℕ, zero, suc, ◌+◌, ◌-◌, ◌/◌, String, Bool, true, false, ◌||◌, Option, none, some, List, [], ◌∷◌,
  leb, Result, ok, err, nat_eq, if◌then◌else◌, ◌==◌,
}
use i_ll.Value.{Value, Dict, get}
use i_ll.Actor.Command.{Mode, pg_disconnected, pg_connected}
use i_ll.Runtime.{ConstructArgs, CommandArgs, kw, RunOutcome, TeardownOutcome, teardown_ok}
use i_ll.Retry.{Attempt, accepted, failed, Connector, connect_within}
use i_ll.Pg.Rows.{Row, build_result_dict}
use i_ll.Pg.Server.{
  PgError, Config, Timed, expired, returned, Driver, network_error, connect_error, query_error,
  classify_connect_error, classify_query_error, is_transient_connect_error, millis_of, build_config,
}

module _ (O : Driver) where
  pub data PgMode : Type 0 where
    disconnected : PgMode
    connected : O.Client → PgMode

  -- `PgClientInstance::construct`: the arguments are ignored.
  unfoldable pub construct : ConstructArgs → PgMode
  construct args = disconnected

  -- The mode after a step, its outcome, and the world.
  abbrev pub Step : Type 0
  Step = PgMode × RunOutcome × O.World

  -- What an attempt to connect leads to.
  attempted : Timed O.Client × O.World → Attempt PgMode × O.World
  unfolding classify_connect_error
  attempted (expired, w) = (Attempt.expired, w)
  attempted (returned (ok client), w) = (accepted (connected client) (RunOutcome.ok Dict.empty), w)
  attempted (returned (err e), w) = (failed (classify_connect_error O.to_lowercase e), w)

  -- The loop of `Disconnected::connect` tries this.
  unfoldable pub connector : Config → Connector O.World PgMode
  unfolding attempted is_transient_connect_error network_error
  connector cfg = record {
    now = O.now;
    sleep = O.sleep;
    attempt = λ d w. attempted (O.connect cfg d w);
    start = disconnected;
    is_transient = is_transient_connect_error;
    timed_out = network_error "timeout";
  }

  pub connect_with : Option Config → O.World → Option Step
  unfolding connect_within connector
  connect_with none w = some (disconnected, connect_error "other", w)
  connect_with (some cfg) w = connect_within (connector cfg) cfg.timeout w

  -- `Disconnected::connect`.
  unfoldable pub connect : Dict → O.World → Option Step
  unfolding connect_with build_config
  connect keyword w = connect_with (build_config keyword) w

  answered : O.Client → Result PgError (List Row) → O.World → Step
  unfolding build_result_dict classify_query_error
  answered client (ok rows) w =
      (connected client, RunOutcome.ok (build_result_dict O.widen rows), w)
  answered client (err e) w = (connected client, classify_query_error e, w)

  answered_in_time : O.Client → Timed (List Row) × O.World → Step
  unfolding answered
  answered_in_time client (expired, w) =
      (connected client, query_error "timeout" "" "query timeout", w)
  answered_in_time client (returned r, w) = answered client r w

  -- Without a limit the command waits as long as the server does.
  answered_at_last : O.Client → Option (Result PgError (List Row) × O.World) → Option Step
  unfolding answered
  answered_at_last client none = none
  answered_at_last client (some (r, w)) = some (answered client r w)

  query_for : O.Client → String → Option ℕ → O.World → Option Step
  unfolding answered_in_time answered_at_last
  query_for client sql none w = answered_at_last client (O.query client sql w)
  query_for client sql (some limit) w =
      some (answered_in_time client (O.query_within client sql limit w))

  -- `Connected::query`.
  unfoldable pub query : O.Client → String → Option Value → O.World → Option Step
  unfolding query_for millis_of
  query client sql timeout w = query_for client sql (millis_of timeout) w

  -- `Connected::disconnect`: the client is dropped.
  unfoldable pub disconnect : O.Client → O.World → Step
  disconnect client w = (disconnected, RunOutcome.ok Dict.empty, O.close client w)

  query_args : O.Client → List Value → Option Value → O.World → Option Step
  unfolding query
  query_args client (Value.string sql ∷ vs) timeout w = query client sql timeout w
  query_args client vs timeout w =
      some (connected client, query_error "other" "" "missing sql argument", w)

  refused : PgMode → String → O.World → Option Step
  refused mode cmd w = some (mode, RunOutcome.not_implemented "pg_client" cmd, w)

  -- `ActorInstance::execute`: the mode is the instance. `none` means that the fuel of the loop
  -- that connects ran out, or that the server never answers.
  unfoldable pub execute : PgMode → String → CommandArgs → O.World → Option Step
  unfolding refused query_args disconnect connect kw
  execute disconnected cmd args w =
      if cmd == "connect" then connect args.keyword w else refused disconnected cmd w
  execute (connected client) cmd args w =
      if cmd == "query"
      then query_args client args.positional (kw args "timeout") w
      else if cmd == "disconnect"
      then some (disconnect client w)
      else refused (connected client) cmd w

  -- `ActorInstance::teardown`.
  unfoldable pub teardown : PgMode → O.World → TeardownOutcome × PgMode × O.World
  teardown disconnected w = (teardown_ok, disconnected, w)
  teardown (connected client) w = (teardown_ok, disconnected, O.close client w)

  unfoldable pub mode_of : PgMode → Mode
  mode_of disconnected = pg_disconnected
  mode_of (connected client) = pg_connected
