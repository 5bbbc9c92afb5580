-- ===== src/Pg/Declared.antt =====
-- The commands of the `pg_client` actor at run time against their static description
-- (crates/ill-core/src/actor_type/pg_client/runtime.rs and commands.rs).
use i_ll.Prelude.{
  ℕ, ◌+◌, ◌≤◌, String, Bool, true, false, Option, none, some, List, ◌∷◌, Result, ok, err, any, ◌≡◌,
  refl, ◌⊎◌, inl, inr, if◌then◌else◌,
}
use i_ll.Value.{Value, get, len, is_of_type}
use i_ll.Value.Dicts.{insert}
use i_ll.Actor.Command.{CommandDef, same_mode}
use i_ll.Actor.Client.{pg_connect, pg_query, pg_disconnect}
use i_ll.Runtime.{CommandArgs, kw}
use i_ll.Exec.Modes.{succeeded, target_or}
use i_ll.Exec.Outcomes.{conforms}
use i_ll.Pg.Rows.{Row, build_result_dict}
use i_ll.Pg.Server.{PgError, Config, Timed, expired, returned, Driver, build_config, millis_of}
use i_ll.Pg.Server.Reasons.{query-Fails, classify_query_error-Fails}
use i_ll.Pg.{
  PgMode, disconnected, connected, Step, connect, answered, answered_in_time, answered_at_last,
  query_for, query, disconnect, query_args, execute, mode_of,
}
use i_ll.Pg.Connecting.{Declared, Returns, stay-Declared, connect_with-Returns}

unfoldable pub is_limit : Option ℕ → Bool
is_limit none = false
is_limit (some n) = true

module _ (O : Driver) where
  answered-Declared :
      (client : O.Client) (r : Result PgError (List Row)) (w : O.World)
      → Declared O (mode_of O (connected client)) pg_query (answered O client r w)
  unfolding answered
  answered-Declared client (ok rows) w =
      unfold Declared conforms pg_query build_result_dict insert get len is_of_type in (refl, refl)
  answered-Declared client (err e) w =
      stay-Declared O (connected client) pg_query _ w (classify_query_error-Fails e)

  in_time-Declared :
      (client : O.Client) (t : Timed (List Row) × O.World)
      → Declared O (mode_of O (connected client)) pg_query (answered_in_time O client t)
  unfolding answered_in_time
  in_time-Declared client (expired, w) =
      stay-Declared O (connected client) pg_query _ w (query-Fails _ _ _)
  in_time-Declared client (returned r, w) = answered-Declared client r w

  -- The server answers every query in the end.
  unfoldable pub Answers : Type 0
  Answers =
      (client : O.Client) (sql : String) (w : O.World)
      → (r : Result PgError (List Row) × O.World) × (O.query client sql w ≡ some r)

  at_last-Returns :
      (client : O.Client) (o : Option (Result PgError (List Row) × O.World))
      → ((r : Result PgError (List Row) × O.World) × (o ≡ some r))
      → Returns O (mode_of O (connected client)) pg_query (answered_at_last O client o)
  unfolding answered_at_last Returns
  at_last-Returns client none h = let e = h.1 in absurd (cc e)
  at_last-Returns client (some (r, w)) h = (_, refl, answered-Declared client r w)

  query-Returns :
      (client : O.Client) (sql : String) (limit : Option ℕ) (w : O.World)
      → (is_limit limit ≡ true) ⊎ Answers
      → Returns O (mode_of O (connected client)) pg_query (query_for O client sql limit w)
  unfolding query_for Returns Answers is_limit
  query-Returns client sql none w (inl h) = absurd (cc h)
  query-Returns client sql none w (inr answers) = at_last-Returns client _ (answers client sql w)
  query-Returns client sql (some n) w h = (_, refl, in_time-Declared client _)

  args-Returns :
      (client : O.Client) (vs : List Value) (timeout : Option Value) (w : O.World)
      → (is_limit (millis_of timeout) ≡ true) ⊎ Answers
      → Returns O (mode_of O (connected client)) pg_query (query_args O client vs timeout w)
  unfolding query_args query Returns
  args-Returns client (Value.string sql ∷ vs) timeout w h =
      query-Returns client sql (millis_of timeout) w h
  args-Returns client vs timeout w h =
      (_, refl, stay-Declared O (connected client) pg_query _ w (query-Fails _ _ _))

  module _ (forward : (cfg : Config) (d : ℕ) (w : O.World) → O.now w ≤ O.now (O.connect cfg d w).1)
      (sleeps : (d : ℕ) (w : O.World) → O.now w + d ≤ O.now (O.sleep d w)) where
    connect_case :
        (mode : PgMode O) (args : CommandArgs) (w : O.World)
        → any (same_mode (mode_of O mode)) pg_connect.valid_in_modes ≡ true
        → Returns O (mode_of O mode) pg_connect (execute O mode "connect" args w)
    unfolding execute connect mode_of pg_connect same_mode
    connect_case disconnected args w valid =
        connect_with-Returns O forward sleeps (build_config args.keyword) w
    connect_case (connected client) args w valid = absurd (cc valid)

    query_case :
        (mode : PgMode O) (args : CommandArgs) (w : O.World)
        → (is_limit (millis_of (kw args "timeout")) ≡ true) ⊎ Answers
        → any (same_mode (mode_of O mode)) pg_query.valid_in_modes ≡ true
        → Returns O (mode_of O mode) pg_query (execute O mode "query" args w)
    unfolding execute mode_of pg_query same_mode Returns
    query_case disconnected args w h valid = absurd (cc valid)
    query_case (connected client) args w h valid =
        args-Returns client args.positional (kw args "timeout") w h

    disconnect_case :
        (mode : PgMode O) (args : CommandArgs) (w : O.World)
        → any (same_mode (mode_of O mode)) pg_disconnect.valid_in_modes ≡ true
        → Returns O (mode_of O mode) pg_disconnect (execute O mode "disconnect" args w)
    unfolding execute disconnect mode_of pg_disconnect same_mode Returns Declared conforms len
    disconnect_case disconnected args w valid = absurd (cc valid)
    disconnect_case (connected client) args w valid = (_, refl, (refl, refl))

    of_def :
        (mode : PgMode O) (def : CommandDef) (args : CommandArgs) (w : O.World)
        → (def ≡ pg_connect) ⊎ ((def ≡ pg_query) ⊎ (def ≡ pg_disconnect))
        → (def ≡ pg_query → (is_limit (millis_of (kw args "timeout")) ≡ true) ⊎ Answers)
        → any (same_mode (mode_of O mode)) def.valid_in_modes ≡ true
        → Returns O (mode_of O mode) def (execute O mode def.name args w)
    unfolding pg_connect pg_query pg_disconnect
    of_def mode def args w (inl e) h = rw e (connect_case mode args w)
    of_def mode def args w (inr (inl e)) h =
        let answered = h e in rw e (query_case mode args w answered)
    of_def mode def args w (inr (inr e)) h = rw e (disconnect_case mode args w)

    -- Each command of `pg_client` that is valid in the actor's mode returns, if the clock never runs
    -- backwards during an attempt to connect, a pause lasts at least as long as asked for, and a query
    -- has a timeout in milliseconds or is sent to a server that answers every query in the end: the
    -- loop that connects ends within its budget. The outcome has the fields that the command declares
    -- for success or for the error, with the declared types; and the mode afterwards is the one that
    -- the static description names if the command succeeded, and the mode before if it did not.
    pub execute-returns :
        (mode : PgMode O) (def : CommandDef) (args : CommandArgs) (w : O.World)
        → (def ≡ pg_connect) ⊎ ((def ≡ pg_query) ⊎ (def ≡ pg_disconnect))
        → any (same_mode (mode_of O mode)) def.valid_in_modes ≡ true
        → (def ≡ pg_query → (is_limit (millis_of (kw args "timeout")) ≡ true) ⊎ Answers)
        → (s : Step O) × (execute O mode def.name args w ≡ some s)
          × (conforms def s.1 ≡ true)
          × (mode_of O s.0 ≡ (
              if succeeded s.1
              then target_or def.transitions_to (mode_of O mode)
              else mode_of O mode))
    unfolding Returns Declared
    execute-returns mode def args w declared valid answered =
        let (s, gives, (fits, moved)) = of_def mode def args w declared answered valid in
        (s, gives, fits, moved)
