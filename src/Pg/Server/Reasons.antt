-- ===== src/Pg/Server/Reasons.antt =====
-- The errors of the `pg_client` actor are those that its commands declare
-- (crates/ill-core/src/actor_type/pg_client/runtime.rs and commands.rs).
use i_ll.Prelude.{String, Bool, true, false, ◌||◌, Option, none, some, ◌≡◌, refl, if◌then◌else◌}
use i_ll.Value.{get, len, is_of_type}
use i_ll.Actor.Command.{CommandDef}
use i_ll.Actor.Client.{pg_connect, pg_query}
use i_ll.Runtime.{RunOutcome}
use i_ll.Exec.Modes.{succeeded}
use i_ll.Exec.Outcomes.{conforms}
use i_ll.Pg.Server.{
  IoKind, DbError, PgError, network_error, connect_error, query_error, transport_error,
  connect_error_of, query_error_of, classify_connect_error, classify_query_error, find_io_error,
  is_some,
}

-- A declared failure of a command.
unfoldable pub Fails : CommandDef → RunOutcome → Type 0
Fails def o = (conforms def o ≡ true) × (succeeded o ≡ false)

pub network-Fails : (reason : String) → Fails pg_connect (network_error reason)
unfolding Fails conforms pg_connect network_error get len is_of_type
network-Fails reason = (refl, refl)

pub connect-Fails : (reason : String) → Fails pg_connect (connect_error reason)
unfolding Fails conforms pg_connect connect_error get len is_of_type
connect-Fails reason = (refl, refl)

transport-Fails : (tls : Bool) (k : Option IoKind) → Fails pg_connect (transport_error tls k)
unfolding transport_error
transport-Fails tls (some k) = network-Fails _
transport-Fails true none = network-Fails _
transport-Fails false none = network-Fails _

error_of-Fails :
    (tls : Bool) (e : PgError) (db : Option DbError) → Fails pg_connect (connect_error_of tls e db)
unfolding connect_error_of
error_of-Fails tls e (some db) = connect-Fails _
error_of-Fails tls e none = transport-Fails tls _

query_network-Fails : (reason : String) → Fails pg_query (network_error reason)
unfolding Fails conforms pg_query network_error get len is_of_type
query_network-Fails reason = (refl, refl)

pub query-Fails :
    (reason state message : String) → Fails pg_query (query_error reason state message)
unfolding Fails conforms pg_query query_error get len is_of_type
query-Fails reason state message = (refl, refl)

query_of-Fails : (e : PgError) (db : Option DbError) → Fails pg_query (query_error_of e db)
unfolding query_error_of
query_of-Fails e (some db) = query-Fails _ _ _
query_of-Fails e none =
    elim (is_some (find_io_error e.sources) || e.is_closed)
      as (λ b.
        Fails pg_query
          (if b then network_error "connection_lost" else query_error "other" "" e.rendered)) [
            | true ↦ query_network-Fails _
            | false ↦ query-Fails _ _ _
          ]

pub classify_connect_error-Fails :
    (lower : String → String) (e : PgError) → Fails pg_connect (classify_connect_error lower e)
unfolding classify_connect_error
classify_connect_error-Fails lower e = error_of-Fails _ e e.db

pub classify_query_error-Fails : (e : PgError) → Fails pg_query (classify_query_error e)
unfolding classify_query_error
classify_query_error-Fails e = query_of-Fails e e.db
