-- ===== src/Pg/Server.antt =====
-- What the `pg_client` actor asks of the driver and how it names its errors
-- (crates/ill-core/src/actor_type/pg_client/runtime.rs).
pub mod Reasons
use i_ll.Prelude.{
  ℕ, zero, suc, ◌*◌, String, ◌<>◌, Bool, true, false, ◌&&◌, ◌||◌, Option, none, some, List, [], ◌∷◌,
  Result, ok, err, leb, ltb, if◌then◌else◌, ◌==◌,
}
use text.Mathlib.Text.{starts_with}
use i_ll.Prelude.Int.{pos, negsuc}
use i_ll.Prelude.Text.{contains_str}
use i_ll.Value.{Value, Dict, get}
use i_ll.Value.Dicts.{insert}
use i_ll.Runtime.{RunOutcome}
use i_ll.Pg.Rows.{Row}

pub data IoKind : Type 0 where
  connection_refused timed_out other_kind : IoKind

pub record DbError : Type 0 where
  pub code : String
  pub message : String

-- An error of the driver: the server's error if it is one, the chain of its sources with the kind of
-- those that are errors of input and output, whether the connection is closed, and how it is
-- displayed.
pub record PgError : Type 0 where
  pub db : Option DbError
  pub sources : List (Option IoKind)
  pub is_closed : Bool
  pub rendered : String

-- A `Config` with the budget for connecting. Durations are in nanoseconds.
pub record Config : Type 0 where
  pub host : String
  pub port : ℕ
  pub user : String
  pub password : Option String
  pub database : String
  pub application_name : Option String
  pub timeout : ℕ

-- What `tokio::time::timeout` gives for a call of the driver.
pub data Timed {ℓ} (A : Type ℓ) : Type ℓ where
  expired : Timed A
  returned : Result PgError A → Timed A

-- The crates `tokio` and `tokio_postgres` with the server, the clock, and the lower case of a text. A
-- query may never be answered, which is `none`; one within a limit is answered or expires.
pub record Driver : Type 1 where
  pub World : Type 0
  pub Client : Type 0
  pub now : World → ℕ
  pub sleep : ℕ → World → World
  pub connect : Config → ℕ → World → Timed Client × World
  pub query : Client → String → World → Option (Result PgError (List Row) × World)
  pub query_within : Client → String → ℕ → World → Timed (List Row) × World
  pub close : Client → World → World
  pub to_lowercase : String → String
  pub widen : ℕ → ℕ

unfoldable pub network_error : String → RunOutcome
unfolding insert
network_error reason = RunOutcome.error "network" (insert "reason" (Value.atom reason) Dict.empty)

unfoldable pub connect_error : String → RunOutcome
unfolding insert
connect_error reason = RunOutcome.error "connect" (insert "reason" (Value.atom reason) Dict.empty)

unfoldable pub query_error : String → String → String → RunOutcome
unfolding insert
query_error reason sqlstate message = RunOutcome.error "query" (
    insert "message" (Value.string message)
      (insert "sqlstate" (Value.string sqlstate) (insert "reason" (Value.atom reason) Dict.empty)))

-- The first error of input and output in the chain.
unfoldable pub find_io_error : List (Option IoKind) → Option IoKind
find_io_error [] = none
find_io_error (some k ∷ rest) = some k
find_io_error (none ∷ rest) = find_io_error rest

-- The codes are those of `SqlState`.
db_connect_reason : String → String
db_connect_reason code =
    if code == "28P01" || code == "28000"
    then "authentication_failed"
    else if code == "3D000"
    then "bad_database"
    else "other"

io_reason : IoKind → String
io_reason connection_refused = "connection_refused"
io_reason timed_out = "timeout"
io_reason other_kind = "host_unreachable"

transport_error : Bool → Option IoKind → RunOutcome
unfolding network_error io_reason
transport_error tls (some k) = network_error (io_reason k)
transport_error true none = network_error "tls"
transport_error false none = network_error "other"

connect_error_of : Bool → PgError → Option DbError → RunOutcome
unfolding connect_error db_connect_reason transport_error find_io_error
connect_error_of tls e (some db) = connect_error (db_connect_reason db.code)
connect_error_of tls e none = transport_error tls (find_io_error e.sources)

unfoldable pub classify_connect_error : (String → String) → PgError → RunOutcome
unfolding connect_error_of
classify_connect_error to_lowercase e =
    connect_error_of (contains_str (to_lowercase e.rendered) "tls") e e.db

db_query_reason : String → String
db_query_reason code =
    if code == "42601"
      || (code == "42703" || (code == "42P01" || (code == "42883" || code == "42704")))
    then "syntax_error"
    else if starts_with code "23"
    then "constraint_violation"
    else "other"

is_some : Option IoKind → Bool
is_some none = false
is_some (some k) = true

query_error_of : PgError → Option DbError → RunOutcome
unfolding query_error network_error db_query_reason is_some find_io_error
query_error_of e (some db) = query_error (db_query_reason db.code) db.code db.message
query_error_of e none =
    if is_some (find_io_error e.sources) || e.is_closed
    then network_error "connection_lost"
    else query_error "other" "" e.rendered

unfoldable pub classify_query_error : PgError → RunOutcome
unfolding query_error_of
classify_query_error e = query_error_of e e.db

unfoldable pub is_transient_connect_error : RunOutcome → Bool
is_transient_connect_error (RunOutcome.error variant fields) = variant == "network"
is_transient_connect_error (RunOutcome.ok fields) = false
is_transient_connect_error (RunOutcome.not_implemented actor cmd) = false

host_of : Option Value → Option String
host_of none = some "127.0.0.1"
host_of (some (Value.string s)) = some s
host_of (some v) = none

port_of : Option Value → Option ℕ
port_of none = some 5432
port_of (some (Value.number (pos n))) = if ltb 0 n && leb n 65535 then some n else none
port_of (some v) = none

string_of : Option Value → Option String
string_of (some (Value.string s)) = some s
string_of v = none

-- Milliseconds in nanoseconds, if there are any.
unfoldable pub millis_of : Option Value → Option ℕ
millis_of (some (Value.number (pos (suc n)))) = some (suc n * 1000000)
millis_of v = none

or_ten_seconds : Option ℕ → ℕ
or_ten_seconds none = 10000000000
or_ten_seconds (some n) = n

config_of : Option String → Option ℕ → Option String → Option String → Dict → Option Config
unfolding get
config_of (some host) (some port) (some user) (some database) kw = some (record {
  host = host;
  port = port;
  user = user;
  password = string_of (get "password" kw);
  database = database;
  application_name = string_of (get "application_name" kw);
  timeout = or_ten_seconds (millis_of (get "timeout" kw));
})
config_of host port user database kw = none

unfoldable pub build_config : Dict → Option Config
unfolding config_of host_of port_of string_of or_ten_seconds get
build_config kw =
    config_of (host_of (get "host" kw)) (port_of (get "port" kw)) (string_of (get "user" kw))
      (string_of (get "database" kw)) kw
