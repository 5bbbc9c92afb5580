-- ===== src/Actor/Client.antt =====
-- The commands of `pg_client` and `http_client`
-- (crates/ill-core/src/actor_type/{pg_client,http_client}/commands.rs).
use i_ll.Prelude.{String, some, List, [], ◌∷◌}
use i_ll.Value.{ValueType}
use i_ll.Actor.Command.{
  pg_disconnected, pg_connected, http_ready, CommandDef, ErrorTypeDef, plain, arg, optional,
  required_arg, out, error_type,
}

unfoldable pub network_error_type : ErrorTypeDef
network_error_type = error_type "network" (out "reason" ValueType.atom ∷ [])

unfoldable pub connect_error_types : List ErrorTypeDef
unfolding network_error_type
connect_error_types =
    network_error_type ∷ error_type "connect" (out "reason" ValueType.atom ∷ []) ∷ []

unfoldable pub query_error_types : List ErrorTypeDef
unfolding network_error_type
query_error_types =
    network_error_type
    ∷ error_type "query" (
        out "reason" ValueType.atom
        ∷ out "sqlstate" ValueType.string
        ∷ out "message" ValueType.string
        ∷ [])
    ∷ []

unfoldable pub pg_connect : CommandDef
unfolding connect_error_types
pg_connect = record (plain "connect" (pg_disconnected ∷ [])) {
  transitions_to = some pg_connected;
  keyword =
      optional "host" ValueType.string
      ∷ optional "port" ValueType.number
      ∷ required_arg "user" ValueType.string
      ∷ optional "password" ValueType.string
      ∷ required_arg "database" ValueType.string
      ∷ optional "application_name" ValueType.string
      ∷ optional "timeout" ValueType.number
      ∷ [];
  error_types = connect_error_types;
}

unfoldable pub pg_query : CommandDef
unfolding query_error_types
pg_query = record (plain "query" (pg_connected ∷ [])) {
  positional = arg "sql" ValueType.string ∷ [];
  keyword = optional "timeout" ValueType.number ∷ [];
  ok_fields =
      out "row" ValueType.dynamic
      ∷ out "col" ValueType.dynamic
      ∷ out "row_count" ValueType.number
      ∷ out "col_count" ValueType.number
      ∷ [];
  error_types = query_error_types;
}

unfoldable pub pg_disconnect : CommandDef
pg_disconnect = record (plain "disconnect" (pg_connected ∷ [])) {
  transitions_to = some pg_disconnected;
}

-- The macro `http_verb!`.
unfoldable pub http_verb : String → CommandDef
http_verb name = record (plain name (http_ready ∷ [])) {
  positional = arg "url" ValueType.string ∷ [];
  keyword =
      optional "headers" ValueType.unknown
      ∷ optional "body" ValueType.unknown
      ∷ optional "timeout" ValueType.number
      ∷ [];
  ok_fields =
      out "status_code" ValueType.number
      ∷ out "body" ValueType.unknown
      ∷ out "headers" ValueType.unknown
      ∷ [];
}
