-- ===== src/Actor/Command.antt =====
-- Modes and the static description of a command (crates/ill-core/src/actor_type/mod.rs and the
-- `modes.rs` of each actor type).
use i_ll.Prelude.{ℕ, String, Bool, true, false, Option, none, List, [], nat_eq}
use i_ll.Value.{ValueType}

-- The structs that implement `Mode`.
pub data Mode : Type 0 where
  pg_disconnected pg_connected : Mode
  container_stopped container_running : Mode
  exec_stopped exec_running : Mode
  http_ready : Mode
  mqtt_disconnected mqtt_connected : Mode
  args_ready : Mode

unfoldable pub mode_name : Mode → String
mode_name pg_disconnected = "disconnected"
mode_name pg_connected = "connected"
mode_name container_stopped = "stopped"
mode_name container_running = "running"
mode_name exec_stopped = "stopped"
mode_name exec_running = "running"
mode_name http_ready = "ready"
mode_name mqtt_disconnected = "disconnected"
mode_name mqtt_connected = "connected"
mode_name args_ready = "ready"

unfoldable pub mode_actor_type : Mode → String
mode_actor_type pg_disconnected = "pg_client"
mode_actor_type pg_connected = "pg_client"
mode_actor_type container_stopped = "container"
mode_actor_type container_running = "container"
mode_actor_type exec_stopped = "exec"
mode_actor_type exec_running = "exec"
mode_actor_type http_ready = "http_client"
mode_actor_type mqtt_disconnected = "mqtt_client"
mode_actor_type mqtt_connected = "mqtt_client"
mode_actor_type args_ready = "args_actor"

-- A number for each struct, as its `TypeId` is.
abbrev type_id : Mode → ℕ
type_id pg_disconnected = 0
type_id pg_connected = 1
type_id container_stopped = 2
type_id container_running = 3
type_id exec_stopped = 4
type_id exec_running = 5
type_id http_ready = 6
type_id mqtt_disconnected = 7
type_id mqtt_connected = 8
type_id args_ready = 9

unfoldable pub same_mode : Mode → Mode → Bool
same_mode a b = nat_eq (type_id a) (type_id b)

pub record ArgDef : Type 0 where
  pub name : String
  pub ty : ValueType

pub record KeywordArgDef : Type 0 where
  pub name : String
  pub ty : ValueType
  pub required : Bool

pub record OutcomeField : Type 0 where
  pub name : String
  pub ty : ValueType

pub record ErrorTypeDef : Type 0 where
  pub name : String
  pub fields : List OutcomeField

pub record CommandDef : Type 0 where
  pub name : String
  pub valid_in_modes : List Mode
  pub transitions_to : Option Mode
  pub positional : List ArgDef
  pub keyword : List KeywordArgDef
  pub ok_fields : List OutcomeField
  pub error_types : List ErrorTypeDef

-- A command with the default methods of the trait.
abbrev pub plain : String → List Mode → CommandDef
plain name valid = record {
  name = name;
  valid_in_modes = valid;
  transitions_to = none;
  positional = [];
  keyword = [];
  ok_fields = [];
  error_types = [];
}

abbrev pub arg : String → ValueType → ArgDef
arg name ty = record { name = name; ty = ty }

abbrev pub optional : String → ValueType → KeywordArgDef
optional name ty = record { name = name; ty = ty; required = false }

abbrev pub required_arg : String → ValueType → KeywordArgDef
required_arg name ty = record { name = name; ty = ty; required = true }

abbrev pub out : String → ValueType → OutcomeField
out name ty = record { name = name; ty = ty }

abbrev pub error_type : String → List OutcomeField → ErrorTypeDef
error_type name fields = record { name = name; fields = fields }
