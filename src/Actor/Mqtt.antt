-- ===== src/Actor/Mqtt.antt =====
-- The commands of `mqtt_client` (crates/ill-core/src/actor_type/mqtt_client/commands.rs).
use i_ll.Prelude.{String, some, List, [], ◌∷◌}
use i_ll.Value.{ValueType}
use i_ll.Actor.Command.{
  mqtt_disconnected, mqtt_connected, CommandDef, ErrorTypeDef, plain, arg, optional, out,
  error_type,
}

unfoldable pub mqtt_error_type : ErrorTypeDef
mqtt_error_type =
    error_type "mqtt" (out "reason" ValueType.atom ∷ out "reason_code" ValueType.number ∷ [])

unfoldable pub network_and_mqtt_error_types : List ErrorTypeDef
unfolding mqtt_error_type
network_and_mqtt_error_types =
    error_type "network" (out "reason" ValueType.atom ∷ []) ∷ mqtt_error_type ∷ []

unfoldable pub publish_qos0_error_types : List ErrorTypeDef
unfolding mqtt_error_type
publish_qos0_error_types = mqtt_error_type ∷ []

unfoldable pub receive_error_types : List ErrorTypeDef
unfolding mqtt_error_type
receive_error_types = error_type "timeout" [] ∷ mqtt_error_type ∷ []

unfoldable pub mqtt_connect : CommandDef
unfolding network_and_mqtt_error_types
mqtt_connect = record (plain "connect" (mqtt_disconnected ∷ [])) {
  transitions_to = some mqtt_connected;
  keyword =
      optional "host" ValueType.string
      ∷ optional "port" ValueType.number
      ∷ optional "username" ValueType.string
      ∷ optional "password" ValueType.string
      ∷ optional "client_id" ValueType.string
      ∷ optional "clean_start" ValueType.bool
      ∷ optional "keep_alive" ValueType.number
      ∷ optional "user_properties" ValueType.unknown
      ∷ optional "timeout" ValueType.number
      ∷ [];
  ok_fields =
      out "session_present" ValueType.bool
      ∷ out "assigned_client_id" ValueType.string
      ∷ out "user_properties" ValueType.dict
      ∷ [];
  error_types = network_and_mqtt_error_types;
}

unfoldable pub mqtt_disconnect : CommandDef
mqtt_disconnect = record (plain "disconnect" (mqtt_connected ∷ [])) {
  transitions_to = some mqtt_disconnected;
  keyword =
      optional "reason_code" ValueType.number ∷ optional "user_properties" ValueType.unknown ∷ [];
}

-- The macros `subscribe_cmd!` and `publish_cmd!`.
unfoldable pub subscribe_cmd : String → CommandDef
unfolding network_and_mqtt_error_types
subscribe_cmd name = record (plain name (mqtt_connected ∷ [])) {
  positional = arg "topic" ValueType.string ∷ [];
  keyword = optional "user_properties" ValueType.unknown ∷ [];
  error_types = network_and_mqtt_error_types;
}

unfoldable pub publish_cmd : String → List ErrorTypeDef → CommandDef
publish_cmd name errors = record (plain name (mqtt_connected ∷ [])) {
  positional = arg "topic" ValueType.string ∷ arg "payload" ValueType.unknown ∷ [];
  keyword = optional "user_properties" ValueType.unknown ∷ [];
  error_types = errors;
}

unfoldable pub receive_publish : CommandDef
unfolding receive_error_types
receive_publish = record (plain "receive_publish" (mqtt_connected ∷ [])) {
  keyword = optional "timeout" ValueType.number ∷ [];
  ok_fields =
      out "topic" ValueType.string
      ∷ out "payload" ValueType.bytes
      ∷ out "qos" ValueType.number
      ∷ out "user_properties" ValueType.dict
      ∷ [];
  error_types = receive_error_types;
}

unfoldable pub receive_disconnect : CommandDef
unfolding receive_error_types
receive_disconnect = record (plain "receive_disconnect" (mqtt_connected ∷ [])) {
  transitions_to = some mqtt_disconnected;
  keyword = optional "timeout" ValueType.number ∷ [];
  ok_fields = out "reason_code" ValueType.number ∷ out "user_properties" ValueType.dict ∷ [];
  error_types = receive_error_types;
}
