-- ===== src/Mqtt/Connect.antt =====
-- How the `mqtt_client` actor names what keeps it from connecting
-- (crates/ill-core/src/actor_type/mqtt_client/runtime.rs).
use i_ll.Prelude.{String, Bool, false, Option, none, some, List, ◌==◌}
use i_ll.Prelude.Int.{pos, negsuc}
use i_ll.Value.{Value, Dict}
use i_ll.Value.Dicts.{insert}
use i_ll.Runtime.{RunOutcome}
use i_ll.Mqtt.Acks.{Reason, network_error, mqtt_error}
use i_ll.Mqtt.Receive.{user_properties_to_dict}

pub data ConnectReturnCode : Type 0 where
  success unspecified_error malformed_packet protocol_error : ConnectReturnCode
  implementation_specific_error unsupported_protocol_version : ConnectReturnCode
  refused_protocol_version client_identifier_not_valid bad_client_id : ConnectReturnCode
  bad_user_name_password not_authorized server_unavailable service_unavailable : ConnectReturnCode
  server_busy banned bad_authentication_method topic_name_invalid : ConnectReturnCode
  packet_too_large quota_exceeded payload_format_invalid retain_not_supported : ConnectReturnCode
  qos_not_supported use_another_server server_moved connection_rate_exceeded : ConnectReturnCode

unfoldable pub connack_failure_atom : ConnectReturnCode → Reason
connack_failure_atom success = ("other", pos 0)
connack_failure_atom unspecified_error = ("unspecified_error", pos 0x80)
connack_failure_atom malformed_packet = ("malformed_packet", pos 0x81)
connack_failure_atom protocol_error = ("protocol_error", pos 0x82)
connack_failure_atom implementation_specific_error = ("implementation_specific_error", pos 0x83)
connack_failure_atom unsupported_protocol_version = ("unsupported_protocol_version", pos 0x84)
connack_failure_atom refused_protocol_version = ("unsupported_protocol_version", pos 0x84)
connack_failure_atom client_identifier_not_valid = ("client_identifier_not_valid", pos 0x85)
connack_failure_atom bad_client_id = ("client_identifier_not_valid", pos 0x85)
connack_failure_atom bad_user_name_password = ("bad_user_name_or_password", pos 0x86)
connack_failure_atom not_authorized = ("not_authorized", pos 0x87)
connack_failure_atom server_unavailable = ("server_unavailable", pos 0x88)
connack_failure_atom service_unavailable = ("server_unavailable", pos 0x88)
connack_failure_atom server_busy = ("server_busy", pos 0x89)
connack_failure_atom banned = ("banned", pos 0x8A)
connack_failure_atom bad_authentication_method = ("bad_authentication_method", pos 0x8C)
connack_failure_atom topic_name_invalid = ("topic_name_invalid", pos 0x90)
connack_failure_atom packet_too_large = ("packet_too_large", pos 0x95)
connack_failure_atom quota_exceeded = ("quota_exceeded", pos 0x97)
connack_failure_atom payload_format_invalid = ("payload_format_invalid", pos 0x99)
connack_failure_atom retain_not_supported = ("retain_not_supported", pos 0x9A)
connack_failure_atom qos_not_supported = ("qos_not_supported", pos 0x9B)
connack_failure_atom use_another_server = ("use_another_server", pos 0x9C)
connack_failure_atom server_moved = ("server_moved", pos 0x9D)
connack_failure_atom connection_rate_exceeded = ("connection_rate_exceeded", pos 0x9F)

pub data IoKind : Type 0 where
  connection_refused timed_out connection_reset connection_aborted broken_pipe : IoKind
  other_kind : IoKind

-- A `ConnectionError`, as far as the code tells them apart.
pub data ConnectionError : Type 0 where
  refused : ConnectReturnCode → ConnectionError
  io : IoKind → ConnectionError
  timeout not_conn_ack other_error : ConnectionError

io_reason : IoKind → String
io_reason connection_refused = "connection_refused"
io_reason timed_out = "timeout"
io_reason connection_reset = "connection_lost"
io_reason connection_aborted = "connection_lost"
io_reason broken_pipe = "connection_lost"
io_reason other_kind = "host_unreachable"

unfoldable pub classify_connect_error : ConnectionError → RunOutcome
unfolding io_reason connack_failure_atom mqtt_error network_error
classify_connect_error (refused code) =
    let (atom, byte) = connack_failure_atom code in mqtt_error atom byte
classify_connect_error (io kind) = network_error (io_reason kind)
classify_connect_error timeout = network_error "timeout"
classify_connect_error not_conn_ack = mqtt_error "protocol_error" (negsuc 0)
classify_connect_error other_error = network_error "other"

unfoldable pub is_transient_connect_error : RunOutcome → Bool
is_transient_connect_error (RunOutcome.error variant fields) = variant == "network"
is_transient_connect_error (RunOutcome.ok fields) = false
is_transient_connect_error (RunOutcome.not_implemented actor cmd) = false

-- The properties of a CONNACK.
pub record ConnAckProperties : Type 0 where
  pub assigned_client_identifier : Option String
  pub user_properties : List (String × String)

or_empty : Option String → String
or_empty none = ""
or_empty (some s) = s

ok_fields : Bool → String → Dict → Dict
unfolding insert
ok_fields session_present client_id props = insert "user_properties" (Value.dict props) (
    insert "assigned_client_id" (Value.string client_id)
      (insert "session_present" (Value.bool session_present) Dict.empty))

-- `connack_to_ok`, as a dictionary.
unfoldable pub connack_to_ok : Bool → Option ConnAckProperties → Dict
unfolding ok_fields or_empty user_properties_to_dict
connack_to_ok session_present none = ok_fields session_present "" Dict.empty
connack_to_ok session_present (some p) =
    ok_fields session_present (or_empty p.assigned_client_identifier)
      (user_properties_to_dict p.user_properties)
