-- ===== src/Mqtt/Acks.antt =====
-- The acknowledgements of the broker and what the `mqtt_client` actor makes of them
-- (crates/ill-core/src/actor_type/mqtt_client/runtime.rs).
use i_ll.Prelude.{String, Option, none, some, List, [], ◌∷◌, Result, ok, err}
use i_ll.Prelude.Int.{ℤ, pos}
use i_ll.Value.{Value, Dict}
use i_ll.Value.Dicts.{insert}
use i_ll.Runtime.{RunOutcome}

unfoldable pub network_error : String → RunOutcome
unfolding insert
network_error reason = RunOutcome.error "network" (insert "reason" (Value.atom reason) Dict.empty)

unfoldable pub mqtt_error : String → ℤ → RunOutcome
unfolding insert
mqtt_error reason reason_code = RunOutcome.error "mqtt" (
    insert "reason_code" (Value.number reason_code)
      (insert "reason" (Value.atom reason) Dict.empty))

unfoldable pub timeout_error : RunOutcome
timeout_error = RunOutcome.error "timeout" Dict.empty

-- A reason atom with the byte of the protocol.
abbrev pub Reason : Type 0
Reason = String × ℤ

pub data SubscribeReasonCode : Type 0 where
  success failure unspecified implementation_specific not_authorized : SubscribeReasonCode
  topic_filter_invalid pkid_in_use quota_exceeded : SubscribeReasonCode
  shared_subscriptions_not_supported subscription_id_not_supported : SubscribeReasonCode
  wildcard_subscriptions_not_supported : SubscribeReasonCode

unfoldable pub suback_failure_atom : SubscribeReasonCode → Option Reason
suback_failure_atom SubscribeReasonCode.success = none
suback_failure_atom SubscribeReasonCode.failure = some ("unspecified_error", pos 0x80)
suback_failure_atom SubscribeReasonCode.unspecified = some ("unspecified_error", pos 0x80)
suback_failure_atom SubscribeReasonCode.implementation_specific =
    some ("implementation_specific_error", pos 0x83)
suback_failure_atom SubscribeReasonCode.not_authorized = some ("not_authorized", pos 0x87)
suback_failure_atom SubscribeReasonCode.topic_filter_invalid =
    some ("topic_filter_invalid", pos 0x8F)
suback_failure_atom SubscribeReasonCode.pkid_in_use = some ("packet_identifier_in_use", pos 0x91)
suback_failure_atom SubscribeReasonCode.quota_exceeded = some ("quota_exceeded", pos 0x97)
suback_failure_atom SubscribeReasonCode.shared_subscriptions_not_supported =
    some ("shared_subscriptions_not_supported", pos 0x9E)
suback_failure_atom SubscribeReasonCode.subscription_id_not_supported =
    some ("subscription_identifiers_not_supported", pos 0xA1)
suback_failure_atom SubscribeReasonCode.wildcard_subscriptions_not_supported =
    some ("wildcard_subscriptions_not_supported", pos 0xA2)

pub data PubAckReason : Type 0 where
  success no_matching_subscribers unspecified_error : PubAckReason
  implementation_specific_error not_authorized topic_name_invalid : PubAckReason
  packet_identifier_in_use quota_exceeded payload_format_invalid : PubAckReason

unfoldable pub puback_failure_atom : PubAckReason → Option Reason
puback_failure_atom PubAckReason.success = none
puback_failure_atom PubAckReason.no_matching_subscribers = none
puback_failure_atom PubAckReason.unspecified_error = some ("unspecified_error", pos 0x80)
puback_failure_atom PubAckReason.implementation_specific_error =
    some ("implementation_specific_error", pos 0x83)
puback_failure_atom PubAckReason.not_authorized = some ("not_authorized", pos 0x87)
puback_failure_atom PubAckReason.topic_name_invalid = some ("topic_name_invalid", pos 0x90)
puback_failure_atom PubAckReason.packet_identifier_in_use =
    some ("packet_identifier_in_use", pos 0x91)
puback_failure_atom PubAckReason.quota_exceeded = some ("quota_exceeded", pos 0x97)
puback_failure_atom PubAckReason.payload_format_invalid = some ("payload_format_invalid", pos 0x99)

-- What a waiter is told: the broker accepted, or the error to surface.
abbrev pub Answer : Type 0
Answer = Result RunOutcome Unit

unfoldable pub refused_or : Option Reason → Answer → Answer
unfolding mqtt_error
refused_or none next = next
refused_or (some (reason, code)) next = err (mqtt_error reason code)

-- The first code that is none of success is the error.
unfoldable pub suback_outcome : List SubscribeReasonCode → Answer
unfolding refused_or suback_failure_atom
suback_outcome [] = ok tt
suback_outcome (code ∷ codes) = refused_or (suback_failure_atom code) (suback_outcome codes)

unfoldable pub puback_outcome : PubAckReason → Answer
unfolding refused_or puback_failure_atom
puback_outcome reason = refused_or (puback_failure_atom reason) (ok tt)

unfoldable pub pubcomp_outcome : Answer
pubcomp_outcome = ok tt
