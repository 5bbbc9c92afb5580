-- ===== src/Mqtt/Receive.antt =====
-- The commands that receive, and user properties
-- (crates/ill-core/src/actor_type/mqtt_client/runtime.rs).
use mathlib.Core.Option.{map}
use i_ll.Prelude.{ℕ, suc, String, Bool, true, false, Option, none, some, List, [], ◌∷◌, ◌≡◌, refl}
use i_ll.Prelude.Int.{ℤ, pos}
use i_ll.Value.{Value, Dict}
use i_ll.Value.Dicts.{insert}
use i_ll.Actor.Mqtt.{receive_publish, receive_disconnect}
use i_ll.Runtime.{CommandArgs, kw, RunOutcome}
use i_ll.Exec.Outcomes.{conforms}
use i_ll.Mqtt.Acks.{network_error, timeout_error}

pub data Qos : Type 0 where
  at_most_once at_least_once exactly_once : Qos

unfoldable pub qos_to_byte : Qos → ℤ
qos_to_byte at_most_once = pos 0
qos_to_byte at_least_once = pos 1
qos_to_byte exactly_once = pos 2

properties_from : List (String × String) → Dict → Dict
unfolding insert
properties_from [] d = d
properties_from ((k, v) ∷ props) d = properties_from props (insert k (Value.string v) d)

unfoldable pub user_properties_to_dict : List (String × String) → Dict
unfolding properties_from
user_properties_to_dict props = properties_from props Dict.empty

with_property : String → Value → Option (List (String × String)) → Option (List (String × String))
with_property k (Value.string s) (some rest) = some ((k, s) ∷ rest)
with_property k v rest = none

text_properties : Dict → Option (List (String × String))
unfolding with_property
text_properties Dict.empty = some []
text_properties (Dict.entry k v d) = with_property k v (text_properties d)

-- `none` is `Err(())`.
unfoldable pub dict_to_user_properties : Option Value → Option (Option (List (String × String)))
unfolding text_properties
dict_to_user_properties none = some none
dict_to_user_properties (some (Value.dict d)) = map some (text_properties d)
dict_to_user_properties (some v) = none

-- The seconds that `receive` waits.
unfoldable pub receive_timeout : CommandArgs → ℕ
unfolding kw
receive_timeout args = elim (kw args "timeout") [
  | some (Value.number (pos (suc n))) ↦ suc n
  | _ ↦ 5
]

-- What waiting at an inbox gives: the time is up, the inbox is closed and empty, or a packet.
pub data Received (A : Type 0) : Type 0 where
  timed_out : Received A
  closed : Received A
  packet : A → Received A

pub record PublishPacket : Type 0 where
  pub topic : List ℕ
  pub payload : List ℕ
  pub qos : Qos
  pub user_properties : Option (List (String × String))

pub record DisconnectPacket : Type 0 where
  pub reason_code : ℕ
  pub user_properties : Option (List (String × String))

properties_of : Option (List (String × String)) → Dict
unfolding user_properties_to_dict
properties_of none = Dict.empty
properties_of (some props) = user_properties_to_dict props

-- `Connected::receive_publish`. `lossy` is `String::from_utf8_lossy`.
unfoldable pub publish_outcome : (List ℕ → String) → Received PublishPacket → RunOutcome
unfolding properties_of qos_to_byte insert
publish_outcome lossy timed_out = timeout_error
publish_outcome lossy closed = network_error "connection_lost"
publish_outcome lossy (packet p) = RunOutcome.ok (
    insert "user_properties" (Value.dict (properties_of p.user_properties)) (
      insert "qos" (Value.number (qos_to_byte p.qos)) (
        insert "payload" (Value.bytes p.payload)
          (insert "topic" (Value.string (lossy p.topic)) Dict.empty))))

-- `Connected::receive_disconnect`: whether the actor stays connected, and the outcome.
unfoldable pub disconnect_outcome : Received DisconnectPacket → Bool × RunOutcome
unfolding properties_of insert
disconnect_outcome timed_out = (true, timeout_error)
disconnect_outcome closed = (false, network_error "connection_lost")
disconnect_outcome (packet d) = (
  false,
  RunOutcome.ok (
      insert "user_properties" (Value.dict (properties_of d.user_properties))
        (insert "reason_code" (Value.number (pos d.reason_code)) Dict.empty)),
)

-- The outcome of a closed inbox is none that `receive_publish` and `receive_disconnect` declare.
undeclared :
    (conforms receive_publish (publish_outcome (λ b. "") closed) ≡ false)
    × (conforms receive_disconnect (disconnect_outcome closed).1 ≡ false)
unfolding conforms receive_publish receive_disconnect publish_outcome disconnect_outcome
    network_error
undeclared = (refl, refl)
