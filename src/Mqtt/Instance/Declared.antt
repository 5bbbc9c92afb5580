-- ===== src/Mqtt/Instance/Declared.antt =====
-- Connecting against what the command declares
-- (crates/ill-core/src/actor_type/mqtt_client/runtime.rs and commands.rs).
use i_ll.Prelude.{
  ℕ, ◌+◌, ◌≤◌, String, Bool, true, false, Option, none, some, List, [], ◌∷◌, ◌≡◌, refl,
  if◌then◌else◌,
}
use i_ll.Prelude.Int.{ℤ}
use i_ll.Value.{get, len, is_of_type}
use i_ll.Value.Dicts.{insert}
use i_ll.Actor.Command.{mqtt_disconnected}
use i_ll.Actor.Mqtt.{mqtt_connect}
use i_ll.Runtime.{CommandArgs, RunOutcome}
use i_ll.Exec.Modes.{succeeded, target_or}
use i_ll.Exec.Outcomes.{conforms}
use i_ll.Retry.Ends.{Ended, Behaves, connect_within-returns}
use i_ll.Mqtt.Acks.{network_error, mqtt_error}
use i_ll.Mqtt.Config.{MqttOptions, ConnectConfig, build_connect_config}
use i_ll.Mqtt.Connect.{
  ConnectReturnCode, ConnectionError, refused, io, timeout, not_conn_ack, other_error,
  classify_connect_error, connack_to_ok, ConnAckProperties,
}
use i_ll.Mqtt.Session.{
  ConnAck, Poll, Broker, MqttMode, disconnected, Step, attempt_connect, acknowledged, refusal,
  spawn_connected, attempted, connector, connect_with, connect, client_side,
}
use i_ll.Mqtt.Instance.{execute, mode_of}

-- A declared failure of `connect`.
Fails : RunOutcome → Type 0
Fails o = (conforms mqtt_connect o ≡ true) × (succeeded o ≡ false)

network-Fails : (reason : String) → Fails (network_error reason)
unfolding Fails conforms mqtt_connect network_error get len is_of_type
network-Fails reason = (refl, refl)

mqtt-Fails : (reason : String) (code : ℤ) → Fails (mqtt_error reason code)
unfolding Fails conforms mqtt_connect mqtt_error insert get len is_of_type
mqtt-Fails reason code = (refl, refl)

classify-Fails : (e : ConnectionError) → Fails (classify_connect_error e)
unfolding classify_connect_error
classify-Fails (refused code) = mqtt-Fails _ _
classify-Fails (io kind) = network-Fails _
classify-Fails timeout = network-Fails _
classify-Fails not_conn_ack = mqtt-Fails _ _
classify-Fails other_error = network-Fails _

connack-conforms :
    (present : Bool) (o : Option ConnAckProperties)
    → conforms mqtt_connect (RunOutcome.ok (connack_to_ok present o)) ≡ true
unfolding conforms mqtt_connect connack_to_ok insert get len is_of_type
connack-conforms present none = refl
connack-conforms present (some p) = refl

module _ (B : Broker) where
  -- What the loop leaves.
  Left : MqttMode B → RunOutcome → Type 0
  Left mode o =
      (conforms mqtt_connect o ≡ true)
      × (mode_of B mode ≡ (
          if succeeded o
          then target_or mqtt_connect.transitions_to mqtt_disconnected
          else mqtt_disconnected))

  start-Left : (o : RunOutcome) → Fails o → Left disconnected o
  unfolding Fails Left mode_of
  start-Left o (fits, unsuccessful) = (fits, rw unsuccessful refl)

  acknowledged-Ended :
      (client : B.Client) (ack : ConnAck) (code : ConnectReturnCode)
      → Ended Fails Left (acknowledged B client ack code)
  unfolding acknowledged Ended refusal
  acknowledged-Ended client ack ConnectReturnCode.success =
      unfold Left mqtt_connect mode_of spawn_connected in
      (connack-conforms ack.session_present ack.properties, refl)
  acknowledged-Ended client ack code = mqtt-Fails _ _

  attempt-Ended :
      (client : B.Client) (ps : List Poll) → Ended Fails Left (attempt_connect B client ps)
  unfolding attempt_connect
  attempt-Ended client [] = unfold Ended in tt
  attempt-Ended client (Poll.conn_ack ack ∷ ps) = acknowledged-Ended client ack ack.code
  attempt-Ended client (Poll.other ∷ ps) = attempt-Ended client ps
  attempt-Ended client (Poll.poll_error e ∷ ps) = unfold Ended in classify-Fails e

  Returns : Option (Step B) → Type 0
  Returns r = (s : Step B) × (r ≡ some s) × Left s.0 s.1

  module _
      (forward : (o : MqttOptions) (d : ℕ) (w : B.World) → B.now w ≤ B.now (B.handshake o d w).2)
      (sleeps : (d : ℕ) (w : B.World) → B.now w + d ≤ B.now (B.sleep d w)) where
    connector-Behaves : (cfg : ConnectConfig) → Behaves (connector B cfg) Fails Left
    unfolding connector attempted
    connector-Behaves cfg = record {
      forward = λ d w. forward cfg.options d w;
      sleeps = sleeps;
      attempts =
          λ d w. attempt-Ended (B.handshake cfg.options d w).1 (B.handshake cfg.options d w).0;
      out_of_time = network-Fails "timeout";
      stays = λ o h. start-Left o h;
    }

    with-Returns : (cfg : Option ConnectConfig) (w : B.World) → Returns (connect_with B cfg w)
    unfolding connect_with Returns
    with-Returns none w = (_, refl, start-Left _ (unfold client_side in mqtt-Fails "other" _))
    with-Returns (some cfg) w =
        connect_within-returns (connector B cfg) Fails Left (connector-Behaves cfg) cfg.timeout w

    -- Connecting returns, if the clock never runs backwards during an attempt and a pause lasts at
    -- least as long as asked for: the loop ends within its budget. The outcome has the fields that
    -- the command declares for success or for the error, with the declared types, and the actor is
    -- connected afterwards exactly if the command succeeded.
    pub connect-returns :
        (args : CommandArgs) (w : B.World)
        → (s : Step B) × (execute B disconnected "connect" args w ≡ some s)
          × (conforms mqtt_connect s.1 ≡ true)
          × (mode_of B s.0 ≡ (
              if succeeded s.1
              then target_or mqtt_connect.transitions_to mqtt_disconnected
              else mqtt_disconnected))
    unfolding execute connect Returns Left
    connect-returns args w =
        let (s, done, left) = with-Returns (build_connect_config args.keyword) w in
        (s, done, left.0, left.1)
