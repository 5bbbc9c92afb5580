-- ===== src/Mqtt/Instance.antt =====
-- The `mqtt_client` actor: the commands that receive, and the dispatch by mode
-- (crates/ill-core/src/actor_type/mqtt_client/runtime.rs).
pub mod Declared
pub mod Served
use i_ll.Prelude.{
  ℕ, suc, ◌+◌, String, Bool, true, false, not, Option, none, some, List, [], ◌∷◌, ◌++◌, any, length,
  nat_eq, Result, ok, err, if◌then◌else◌, ◌==◌,
}
use i_ll.Prelude.Int.{negsuc}
use i_ll.Prelude.Text.{is_empty}
use i_ll.Value.{Value, Dict}
use i_ll.Actor.Command.{Mode, mqtt_disconnected, mqtt_connected}
use i_ll.Runtime.{ConstructArgs, CommandArgs, kw, RunOutcome, TeardownOutcome, teardown_ok}
use i_ll.Squiggle.Utf8.{into_bytes}
use i_ll.Retry.{Attempt, expired, accepted, failed, Connector, connect_within}
use i_ll.Mqtt.Acks.{Answer, network_error, mqtt_error, timeout_error}
use i_ll.Mqtt.Config.{MqttOptions, ConnectConfig, build_connect_config}
use i_ll.Mqtt.Connect.{
  ConnectReturnCode, success, ConnectionError, connack_failure_atom, classify_connect_error,
  is_transient_connect_error, ConnAckProperties, connack_to_ok,
}
use i_ll.Mqtt.Receive.{
  Qos, at_most_once, at_least_once, exactly_once, dict_to_user_properties, receive_timeout,
  Received, PublishPacket, DisconnectPacket, publish_outcome, disconnect_outcome,
}
use i_ll.Mqtt.{
  WaiterQueue, push_waiter, Waiters, Event, LoopState, Turn, goes_on, blocked, ends, resume,
}
use i_ll.Mqtt.Session.{
  Request, subscribing, publishing, Packets, EventLoop, Broker, loop_state, with_state, Queue, sub,
  qos1, qos2, queue, set_queue, on_queue, forget_first, fresh, answer_of, Connected, MqttMode,
  disconnected, connected, Step, client_side, connect, disconnect, construct,
}
use i_ll.Mqtt.Requests.{with_loop, subscribe, publish}

module _ (B : Broker) where
  -- The first packet of an inbox; when it is empty, the inbox is closed if the event loop has ended.
  received : {A : Type 0} → EventLoop → List A → Received A
  received l (p ∷ ps) = Received.packet p
  received (ends s) [] = Received.closed
  received (goes_on s) [] = Received.timed_out
  received (blocked p later s) [] = Received.timed_out

  rest : {A : Type 0} → List A → List A
  rest [] = []
  rest (p ∷ ps) = ps

  is_none_left : {A : Type 0} → List A → Bool
  is_none_left [] = true
  is_none_left (p ∷ ps) = false

  -- The event loop when the command has waited at an inbox that is empty.
  waited : Connected B → CommandArgs → Bool → B.World → EventLoop × B.World
  unfolding resume receive_timeout
  waited c args false w = (c.event_loop, w)
  waited c args true w =
      let (es, w') = B.within c.client (receive_timeout args) w in (resume es c.event_loop, w')

  -- `Connected B::receive_publish`. The room that the command makes may end the wait of the event loop.
  unfoldable pub receive_publish : Connected B → CommandArgs → B.World → Step B
  unfolding waited received rest is_none_left with_loop with_state loop_state publish_outcome resume
  receive_publish c args w =
      let (l, w') = waited c args (is_none_left (loop_state c.event_loop).publish_inbox) w in
      let s = loop_state l in
      (
        connected (
            with_loop B
              (resume [] (with_state (record s { publish_inbox = rest s.publish_inbox }) l)) c),
        publish_outcome B.lossy (received l s.publish_inbox),
        w',
      )

  -- `Connected B::receive_disconnect`. The actor stays connected when the time is up.
  unfoldable pub receive_disconnect : Connected B → CommandArgs → B.World → Step B
  unfolding waited received is_none_left with_loop loop_state disconnect_outcome
  receive_disconnect c args w =
      let (l, w') = waited c args (is_none_left (loop_state c.event_loop).disconnect_inbox) w in
      let (stays, outcome) = disconnect_outcome (received l (loop_state l).disconnect_inbox) in
      (if stays then connected (with_loop B l c) else disconnected, outcome, w')

  not_implemented : MqttMode B → String → B.World → Option (Step B)
  not_implemented mode cmd w = some (mode, RunOutcome.not_implemented "mqtt_client" cmd, w)

  -- `ActorInstance::execute`: the mode is the instance. `none` is a command that waits for ever.
  unfoldable pub execute : MqttMode B → String → CommandArgs → B.World → Option (Step B)
  unfolding not_implemented connect disconnect subscribe publish receive_publish receive_disconnect
  execute disconnected cmd args w =
      if cmd == "connect" then connect B args.keyword w else not_implemented disconnected cmd w
  execute (connected c) cmd args w =
      if cmd == "disconnect"
      then some (disconnect B c w)
      else if cmd == "subscribe_0"
      then subscribe B c at_most_once args w
      else if cmd == "subscribe_1"
      then subscribe B c at_least_once args w
      else if cmd == "subscribe_2"
      then subscribe B c exactly_once args w
      else if cmd == "publish_0"
      then publish B c at_most_once args w
      else if cmd == "publish_1"
      then publish B c at_least_once args w
      else if cmd == "publish_2"
      then publish B c exactly_once args w
      else if cmd == "receive_publish"
      then some (receive_publish c args w)
      else if cmd == "receive_disconnect"
      then some (receive_disconnect c args w)
      else not_implemented (connected c) cmd w

  -- `ActorInstance::teardown`.
  unfoldable pub teardown : MqttMode B → B.World → TeardownOutcome × MqttMode B × B.World
  teardown disconnected w = (teardown_ok, disconnected, w)
  teardown (connected c) w = (teardown_ok, disconnected, B.disconnect c.client w)

  unfoldable pub mode_of : MqttMode B → Mode
  mode_of disconnected = mqtt_disconnected
  mode_of (connected c) = mqtt_connected
