-- ===== src/Tests/Broker.antt =====
-- Example runs of the event loop of the `mqtt_client` actor.
use i_ll.Prelude.{
  ℕ, ◌+◌, String, true, false, false≢true, none, some, List, [], ◌∷◌, any, inl, inr, ◌≡◌, refl,
  arith, if◌then◌else◌,
}
use i_ll.Value.{Value, Dict}
use i_ll.Actor.Command.{mqtt_disconnected}
use i_ll.Actor.Mqtt.{mqtt_connect, subscribe_cmd}
use i_ll.Runtime.{CommandArgs, RunOutcome}
use i_ll.Exec.Modes.{succeeded, target_or}
use i_ll.Exec.Outcomes.{conforms}
use i_ll.Mqtt.{
  WaiterQueue, Event, LoopState, run_event_loop, publish, sub_ack, pub_ack, pub_comp,
  connection_error,
}
use i_ll.Mqtt.Acks.{SubscribeReasonCode, PubAckReason}
use i_ll.Mqtt.Connect.{ConnectReturnCode}
use i_ll.Mqtt.Waiting.{orders, final, left_waiting, run_event_loop-orders}
use i_ll.Mqtt.Session.{
  Poll, Broker, Queue, queue, loop_state, new_loop, Connected, connected, disconnected, Step,
}
use i_ll.Mqtt.Requests.Answered.{settles}
use i_ll.Mqtt.Requests.Answered.Room.{messages_before}
use i_ll.Mqtt.Session.{loop_state}
use i_ll.Mqtt.{inbox_cap}
use i_ll.Prelude.{◌≤◌}
use i_ll.Mqtt.Requests.Quiet.{is_numbered}
use i_ll.Mqtt.Requests.Settled.{AllQuiet}
use i_ll.Mqtt.Requests.Returns.{IsServed}
use i_ll.Mqtt.Instance.{execute, mode_of}
use i_ll.Mqtt.Instance.Declared.{connect-returns}
use i_ll.Mqtt.Instance.Served.{IsAcknowledged, execute-answers}

abbrev two_waiting : WaiterQueue
two_waiting = record { answered = []; pending = 1 ∷ 2 ∷ [] }

abbrev none_waiting : WaiterQueue
none_waiting = record { answered = []; pending = [] }

abbrev start : LoopState String ℕ
start = record {
  publish_inbox = [];
  disconnect_inbox = [];
  waiters = record { sub = two_waiting; qos1 = two_waiting; qos2 = none_waiting };
}

-- A message, an acknowledgement of a subscription, and the loss of the connection.
abbrev events : List (Event String ℕ)
events = publish "hello" ∷ sub_ack (SubscribeReasonCode.success ∷ []) ∷ connection_error ∷ []

run_event_loop-orders_example :
    (orders (final (run_event_loop events start)) ≡ orders start.waiters)
    × (left_waiting (run_event_loop events start) ≡ [])
run_event_loop-orders_example = run_event_loop-orders events start

-- A broker that accepts and acknowledges everything; its world is the clock.
abbrev willing : Broker
willing = record {
  World = ℕ;
  Client = String;
  now = λ w. w;
  sleep = λ d w. w + d;
  handshake = λ o d w. (
    Poll.other
        ∷ Poll.conn_ack (record {
          code = ConnectReturnCode.success;
          session_present = false;
          properties = none;
        })
        ∷ [],
    "client",
    w,
  );
  send = λ c r w. (true, w);
  disconnect = λ c w. w;
  while_waiting = λ c w. (
    sub_ack (SubscribeReasonCode.success ∷ []) ∷ pub_ack PubAckReason.success ∷ pub_comp ∷ [],
    w,
  );
  within = λ c d w. ([], w);
  lossy = λ b. "";
}

abbrev session : Connected willing
session = record { client = "client"; event_loop = new_loop }

acks-settle :
    (k : Queue)
    → any
        (settles k)
        (sub_ack (SubscribeReasonCode.success ∷ []) ∷ pub_ack PubAckReason.success ∷ pub_comp ∷ [])
      ≡ true
unfolding settles
acks-settle Queue.sub = refl
acks-settle Queue.qos1 = refl
acks-settle Queue.qos2 = refl

room_for_acks :
    (k : Queue)
    → 0
        + messages_before k (
            sub_ack (SubscribeReasonCode.success ∷ [])
            ∷ pub_ack PubAckReason.success
            ∷ pub_comp
            ∷ [])
      ≤ inbox_cap
unfolding messages_before settles
room_for_acks Queue.sub = omega arith
room_for_acks Queue.qos1 = omega arith
room_for_acks Queue.qos2 = omega arith

new-AllQuiet : AllQuiet new_loop
unfolding AllQuiet queue loop_state is_numbered
new-AllQuiet Queue.sub = record { idle = refl; numbered = refl }
new-AllQuiet Queue.qos1 = record { idle = refl; numbered = refl }
new-AllQuiet Queue.qos2 = record { idle = refl; numbered = refl }

session-IsServed : IsServed willing session
unfolding loop_state messages_before
session-IsServed = record {
  quiet = new-AllQuiet;
  refuses = λ r w h. absurd (false≢true h);
  answers = λ r k w h. acks-settle k;
  is_free = refl;
  room = λ r k w h. room_for_acks k;
}

abbrev on_topic : CommandArgs
on_topic = record { positional = Value.string "t" ∷ []; keyword = Dict.empty }

execute-answers_example :
    (c : Connected willing) × (o : RunOutcome) × (w : ℕ) × (execute willing
        (connected session)
        (subscribe_cmd "subscribe_1").name
        on_topic
        0
      ≡ some (connected c, o, w))
    × (conforms (subscribe_cmd "subscribe_1") o ≡ true)
    × AllQuiet c.event_loop
execute-answers_example =
    execute-answers willing session (subscribe_cmd "subscribe_1") on_topic 0 session-IsServed
      (unfold IsAcknowledged in inl (inr (inl refl)))

connect-returns_example :
    (s : Step willing) × (execute willing disconnected "connect" on_topic 0 ≡ some s)
    × (conforms mqtt_connect s.1 ≡ true)
    × (mode_of willing s.0 ≡ (
        if succeeded s.1
        then target_or mqtt_connect.transitions_to mqtt_disconnected
        else mqtt_disconnected))
connect-returns_example =
    connect-returns willing (λ o d w. omega arith) (λ d w. omega arith) on_topic 0
