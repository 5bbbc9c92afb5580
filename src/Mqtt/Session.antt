-- ===== src/Mqtt/Session.antt =====
-- A session of the `mqtt_client` actor: the event loop and how it is connected
-- (crates/ill-core/src/actor_type/mqtt_client/runtime.rs).
use i_ll.Prelude.{
  ℕ, ◌+◌, String, Bool, Option, none, some, List, [], ◌∷◌, length, nat_eq, if◌then◌else◌,
}
use i_ll.Prelude.Int.{negsuc}
use i_ll.Value.{Dict}
use i_ll.Runtime.{ConstructArgs, RunOutcome}
use i_ll.Retry.{Attempt, accepted, failed, Connector, connect_within}
use i_ll.Mqtt.Acks.{Answer, network_error, mqtt_error}
use i_ll.Mqtt.Config.{MqttOptions, ConnectConfig, build_connect_config}
use i_ll.Mqtt.Connect.{
  ConnectReturnCode, success, ConnectionError, connack_failure_atom, classify_connect_error,
  is_transient_connect_error, ConnAckProperties, connack_to_ok,
}
use i_ll.Mqtt.Receive.{Qos, PublishPacket, DisconnectPacket}
use i_ll.Mqtt.{WaiterQueue, Waiters, Event, LoopState, Turn, goes_on, blocked, ends}

-- A CONNACK.
pub record ConnAck : Type 0 where
  pub code : ConnectReturnCode
  pub session_present : Bool
  pub properties : Option ConnAckProperties

-- What `poll` gives before the connection is made.
pub data Poll : Type 0 where
  conn_ack : ConnAck → Poll
  other : Poll
  poll_error : ConnectionError → Poll

-- A request to the client.
pub data Request : Type 0 where
  subscribing : String → Qos → Option (List (String × String)) → Request
  publishing : String → Qos → List ℕ → Option (List (String × String)) → Request

abbrev pub Packets : Type 0
Packets = Event PublishPacket DisconnectPacket

-- The event loop of a connection: whether it goes on, with its inboxes and its waiters.
abbrev pub EventLoop : Type 0
EventLoop = Turn PublishPacket DisconnectPacket

-- The crates `tokio` and `rumqttc` with the broker and the clock. `handshake` is what `poll` gives,
-- one after another, to an attempt that has so much time; `send` is whether the request is accepted;
-- `while_waiting` is what `poll` gives the event loop while a command waits for its answer, and
-- `within` while it waits at an inbox, which is at most so many seconds.
pub record Broker : Type 1 where
  pub World : Type 0
  pub Client : Type 0
  pub now : World → ℕ
  pub sleep : ℕ → World → World
  pub handshake : MqttOptions → ℕ → World → List Poll × Client × World
  pub send : Client → Request → World → Bool × World
  pub disconnect : Client → World → World
  pub while_waiting : Client → World → List Packets × World
  pub within : Client → ℕ → World → List Packets × World
  pub lossy : List ℕ → String

-- The state of the event loop.
unfoldable pub loop_state : EventLoop → LoopState PublishPacket DisconnectPacket
loop_state (goes_on s) = s
loop_state (blocked p later s) = s
loop_state (ends s) = s

unfoldable pub with_state : LoopState PublishPacket DisconnectPacket → EventLoop → EventLoop
with_state s (goes_on t) = goes_on s
with_state s (blocked p later t) = blocked p later s
with_state s (ends t) = ends s

-- One of the three queues.
pub data Queue : Type 0 where
  sub qos1 qos2 : Queue

unfoldable pub queue : Queue → Waiters → WaiterQueue
queue sub ws = ws.sub
queue qos1 ws = ws.qos1
queue qos2 ws = ws.qos2

unfoldable pub set_queue : Queue → WaiterQueue → Waiters → Waiters
set_queue sub q ws = record ws { sub = q }
set_queue qos1 q ws = record ws { qos1 = q }
set_queue qos2 q ws = record ws { qos2 = q }

unfoldable pub on_queue : Queue → (WaiterQueue → WaiterQueue) → EventLoop → EventLoop
unfolding loop_state with_state queue set_queue
on_queue k f l =
    let s = loop_state l in
    with_state (record s { waiters = set_queue k (f (queue k s.waiters)) s.waiters }) l

-- `pop_waiter` when nothing is sent to the waiter.
unfoldable pub forget_first : WaiterQueue → WaiterQueue
forget_first q = elim q.pending [ [] ↦ q | w ∷ ws ↦ record q { pending = ws } ]

-- The name of the next waiter.
unfoldable pub fresh : WaiterQueue → ℕ
fresh q = length q.answered + length q.pending

unfoldable pub answer_of : ℕ → List (ℕ × Answer) → Option Answer
answer_of w [] = none
answer_of w ((v, a) ∷ rest) = if nat_eq v w then some a else answer_of w rest

-- `spawn_connected`: empty inboxes and no waiters.
abbrev pub no_waiters : WaiterQueue
no_waiters = record { answered = []; pending = [] }

abbrev pub new_loop : EventLoop
new_loop = goes_on (record {
  publish_inbox = [];
  disconnect_inbox = [];
  waiters = record { sub = no_waiters; qos1 = no_waiters; qos2 = no_waiters };
})

module _ (B : Broker) where
  pub record Connected : Type 0 where
    pub client : B.Client
    pub event_loop : EventLoop

  pub data MqttMode : Type 0 where
    disconnected : MqttMode
    connected : Connected → MqttMode

  -- `MqttClientInstance::construct`: the arguments are ignored.
  unfoldable pub construct : ConstructArgs → MqttMode
  construct args = disconnected

  abbrev pub Step : Type 0
  Step = MqttMode × RunOutcome × B.World

  unfoldable pub spawn_connected : B.Client → MqttMode
  spawn_connected client = connected (record { client = client; event_loop = new_loop })

  unfoldable pub refusal : ConnectReturnCode → RunOutcome
  unfolding connack_failure_atom mqtt_error
  refusal code = let (atom, byte) = connack_failure_atom code in mqtt_error atom byte

  -- A CONNACK ends the attempt.
  unfoldable pub acknowledged : B.Client → ConnAck → ConnectReturnCode → Attempt MqttMode
  unfolding spawn_connected refusal connack_to_ok
  acknowledged client ack success =
      accepted (spawn_connected client)
        (RunOutcome.ok (connack_to_ok ack.session_present ack.properties))
  acknowledged client ack code = failed (refusal code)

  -- `attempt_connect` under `tokio::time::timeout`.
  unfoldable pub attempt_connect : B.Client → List Poll → Attempt MqttMode
  unfolding acknowledged classify_connect_error
  attempt_connect client [] = Attempt.expired
  attempt_connect client (Poll.conn_ack ack ∷ ps) = acknowledged client ack ack.code
  attempt_connect client (Poll.other ∷ ps) = attempt_connect client ps
  attempt_connect client (Poll.poll_error e ∷ ps) = failed (classify_connect_error e)

  unfoldable pub attempted : List Poll × B.Client × B.World → Attempt MqttMode × B.World
  unfolding attempt_connect
  attempted (ps, client, w) = (attempt_connect client ps, w)

  -- The loop of `Disconnected::connect` tries this.
  unfoldable pub connector : ConnectConfig → Connector B.World MqttMode
  unfolding attempted is_transient_connect_error network_error
  connector cfg = record {
    now = B.now;
    sleep = B.sleep;
    attempt = λ d w. attempted (B.handshake cfg.options d w);
    start = disconnected;
    is_transient = is_transient_connect_error;
    timed_out = network_error "timeout";
  }

  unfoldable pub client_side : String → RunOutcome
  unfolding mqtt_error
  client_side reason = mqtt_error reason (negsuc 0)

  unfoldable pub connect_with : Option ConnectConfig → B.World → Option Step
  unfolding connector connect_within client_side
  connect_with none w = some (disconnected, client_side "other", w)
  connect_with (some cfg) w = connect_within (connector cfg) cfg.timeout w

  -- `Disconnected::connect`. `none` means that the fuel ran out.
  unfoldable pub connect : Dict → B.World → Option Step
  unfolding connect_with build_connect_config
  connect keyword w = connect_with (build_connect_config keyword) w

  -- `Connected::disconnect`: the connection is dropped.
  unfoldable pub disconnect : Connected → B.World → Step
  disconnect c w = (disconnected, RunOutcome.ok Dict.empty, B.disconnect c.client w)
