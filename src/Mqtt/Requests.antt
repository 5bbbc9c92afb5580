-- ===== src/Mqtt/Requests.antt =====
-- The commands of the `mqtt_client` actor that ask something of the broker
-- (crates/ill-core/src/actor_type/mqtt_client/runtime.rs).
pub mod Quiet
pub mod Answered
pub mod Settled
pub mod Returns
use i_ll.Prelude.{
  ℕ, String, Bool, true, false, Option, none, some, List, [], ◌∷◌, any, nat_eq, ok, err,
  if◌then◌else◌,
}
use i_ll.Prelude.Text.{is_empty}
use i_ll.Value.{Value, Dict}
use i_ll.Runtime.{CommandArgs, kw, RunOutcome}
use i_ll.Squiggle.Utf8.{into_bytes}
use i_ll.Mqtt.Acks.{Answer, network_error}
use i_ll.Mqtt.Receive.{Qos, at_most_once, at_least_once, exactly_once, dict_to_user_properties}
use i_ll.Mqtt.{push_waiter, resume}
use i_ll.Mqtt.Session.{
  Request, subscribing, publishing, EventLoop, Broker, loop_state, Queue, sub, qos1, qos2, queue,
  on_queue, forget_first, fresh, answer_of, Connected, connected, Step, client_side,
}

module _ (B : Broker) where
  unfoldable pub with_loop : EventLoop → Connected B → Connected B
  with_loop l c = record c { event_loop = l }

  unfoldable pub as_outcome : Answer → RunOutcome
  as_outcome (ok u) = RunOutcome.ok Dict.empty
  as_outcome (err o) = o

  -- What a waiter that is awaited gives. Its sender is gone if it is neither answered nor pending;
  -- while it is pending the command waits on, which is `none`.
  unfoldable pub awaited : Queue → ℕ → EventLoop → Option RunOutcome
  unfolding loop_state queue answer_of as_outcome network_error
  awaited k name l =
      let q = queue k (loop_state l).waiters in
      elim (answer_of name q.answered) [
        | some a ↦ some (as_outcome a)
        | none ↦
            if any (nat_eq name) q.pending then none else some (network_error "connection_lost")
      ]

  unfoldable pub finished : Connected B → B.World → Option RunOutcome → Option (Step B)
  finished c w none = none
  finished c w (some o) = some (connected c, o, w)

  -- The request was accepted or not.
  unfoldable pub after_send : Connected B → Queue → ℕ → Bool × B.World → Option (Step B)
  unfolding on_queue forget_first with_loop network_error resume awaited finished
  after_send c k name (false, w) = some (
    connected (with_loop (on_queue k forget_first c.event_loop) c),
    network_error "connection_lost",
    w,
  )
  after_send c k name (true, w) =
      let (es, w') = B.while_waiting c.client w in
      let l = resume es c.event_loop in finished (with_loop l c) w' (awaited k name l)

  -- A waiter is registered before the request is sent, and then awaited.
  unfoldable pub round_trip : Connected B → Queue → Request → B.World → Option (Step B)
  unfolding fresh on_queue push_waiter with_loop after_send queue loop_state
  round_trip c k request w =
      let name = fresh (queue k (loop_state c.event_loop).waiters) in
      after_send (with_loop (on_queue k (push_waiter name) c.event_loop) c) k name
        (B.send c.client request w)

  unfoldable pub refused : Connected B → String → B.World → Option (Step B)
  unfolding client_side
  refused c reason w = some (connected c, client_side B reason, w)

  subscribe_to :
      Connected B
      → Qos
      → String
      → Option (Option (List (String × String)))
      → B.World
      → Option (Step B)
  unfolding refused round_trip
  subscribe_to c qos topic none w = refused c "other" w
  subscribe_to c qos topic (some props) w = round_trip c sub (subscribing topic qos props) w

  subscribe_args : Connected B → Qos → CommandArgs → List Value → B.World → Option (Step B)
  unfolding refused subscribe_to dict_to_user_properties kw
  subscribe_args c qos args (Value.string topic ∷ vs) w =
      subscribe_to c qos topic (dict_to_user_properties (kw args "user_properties")) w
  subscribe_args c qos args vs w = refused c "topic_filter_invalid" w

  -- `Connected B::subscribe`.
  unfoldable pub subscribe : Connected B → Qos → CommandArgs → B.World → Option (Step B)
  unfolding subscribe_args
  subscribe c qos args w = subscribe_args c qos args args.positional w

  -- Without an acknowledgement the command ends when the request is accepted or not.
  sent : Connected B → Bool × B.World → Option (Step B)
  unfolding network_error
  sent c (true, w) = some (connected c, RunOutcome.ok Dict.empty, w)
  sent c (false, w) = some (connected c, network_error "connection_lost", w)

  publish_as : Connected B → Qos → Request → B.World → Option (Step B)
  unfolding sent round_trip
  publish_as c at_most_once request w = sent c (B.send c.client request w)
  publish_as c at_least_once request w = round_trip c qos1 request w
  publish_as c exactly_once request w = round_trip c qos2 request w

  publish_with :
      Connected B
      → Qos
      → String
      → List ℕ
      → Option (Option (List (String × String)))
      → B.World
      → Option (Step B)
  unfolding refused publish_as
  publish_with c qos topic payload none w = refused c "other" w
  publish_with c qos topic payload (some props) w =
      publish_as c qos (publishing topic qos payload props) w

  payload_of : Option Value → Option (List ℕ)
  unfolding into_bytes
  payload_of (some (Value.bytes b)) = some b
  payload_of (some (Value.string s)) = some (into_bytes s)
  payload_of v = none

  publish_payload :
      Connected B → Qos → String → CommandArgs → Option (List ℕ) → B.World → Option (Step B)
  unfolding refused publish_with dict_to_user_properties kw
  publish_payload c qos topic args none w = refused c "payload_format_invalid" w
  publish_payload c qos topic args (some payload) w =
      publish_with c qos topic payload (dict_to_user_properties (kw args "user_properties")) w

  second : List Value → Option Value
  second (v ∷ vs) = some v
  second [] = none

  publish_args : Connected B → Qos → CommandArgs → List Value → B.World → Option (Step B)
  unfolding refused publish_payload payload_of second
  publish_args c qos args (Value.string topic ∷ vs) w =
      if is_empty topic
      then refused c "invalid_topic" w
      else publish_payload c qos topic args (payload_of (second vs)) w
  publish_args c qos args vs w = refused c "topic_name_invalid" w

  -- `Connected B::publish`.
  unfoldable pub publish : Connected B → Qos → CommandArgs → B.World → Option (Step B)
  unfolding publish_args
  publish c qos args w = publish_args c qos args args.positional w
