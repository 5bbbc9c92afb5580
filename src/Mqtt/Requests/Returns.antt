-- ===== src/Mqtt/Requests/Returns.antt =====
-- The commands of the `mqtt_client` actor that wait for the broker return
-- (crates/ill-core/src/actor_type/mqtt_client/runtime.rs, `subscribe` and `publish`).
use mathlib.Core.Path.{subst}
use i_ll.Prelude.{
  ℕ, ◌+◌, ◌≤◌, ◌∙◌, length, String, Bool, true, false, Option, none, some, List, ◌∷◌, any, ok, err,
  ◌≡◌, refl, sym, ap, if◌then◌else◌,
}
use i_ll.Prelude.Text.{is_empty}
use i_ll.Value.{Value, len}
use i_ll.Actor.Mqtt.{subscribe_cmd}
use i_ll.Runtime.{CommandArgs, RunOutcome}
use i_ll.Exec.Outcomes.{conforms}
use i_ll.Mqtt.Acks.{Answer}
use i_ll.Mqtt.Receive.{
  Qos, at_most_once, at_least_once, exactly_once, PublishPacket, DisconnectPacket,
}
use i_ll.Mqtt.{push_waiter, LoopState, goes_on, blocked, inbox_cap, ends, resume}
use i_ll.Mqtt.Session.{
  Request, subscribing, publishing, EventLoop, Broker, loop_state, with_state, Queue, sub, qos1,
  qos2, queue, on_queue, forget_first, fresh, Connected, connected, Step, client_side,
}
use i_ll.Mqtt.Requests.{
  with_loop, as_outcome, awaited, finished, after_send, round_trip, refused, subscribe_to,
  subscribe_args, subscribe, publish_as, publish_with, publish_payload, publish_args, publish,
  payload_of, second,
}
use i_ll.Mqtt.Requests.Quiet.{IsQuiet}
use i_ll.Mqtt.Requests.Settled.{
  AllQuiet, set-queue, push-Waits, undone-AllQuiet, answered-AllQuiet, Registered, push-Registered,
}
use i_ll.Mqtt.Requests.Answered.{
  IsDeclared, network-IsDeclared, mqtt-IsDeclared, Good, Waits, settles, TurnHas,
}
use i_ll.Mqtt.Requests.Answered.Room.{messages_before, loop-answers}

-- The queue in which the answer to a request is awaited.
unfoldable pub waits_on : Request → Option Queue
waits_on (subscribing topic qos props) = some sub
waits_on (publishing topic at_most_once payload props) = none
waits_on (publishing topic at_least_once payload props) = some qos1
waits_on (publishing topic exactly_once payload props) = some qos2

abbrev pub has_ended : EventLoop → Bool
has_ended (goes_on s) = false
has_ended (blocked p later s) = false
has_ended (ends s) = true

abbrev pub is_blocked : EventLoop → Bool
is_blocked (goes_on s) = false
is_blocked (blocked p later s) = true
is_blocked (ends s) = false

-- What the commands rely on: no other command waits; the event loop does not wait for room in the
-- inbox, and there is room for what comes before the acknowledgement; the client refuses a request
-- when the event loop has ended; and for an accepted request the broker sends the packet that
-- acknowledges it in the end, SUBACK, PUBACK or PUBCOMP, or the connection ends.
pub record IsServed (B : Broker) (c : Connected B) : Type 0 where
  pub quiet : AllQuiet c.event_loop
  pub refuses :
      (r : Request) (w : B.World) → has_ended c.event_loop ≡ true → (B.send c.client r w).0 ≡ false
  pub answers :
      (r : Request) (k : Queue) (w : B.World)
      → waits_on r ≡ some k
      → any (settles k) (B.while_waiting c.client (B.send c.client r w).1).0 ≡ true
  pub is_free : is_blocked c.event_loop ≡ false
  pub room :
      (r : Request) (k : Queue) (w : B.World)
      → waits_on r ≡ some k
      → length (loop_state c.event_loop).publish_inbox
          + messages_before k (B.while_waiting c.client (B.send c.client r w).1).0
        ≤ inbox_cap

abbrev pub is_acknowledged : Qos → Bool
is_acknowledged at_most_once = false
is_acknowledged at_least_once = true
is_acknowledged exactly_once = true

module _ (B : Broker) where
  -- The command returns what it declares, and the actor stays connected.
  unfoldable pub Returns : Option (Step B) → Type 0
  Returns r =
      (c : Connected B) × (o : RunOutcome) × (w : B.World) × (r ≡ some (connected c, o, w))
      × IsDeclared o
      × AllQuiet c.event_loop

  outcome-IsDeclared : (a : Answer) → Good a → IsDeclared (as_outcome B a)
  unfolding Good as_outcome
  outcome-IsDeclared (ok u) h = unfold IsDeclared conforms subscribe_cmd len in refl
  outcome-IsDeclared (err o) h = h

  refused-Returns :
      (c : Connected B) (reason : String) (w : B.World)
      → IsServed B c
      → Returns (refused B c reason w)
  unfolding refused Returns client_side
  refused-Returns c reason w served = (c, _, w, refl, mqtt-IsDeclared reason _, served.quiet)

  awaited-Returns :
      (c : Connected B) (k : Queue) (n : ℕ) (l : EventLoop) (w : B.World)
      → TurnHas n k l
      → AllQuiet c.event_loop
      → Returns (finished B c w (awaited B k n l))
  unfolding awaited finished TurnHas Returns
  awaited-Returns c k n l w h quiet = (
    c,
    as_outcome B h.answer,
    w,
    rw (finished, awaited, h.found) refl,
    outcome-IsDeclared h.answer h.good,
    quiet,
  )

  sent-Returns :
      (c : Connected B) (k : Queue) (n : ℕ) (s : LoopState PublishPacket DisconnectPacket)
      (t : Bool × B.World)
      → Waits n (queue k s.waiters)
      → Registered k s
      → AllQuiet (on_queue k forget_first (goes_on s))
      → any (settles k) (B.while_waiting c.client t.1).0 ≡ true
      → length s.publish_inbox + messages_before k (B.while_waiting c.client t.1).0 ≤ inbox_cap
      → Returns (after_send B (with_loop B (goes_on s) c) k n t)
  unfolding after_send resume with_loop
  sent-Returns c k n s (false, w) waits r undone h room =
      unfold Returns in (_, _, w, refl, network-IsDeclared "connection_lost", undone)
  sent-Returns c k n s (true, w) waits r undone h room =
      let es = (B.while_waiting c.client w).0 in
      let has = loop-answers n k es s waits h room in
      awaited-Returns _ k n _ _ has (answered-AllQuiet n k es s r has)

  closed-Returns :
      (c : Connected B) (k : Queue) (n : ℕ) (t : Bool × B.World)
      → t.0 ≡ false
      → AllQuiet (on_queue k forget_first c.event_loop)
      → Returns (after_send B c k n t)
  unfolding after_send Returns
  closed-Returns c k n (false, w) h undone =
      unfold with_loop in (_, _, w, refl, network-IsDeclared "connection_lost", undone)
  closed-Returns c k n (true, w) h undone = absurd (cc h)

  IsQuiet-at : (k : Queue) (l : EventLoop) → AllQuiet l → IsQuiet (queue k (loop_state l).waiters)
  unfolding AllQuiet
  IsQuiet-at k l h = h k

  loop-Returns :
      (c : Connected B) (l : EventLoop) (k : Queue) (r : Request) (w : B.World)
      → c.event_loop ≡ l
      → IsServed B c
      → waits_on r ≡ some k
      → Returns (
          after_send B
            (with_loop B (on_queue k (push_waiter (fresh (queue k (loop_state l).waiters))) l) c)
            k
            (fresh (queue k (loop_state l).waiters))
            (B.send c.client r w))
  unfolding on_queue with_state loop_state with_loop
  loop-Returns c (goes_on s) k r w e served waits =
      let quiet = subst AllQuiet e served.quiet in
      sent-Returns c k _ _ (B.send c.client r w)
        (subst (Waits _) (sym (set-queue k _ s.waiters))
          (push-Waits (queue k s.waiters) (IsQuiet-at k (goes_on s) quiet)))
        (push-Registered k s quiet) (undone-AllQuiet k _ (goes_on s) quiet)
        (served.answers r k w waits)
        (subst
          (λ (l : EventLoop).
            length (loop_state l).publish_inbox
              + messages_before k (B.while_waiting c.client (B.send c.client r w).1).0
            ≤ inbox_cap)
          e (served.room r k w waits))
  loop-Returns c (blocked p later s) k r w e served waits =
      let b = ap is_blocked (sym e) ∙ served.is_free in absurd (cc b)
  loop-Returns c (ends s) k r w e served waits =
      closed-Returns _ k _ _ (served.refuses r w (ap has_ended e))
        (undone-AllQuiet k _ (ends s) (subst AllQuiet e served.quiet))

  trip-Returns :
      (c : Connected B) (k : Queue) (r : Request) (w : B.World)
      → IsServed B c
      → waits_on r ≡ some k
      → Returns (round_trip B c k r w)
  unfolding round_trip
  trip-Returns c k r w served waits = loop-Returns c c.event_loop k r w refl served waits

  module _ (c : Connected B) (served : IsServed B c) where
    to-Returns :
        (qos : Qos) (topic : String) (props : Option (Option (List (String × String))))
        (w : B.World)
        → Returns (subscribe_to B c qos topic props w)
    unfolding subscribe_to waits_on
    to-Returns qos topic none w = refused-Returns c "other" w served
    to-Returns qos topic (some props) w = trip-Returns c sub _ w served refl

    subscribe_args-Returns :
        (qos : Qos) (args : CommandArgs) (vs : List Value) (w : B.World)
        → Returns (subscribe_args B c qos args vs w)
    unfolding subscribe_args
    subscribe_args-Returns qos args (Value.string topic ∷ vs) w = to-Returns qos topic _ w
    subscribe_args-Returns qos args vs w = refused-Returns c "topic_filter_invalid" w served

    pub subscribe-Returns :
        (qos : Qos) (args : CommandArgs) (w : B.World) → Returns (subscribe B c qos args w)
    unfolding subscribe
    subscribe-Returns qos args w = subscribe_args-Returns qos args args.positional w

    as-Returns :
        (qos : Qos) (topic : String) (payload : List ℕ) (props : Option (List (String × String)))
        (w : B.World)
        → is_acknowledged qos ≡ true
        → Returns (publish_as B c qos (publishing topic qos payload props) w)
    unfolding publish_as waits_on
    as-Returns at_most_once topic payload props w h = absurd (cc h)
    as-Returns at_least_once topic payload props w h = trip-Returns c qos1 _ w served refl
    as-Returns exactly_once topic payload props w h = trip-Returns c qos2 _ w served refl

    publish_with-Returns :
        (qos : Qos) (topic : String) (payload : List ℕ)
        (props : Option (Option (List (String × String)))) (w : B.World)
        → is_acknowledged qos ≡ true
        → Returns (publish_with B c qos topic payload props w)
    unfolding publish_with
    publish_with-Returns qos topic payload none w h = refused-Returns c "other" w served
    publish_with-Returns qos topic payload (some props) w h = as-Returns qos topic payload props w h

    payload-Returns :
        (qos : Qos) (topic : String) (args : CommandArgs) (o : Option (List ℕ)) (w : B.World)
        → is_acknowledged qos ≡ true
        → Returns (publish_payload B c qos topic args o w)
    unfolding publish_payload
    payload-Returns qos topic args none w h = refused-Returns c "payload_format_invalid" w served
    payload-Returns qos topic args (some payload) w h = publish_with-Returns qos topic payload _ w h

    publish_args-Returns :
        (qos : Qos) (args : CommandArgs) (vs : List Value) (w : B.World)
        → is_acknowledged qos ≡ true
        → Returns (publish_args B c qos args vs w)
    unfolding publish_args
    publish_args-Returns qos args (Value.string topic ∷ vs) w h =
        elim (is_empty topic)
          as (λ b. Returns (
            if b
            then refused B c "invalid_topic" w
            else publish_payload B c qos topic args (payload_of B (second B vs)) w)) [
              | true ↦ refused-Returns c "invalid_topic" w served
              | false ↦ payload-Returns qos topic args _ w h
            ]
    publish_args-Returns qos args vs w h = refused-Returns c "topic_name_invalid" w served

    pub publish-Returns :
        (qos : Qos) (args : CommandArgs) (w : B.World)
        → is_acknowledged qos ≡ true
        → Returns (publish B c qos args w)
    unfolding publish
    publish-Returns qos args w h = publish_args-Returns qos args args.positional w h
