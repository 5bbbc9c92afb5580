-- ===== src/Mqtt.antt =====
-- The event loop of the `mqtt_client` actor, which routes what the broker sends to the commands that
-- wait for it (crates/ill-core/src/actor_type/mqtt_client/runtime.rs).
pub mod Acks
pub mod Config
pub mod Connect
pub mod Session
pub mod Requests
pub mod Instance
pub mod Receive
pub mod Waiting
use i_ll.Prelude.{
  ℕ, String, Option, none, some, List, [], ◌∷◌, ◌++◌, map, Result, ok, err, length, ltb,
  if◌then◌else◌,
}
use i_ll.Runtime.{RunOutcome}
use i_ll.Mqtt.Acks.{
  Answer, SubscribeReasonCode, PubAckReason, network_error, suback_outcome, puback_outcome,
  pubcomp_outcome,
}

-- A `WaiterQueue`: the waiters that are pending, the oldest first, and the answers sent so far, in
-- order. A waiter is named by a number.
pub record WaiterQueue : Type 0 where
  pub answered : List (ℕ × Answer)
  pub pending : List ℕ

unfoldable pub push_waiter : ℕ → WaiterQueue → WaiterQueue
push_waiter w q = record q { pending = q.pending ++ w ∷ [] }

answer_first : Answer → List ℕ → WaiterQueue → WaiterQueue
answer_first a [] q = q
answer_first a (w ∷ ws) q = record { answered = q.answered ++ (w, a) ∷ []; pending = ws }

-- `pop_waiter`, and the answer that is sent to the waiter.
unfoldable pub pop_waiter : Answer → WaiterQueue → WaiterQueue
unfolding answer_first
pop_waiter a q = answer_first a q.pending q

unfoldable pub drain_waiters_with_error : RunOutcome → WaiterQueue → WaiterQueue
drain_waiters_with_error e q = record {
  answered = q.answered ++ map (λ w. (w, err e)) q.pending;
  pending = [];
}

pub record Waiters : Type 0 where
  pub sub : WaiterQueue
  pub qos1 : WaiterQueue
  pub qos2 : WaiterQueue

unfoldable pub fail_all_with : RunOutcome → Waiters → Waiters
unfolding drain_waiters_with_error
fail_all_with e ws = record {
  sub = drain_waiters_with_error e ws.sub;
  qos1 = drain_waiters_with_error e ws.qos1;
  qos2 = drain_waiters_with_error e ws.qos2;
}

-- What `poll` gives: a packet, something else to go on after, or an error of the connection. `P` and
-- `D` are the packets PUBLISH and DISCONNECT; a disconnect by the server comes as an error, of which
-- the code makes the packet.
pub data Event (P D : Type 0) : Type 0 where
  publish : P → Event P D
  disconnect : D → Event P D
  sub_ack : List SubscribeReasonCode → Event P D
  pub_ack : PubAckReason → Event P D
  pub_comp : Event P D
  other : Event P D
  server_disconnect : D → Event P D
  connection_error : Event P D

-- The two inboxes and the waiters. A send to a full inbox waits until there is room.
pub record LoopState (P D : Type 0) : Type 0 where
  pub publish_inbox : List P
  pub disconnect_inbox : List D
  pub waiters : Waiters

-- `INBOX_CAP`. The other inbox has room for the one packet that it gets.
abbrev pub inbox_cap : ℕ
inbox_cap = 64

-- Whether the loop goes on, and its state. It is `blocked` when it waits for room in the inbox for a
-- message; it does not poll until then, so that the events which would follow are still to come.
pub data Turn (P D : Type 0) : Type 0 where
  goes_on : LoopState P D → Turn P D
  blocked : P → List (Event P D) → LoopState P D → Turn P D
  ends : LoopState P D → Turn P D

module _ {P D : Type 0} where
  closed : LoopState P D → Turn P D
  unfolding fail_all_with
  closed s = ends (record s { waiters = fail_all_with (network_error "connection_lost") s.waiters })

  told : LoopState P D → D → LoopState P D
  told s d = record s { disconnect_inbox = s.disconnect_inbox ++ d ∷ [] }

  keep_message : P → LoopState P D → LoopState P D
  keep_message p s = record s { publish_inbox = s.publish_inbox ++ p ∷ [] }

  -- One turn of `run_event_loop`.
  unfoldable pub handle_event : Event P D → LoopState P D → Turn P D
  unfolding closed told pop_waiter keep_message
  handle_event (publish p) s =
      if ltb (length s.publish_inbox) inbox_cap then goes_on (keep_message p s) else blocked p [] s
  handle_event (disconnect d) s = closed (told s d)
  handle_event (sub_ack codes) s = goes_on (record s {
    waiters = record s.waiters { sub = pop_waiter (suback_outcome codes) s.waiters.sub };
  })
  handle_event (pub_ack reason) s = goes_on (record s {
    waiters = record s.waiters { qos1 = pop_waiter (puback_outcome reason) s.waiters.qos1 };
  })
  handle_event pub_comp s =
      goes_on (record s {
        waiters = record s.waiters { qos2 = pop_waiter pubcomp_outcome s.waiters.qos2 };
      })
  handle_event other s = goes_on s
  handle_event (server_disconnect d) s = closed (told s d)
  handle_event connection_error s = closed s

  -- `run_event_loop` on the events that `poll` gives one after another.
  unfoldable pub run_event_loop : List (Event P D) → LoopState P D → Turn P D
  unfolding handle_event
  run_event_loop [] s = goes_on s
  run_event_loop (e ∷ es) s = elim (handle_event e s) [
    | goes_on s' ↦ run_event_loop es s'
    | blocked p later s' ↦ blocked p (later ++ es) s'
    | ends s' ↦ ends s'
  ]

  -- `run_event_loop` after the wait for room has ended, or while it goes on.
  unfoldable pub resume : List (Event P D) → Turn P D → Turn P D
  unfolding run_event_loop keep_message
  resume es (goes_on s) = run_event_loop es s
  resume es (blocked p later s) =
      if ltb (length s.publish_inbox) inbox_cap
      then run_event_loop (later ++ es) (keep_message p s)
      else blocked p (later ++ es) s
  resume es (ends s) = ends s
