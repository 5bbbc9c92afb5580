-- ===== src/Mqtt/Requests/Answered/Room.antt =====
-- A waiter is answered if the event loop is not blocked before (crates/ill-core/src/actor_type/
-- mqtt_client/runtime.rs, `run_event_loop` and `INBOX_CAP`).
use i_ll.Prelude.{
  ℕ, ◌+◌, ◌≤◌, length, length-append, ltb, if◌then◌else◌, Bool, true, false, ◌||◌, List, [], ◌∷◌,
  ◌++◌, any, ◌≡◌, refl, arith,
}
use i_ll.Mqtt.Acks.{pubcomp_outcome}
use i_ll.Mqtt.Receive.{PublishPacket, DisconnectPacket}
use i_ll.Mqtt.{
  publish, disconnect, sub_ack, pub_ack, pub_comp, other, server_disconnect, connection_error,
  LoopState, goes_on, blocked, inbox_cap, keep_message, ends, told, handle_event, run_event_loop,
}
use i_ll.Mqtt.Session.{Packets, EventLoop, loop_state, Queue, sub, qos1, qos2, queue}
use i_ll.Mqtt.Requests.Answered.{
  Good, suback-Good, puback-Good, Waits, Has, pop-Waits, settles, StateWaits, TurnHas, closed-Waits,
  TurnKeeps, loop-Kept, Has-Kept,
}

-- The messages among the events before the first that settles the queue.
one_message : Packets → ℕ
one_message (publish p) = 1
one_message (disconnect d) = 0
one_message (sub_ack codes) = 0
one_message (pub_ack reason) = 0
one_message pub_comp = 0
one_message other = 0
one_message (server_disconnect d) = 0
one_message connection_error = 0

unfoldable pub messages_before : Queue → List Packets → ℕ
unfolding one_message settles
messages_before k [] = 0
messages_before k (e ∷ es) =
    let rest = messages_before k es in if settles k e then 0 else one_message e + rest

-- An event that does not answer the waiter leaves it waiting, in a loop that is blocked only if the
-- message finds no room; the inbox grows to `size` at most.
Stays : ℕ → Queue → ℕ → EventLoop → Type 0
Stays n k size (goes_on s) = StateWaits n k s × (length s.publish_inbox ≤ size)
Stays n k size (blocked p later s) = inbox_cap + 1 ≤ size
Stays n k size (ends s) = ⊥

-- After an event, by whether it settles the queue.
After : Bool → ℕ → Queue → ℕ → EventLoop → Type 0
After true n k size t = TurnHas n k t
After false n k size t = Stays n k size t

message-Stays :
    (n : ℕ) (k : Queue) (p : PublishPacket) (s : LoopState PublishPacket DisconnectPacket)
    → StateWaits n k s
    → Stays n k (length s.publish_inbox + 1) (handle_event (publish p) s)
unfolding handle_event keep_message Stays StateWaits
message-Stays n k p s h = by_room (ltb (length s.publish_inbox) inbox_cap) refl
  where
    by_room :
        (b : Bool)
        → ltb (length s.publish_inbox) inbox_cap ≡ b
        → Stays n k
            (length s.publish_inbox + 1)
            (if b then goes_on (keep_message p s) else blocked p [] s)
    by_room true e = (h, omega (arith, length-append s.publish_inbox (p ∷ [])))
    by_room false e = ground (arith, e)

event-After :
    (n : ℕ) (k : Queue) (e : Packets) (s : LoopState PublishPacket DisconnectPacket)
    → StateWaits n k s
    → After (settles k e) n k (length s.publish_inbox + one_message e) (handle_event e s)
unfolding handle_event settles After Stays StateWaits one_message
event-After n k (publish p) s h = message-Stays n k p s h
event-After n k (disconnect d) s h = closed-Waits n k (told s d) (unfold told in h)
event-After n sub (sub_ack codes) s h =
    unfold TurnHas loop_state queue in pop-Waits n _ s.waiters.sub (suback-Good codes) h
event-After n qos1 (sub_ack codes) s h = (unfold queue in h, omega arith)
event-After n qos2 (sub_ack codes) s h = (unfold queue in h, omega arith)
event-After n sub (pub_ack reason) s h = (unfold queue in h, omega arith)
event-After n qos1 (pub_ack reason) s h =
    unfold TurnHas loop_state queue in pop-Waits n _ s.waiters.qos1 (puback-Good reason) h
event-After n qos2 (pub_ack reason) s h = (unfold queue in h, omega arith)
event-After n sub pub_comp s h = (unfold queue in h, omega arith)
event-After n qos1 pub_comp s h = (unfold queue in h, omega arith)
event-After n qos2 pub_comp s h =
    unfold TurnHas loop_state queue pubcomp_outcome Good in pop-Waits n _ s.waiters.qos2 tt h
event-After n k other s h = (h, omega arith)
event-After n k (server_disconnect d) s h = closed-Waits n k (told s d) (unfold told in h)
event-After n k connection_error s h = closed-Waits n k s h

still-Waits :
    (n : ℕ) (k : Queue) (size : ℕ) (s : LoopState PublishPacket DisconnectPacket)
    → After false n k size (goes_on s)
    → Waits n (queue k s.waiters) × (length s.publish_inbox ≤ size)
unfolding After Stays StateWaits
still-Waits n k size s h = h

full :
    (n : ℕ) (k : Queue) (size : ℕ) (p : PublishPacket) (later : List Packets)
    (s : LoopState PublishPacket DisconnectPacket)
    → After false n k size (blocked p later s)
    → size ≤ inbox_cap
    → ⊥
unfolding After Stays
full n k size p later s h fits = omega (arith, h, fits)

-- The events answer the waiter if one of them settles its queue, and if there is room for the messages
-- that come before it.
pub loop-answers :
    (n : ℕ) (k : Queue) (es : List Packets) (s : LoopState PublishPacket DisconnectPacket)
    → Waits n (queue k s.waiters)
    → any (settles k) es ≡ true
    → length s.publish_inbox + messages_before k es ≤ inbox_cap
    → TurnHas n k (run_event_loop es s)
unfolding run_event_loop StateWaits TurnKeeps TurnHas messages_before
loop-answers n k [] s w h room = absurd (cc h)
loop-answers n k (e ∷ es) s w h room =
    continued (settles k e) (handle_event e s) h room (event-After n k e s w) (loop-answers n k es)
  where
    continued :
        (b : Bool) (t : EventLoop)
        → (b || any (settles k) es) ≡ true
        → length s.publish_inbox + (if b then 0 else one_message e + messages_before k es)
          ≤ inbox_cap
        → After b n k (length s.publish_inbox + one_message e) t
        → ((s' : LoopState PublishPacket DisconnectPacket)
            → Waits n (queue k s'.waiters)
            → any (settles k) es ≡ true
            → length s'.publish_inbox + messages_before k es ≤ inbox_cap
            → TurnHas n k (run_event_loop es s'))
        → TurnHas n k (elim t [
          | goes_on s' ↦ run_event_loop es s'
          | blocked p later s' ↦ blocked p (later ++ es) s'
          | ends s' ↦ ends s'
        ])
    continued true (goes_on s') some_event fits found rest =
        unfold After in loop-Kept (Has n) (Has-Kept n) k es s' found
    continued true (blocked p later s') some_event fits found rest =
        unfold After TurnHas loop_state in found
    continued true (ends s') some_event fits found rest = unfold After in found
    continued false (goes_on s') some_event fits waits rest =
        let parts = still-Waits n k _ s' waits in
        rest s' parts.0 some_event (omega (arith, parts.1, fits))
    continued false (blocked p later s') some_event fits waits rest =
        absurd (full n k _ p later s' waits (omega (arith, fits)))
    continued false (ends s') some_event fits waits rest = absurd (unfold After Stays in waits)
