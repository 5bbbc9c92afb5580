-- ===== src/Mqtt/Requests/Answered.antt =====
-- A command that waits for the broker is answered
-- (crates/ill-core/src/actor_type/mqtt_client/runtime.rs, `run_event_loop`).
pub mod Room
use mathlib.Core.Path.{subst}
use i_ll.Prelude.{
  ℕ, ◌+◌, ◌≤◌, length, length-append, ltb, if◌then◌else◌, String, Bool, true, false, ◌||◌, Option,
  none, some, List, [], ◌∷◌, ◌++◌, any, nat_eq_iff, ok, err, ◌≡◌, refl, sym, arith,
}
use i_ll.Prelude.Int.{ℤ}
use i_ll.Value.{get, len, is_of_type}
use i_ll.Value.Dicts.{insert}
use i_ll.Actor.Mqtt.{subscribe_cmd}
use i_ll.Runtime.{RunOutcome}
use i_ll.Exec.Outcomes.{conforms}
use i_ll.Mqtt.Acks.{
  Answer, SubscribeReasonCode, Reason, refused_or, network_error, mqtt_error, suback_outcome,
  suback_failure_atom, puback_outcome, puback_failure_atom, pubcomp_outcome, PubAckReason,
}
use i_ll.Mqtt.Receive.{PublishPacket, DisconnectPacket}
use i_ll.Mqtt.{
  WaiterQueue, answer_first, pop_waiter, drain_waiters_with_error, Waiters, fail_all_with, publish,
  disconnect, sub_ack, pub_ack, pub_comp, other, server_disconnect, connection_error, LoopState,
  goes_on, blocked, inbox_cap, keep_message, ends, closed, told, handle_event, run_event_loop,
}
use i_ll.Mqtt.Session.{Packets, EventLoop, loop_state, Queue, sub, qos1, qos2, queue, answer_of}

-- An error that the commands with an acknowledgement declare.
unfoldable pub IsDeclared : RunOutcome → Type 0
IsDeclared o = conforms (subscribe_cmd "") o ≡ true

pub network-IsDeclared : (reason : String) → IsDeclared (network_error reason)
unfolding IsDeclared conforms subscribe_cmd network_error get len is_of_type
network-IsDeclared reason = refl

pub mqtt-IsDeclared : (reason : String) (code : ℤ) → IsDeclared (mqtt_error reason code)
unfolding IsDeclared conforms subscribe_cmd mqtt_error insert get len is_of_type
mqtt-IsDeclared reason code = refl

unfoldable pub Good : Answer → Type 0
Good (ok u) = Unit
Good (err o) = IsDeclared o

refused_or-Good : (r : Option Reason) (next : Answer) → Good next → Good (refused_or r next)
unfolding refused_or Good
refused_or-Good none next h = h
refused_or-Good (some (reason, code)) next h = mqtt-IsDeclared reason code

suback-Good : (codes : List SubscribeReasonCode) → Good (suback_outcome codes)
unfolding suback_outcome
suback-Good [] = unfold Good in tt
suback-Good (code ∷ codes) = refused_or-Good (suback_failure_atom code) _ (suback-Good codes)

puback-Good : (reason : PubAckReason) → Good (puback_outcome reason)
unfolding puback_outcome
puback-Good reason = refused_or-Good (puback_failure_atom reason) _ (unfold Good in tt)

-- The waiter `n` alone waits, or it has its answer.
pub record Waits (n : ℕ) (q : WaiterQueue) : Type 0 where
  pub alone : q.pending ≡ n ∷ []
  pub unanswered : answer_of n q.answered ≡ none

pub record Has (n : ℕ) (q : WaiterQueue) : Type 0 where
  pub answer : Answer
  pub found : answer_of n q.answered ≡ some answer
  pub good : Good answer
  pub clear : q.pending ≡ []

append-none :
    (n : ℕ) (a : Answer) (xs : List (ℕ × Answer))
    → answer_of n xs ≡ none
    → answer_of n (xs ++ (n, a) ∷ []) ≡ some a
unfolding answer_of
append-none n a [] h = ground (arith, nat_eq_iff n n)
append-none n a ((v, b) ∷ xs) h = ground (arith, append-none n a xs)

append-some :
    (n : ℕ) (a : Answer) (xs ys : List (ℕ × Answer))
    → answer_of n xs ≡ some a
    → answer_of n (xs ++ ys) ≡ some a
unfolding answer_of
append-some n a [] ys h = absurd (cc h)
append-some n a ((v, b) ∷ xs) ys h = ground (arith, append-some n a xs ys)

module _ (n : ℕ) where
  pop-Waits : (a : Answer) (q : WaiterQueue) → Good a → Waits n q → Has n (pop_waiter a q)
  unfolding pop_waiter
  pop-Waits a q good w = record {
    answer = a;
    found = rw (w.alone) (unfold answer_first in append-none n a q.answered w.unanswered);
    good = good;
    clear = rw (w.alone) (unfold answer_first in refl);
  }

  -- Nothing is pending, so that nothing is popped.
  pop-Has : (a : Answer) (q : WaiterQueue) → Has n q → Has n (pop_waiter a q)
  unfolding pop_waiter
  pop-Has a q h =
      let same : answer_first a q.pending q ≡ q = rw (h.clear) (unfold answer_first in refl) in
      subst (Has n) (sym same) h

  drain-Waits :
      (e : RunOutcome) (q : WaiterQueue)
      → IsDeclared e
      → Waits n q
      → Has n (drain_waiters_with_error e q)
  unfolding drain_waiters_with_error
  drain-Waits e q good w = record {
    answer = err e;
    found = rw (w.alone) (append-none n (err e) q.answered w.unanswered);
    good = unfold Good in good;
    clear = refl;
  }

  drain-Has : (e : RunOutcome) (q : WaiterQueue) → Has n q → Has n (drain_waiters_with_error e q)
  unfolding drain_waiters_with_error
  drain-Has e q h = record {
    answer = h.answer;
    found = append-some n h.answer q.answered _ h.found;
    good = h.good;
    clear = refl;
  }

-- The event answers the first waiter of the queue.
unfoldable pub settles : Queue → Packets → Bool
settles k (publish p) = false
settles k (disconnect d) = true
settles sub (sub_ack codes) = true
settles k (sub_ack codes) = false
settles qos1 (pub_ack reason) = true
settles k (pub_ack reason) = false
settles qos2 pub_comp = true
settles k pub_comp = false
settles k other = false
settles k (server_disconnect d) = true
settles k connection_error = true

fail_all-queue :
    (k : Queue) (e : RunOutcome) (ws : Waiters)
    → queue k (fail_all_with e ws) ≡ drain_waiters_with_error e (queue k ws)
unfolding queue fail_all_with
fail_all-queue sub e ws = refl
fail_all-queue qos1 e ws = refl
fail_all-queue qos2 e ws = refl

StateWaits : ℕ → Queue → LoopState PublishPacket DisconnectPacket → Type 0
StateWaits n k s = Waits n (queue k s.waiters)

unfoldable pub TurnHas : ℕ → Queue → EventLoop → Type 0
TurnHas n k t = Has n (queue k (loop_state t).waiters)

closed-Waits :
    (n : ℕ) (k : Queue) (s : LoopState PublishPacket DisconnectPacket)
    → StateWaits n k s
    → TurnHas n k (closed s)
unfolding StateWaits TurnHas closed loop_state
closed-Waits n k s w =
    subst (Has n) (sym (fail_all-queue k _ s.waiters))
      (drain-Waits n _ (queue k s.waiters) (network-IsDeclared "connection_lost") w)

-- What an answer to the first waiter keeps, and an error for all of them.
pub record Kept (P : WaiterQueue → Type 0) : Type 0 where
  pub pops : (a : Answer) (q : WaiterQueue) → P q → P (pop_waiter a q)
  pub drains : (e : RunOutcome) (q : WaiterQueue) → P q → P (drain_waiters_with_error e q)

module _ (P : WaiterQueue → Type 0) (kept : Kept P) where
  unfoldable pub TurnKeeps : Queue → EventLoop → Type 0
  TurnKeeps k t = P (queue k (loop_state t).waiters)

  closed-Kept :
      (k : Queue) (s : LoopState PublishPacket DisconnectPacket)
      → TurnKeeps k (goes_on s)
      → TurnKeeps k (closed s)
  unfolding TurnKeeps closed loop_state
  closed-Kept k s h =
      subst P (sym (fail_all-queue k _ s.waiters)) (kept.drains _ (queue k s.waiters) h)

  message-Kept :
      (k : Queue) (p : PublishPacket) (s : LoopState PublishPacket DisconnectPacket)
      → TurnKeeps k (goes_on s)
      → TurnKeeps k (handle_event (publish p) s)
  unfolding handle_event keep_message TurnKeeps loop_state
  message-Kept k p s h =
      elim (ltb (length s.publish_inbox) inbox_cap)
        as (λ b. TurnKeeps k (if b then goes_on (keep_message p s) else blocked p [] s)) [
          | true ↦ h
          | false ↦ h
        ]

  event-Kept :
      (k : Queue) (e : Packets) (s : LoopState PublishPacket DisconnectPacket)
      → TurnKeeps k (goes_on s)
      → TurnKeeps k (handle_event e s)
  unfolding handle_event
  event-Kept k (publish p) s h = message-Kept k p s h
  event-Kept k (disconnect d) s h = closed-Kept k (told s d) (unfold TurnKeeps loop_state told in h)
  event-Kept sub (sub_ack codes) s h =
      unfold TurnKeeps loop_state queue in kept.pops _ s.waiters.sub h
  event-Kept qos1 (sub_ack codes) s h = unfold TurnKeeps loop_state queue in h
  event-Kept qos2 (sub_ack codes) s h = unfold TurnKeeps loop_state queue in h
  event-Kept sub (pub_ack reason) s h = unfold TurnKeeps loop_state queue in h
  event-Kept qos1 (pub_ack reason) s h =
      unfold TurnKeeps loop_state queue in kept.pops _ s.waiters.qos1 h
  event-Kept qos2 (pub_ack reason) s h = unfold TurnKeeps loop_state queue in h
  event-Kept sub pub_comp s h = unfold TurnKeeps loop_state queue in h
  event-Kept qos1 pub_comp s h = unfold TurnKeeps loop_state queue in h
  event-Kept qos2 pub_comp s h = unfold TurnKeeps loop_state queue in kept.pops _ s.waiters.qos2 h
  event-Kept k other s h = h
  event-Kept k (server_disconnect d) s h =
      closed-Kept k (told s d) (unfold TurnKeeps loop_state told in h)
  event-Kept k connection_error s h = closed-Kept k s h

  pub loop-Kept :
      (k : Queue) (es : List Packets) (s : LoopState PublishPacket DisconnectPacket)
      → TurnKeeps k (goes_on s)
      → TurnKeeps k (run_event_loop es s)
  unfolding run_event_loop
  loop-Kept k [] s h = h
  loop-Kept k (e ∷ es) s h = continued (handle_event e s) (event-Kept k e s h) (loop-Kept k es)
    where
      continued :
          (t : EventLoop)
          → TurnKeeps k t
          → ((s' : LoopState PublishPacket DisconnectPacket)
              → TurnKeeps k (goes_on s')
              → TurnKeeps k (run_event_loop es s'))
          → TurnKeeps k (elim t [
            | goes_on s' ↦ run_event_loop es s'
            | blocked p later s' ↦ blocked p (later ++ es) s'
            | ends s' ↦ ends s'
          ])
      continued (goes_on s') found rest = rest s' found
      continued (blocked p later s') found rest = unfold TurnKeeps loop_state in found
      continued (ends s') found rest = found

Has-Kept : (n : ℕ) → Kept (Has n)
Has-Kept n = record { pops = pop-Has n; drains = drain-Has n }
