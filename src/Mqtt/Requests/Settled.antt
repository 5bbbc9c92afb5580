-- ===== src/Mqtt/Requests/Settled.antt =====
-- The queues of a session before and after a command
-- (crates/ill-core/src/actor_type/mqtt_client/runtime.rs, `Waiters`).
use mathlib.Core.Path.{subst}
use i_ll.Prelude.{ℕ, true, List, [], ◌∷◌, ◌++◌, ◌≡◌, refl, sym, ◌∙◌, ap, ◌⊎◌, inl, inr}
use i_ll.Mqtt.Receive.{PublishPacket, DisconnectPacket}
use i_ll.Mqtt.{
  WaiterQueue, push_waiter, pop_waiter, answer_first, drain_waiters_with_error, Waiters, LoopState,
  goes_on, blocked, ends, run_event_loop,
}
use i_ll.Mqtt.Session.{
  Packets, EventLoop, loop_state, with_state, Queue, sub, qos1, qos2, queue, set_queue, on_queue,
  forget_first, fresh,
}
use i_ll.Mqtt.Requests.Quiet.{
  is_numbered, IsQuiet, quiet-unused, pop-is_numbered, drain-is_numbered, push-is_numbered,
  forget-push, same-or,
}
use i_ll.Mqtt.Requests.Answered.{Waits, Kept, TurnKeeps, TurnHas, loop-Kept}

-- No command waits at any queue.
unfoldable pub AllQuiet : EventLoop → Type 0
AllQuiet l = (k : Queue) → IsQuiet (queue k (loop_state l).waiters)

pub set-queue : (k : Queue) (q : WaiterQueue) (ws : Waiters) → queue k (set_queue k q ws) ≡ q
unfolding queue set_queue
set-queue sub q ws = refl
set-queue qos1 q ws = refl
set-queue qos2 q ws = refl

pub push-Waits : (q : WaiterQueue) → IsQuiet q → Waits (fresh q) (push_waiter (fresh q) q)
unfolding push_waiter
push-Waits q h = record {
  alone = ap (λ (ws : List ℕ). ws ++ fresh q ∷ []) h.idle;
  unanswered = quiet-unused q h.numbered;
}

-- A waiter that is registered and forgotten leaves every queue quiet.
undone-queue :
    (j k : Queue) (n : ℕ) (ws : Waiters)
    → ((i : Queue) → IsQuiet (queue i ws))
    → IsQuiet (
        queue j (
          set_queue k
            (forget_first (queue k (set_queue k (push_waiter n (queue k ws)) ws)))
            (set_queue k (push_waiter n (queue k ws)) ws)))
unfolding queue set_queue
undone-queue sub sub n ws h = subst IsQuiet (sym (forget-push n ws.sub (h sub).idle)) (h sub)
undone-queue sub qos1 n ws h = h sub
undone-queue sub qos2 n ws h = h sub
undone-queue qos1 sub n ws h = h qos1
undone-queue qos1 qos1 n ws h = subst IsQuiet (sym (forget-push n ws.qos1 (h qos1).idle)) (h qos1)
undone-queue qos1 qos2 n ws h = h qos1
undone-queue qos2 sub n ws h = h qos2
undone-queue qos2 qos1 n ws h = h qos2
undone-queue qos2 qos2 n ws h = subst IsQuiet (sym (forget-push n ws.qos2 (h qos2).idle)) (h qos2)

pub undone-AllQuiet :
    (k : Queue) (n : ℕ) (l : EventLoop)
    → AllQuiet l
    → AllQuiet (on_queue k forget_first (on_queue k (push_waiter n) l))
unfolding AllQuiet on_queue with_state loop_state
undone-AllQuiet k n (goes_on s) h = λ j. undone-queue j k n s.waiters h
undone-AllQuiet k n (blocked p later s) h = λ j. undone-queue j k n s.waiters h
undone-AllQuiet k n (ends s) h = λ j. undone-queue j k n s.waiters h

numbered-Kept : Kept (λ q. is_numbered q ≡ true)
numbered-Kept = record { pops = pop-is_numbered; drains = drain-is_numbered }

clear-Kept : Kept (λ q. q.pending ≡ [])
clear-Kept = record {
  pops = λ a q h. unfold pop_waiter answer_first in rw h refl;
  drains = λ e q h. unfold drain_waiters_with_error in refl;
}

-- The queues after a waiter is registered at one of them, and the loop after it is answered.
pub record Registered (k : Queue) (s : LoopState PublishPacket DisconnectPacket) : Type 0 where
  pub numbered : (j : Queue) → is_numbered (queue j s.waiters) ≡ true
  pub others : (j : Queue) → (j ≡ k) ⊎ ((queue j s.waiters).pending ≡ [])

pub answered-AllQuiet :
    (n : ℕ) (k : Queue) (es : List Packets) (s : LoopState PublishPacket DisconnectPacket)
    → Registered k s
    → TurnHas n k (run_event_loop es s)
    → AllQuiet (run_event_loop es s)
unfolding AllQuiet TurnKeeps TurnHas loop_state
answered-AllQuiet n k es s r has = λ j. record {
  idle = elim (r.others j) [
    | inl e ↦
        subst (λ i. (queue i (loop_state (run_event_loop es s)).waiters).pending ≡ []) (sym e)
          has.clear
    | inr clear ↦ loop-Kept (λ q. q.pending ≡ []) clear-Kept j es s clear
  ];
  numbered = loop-Kept (λ q. is_numbered q ≡ true) numbered-Kept j es s (r.numbered j);
}

pub push-Registered :
    (k : Queue) (s : LoopState PublishPacket DisconnectPacket)
    → AllQuiet (goes_on s)
    → Registered k (record s {
      waiters = set_queue k (push_waiter (fresh (queue k s.waiters)) (queue k s.waiters)) s.waiters;
    })
unfolding AllQuiet loop_state
push-Registered k s h = record {
  numbered = λ j.
      elim (same-or j k (push_waiter (fresh (queue k s.waiters)) (queue k s.waiters)) s.waiters) [
        | inl e ↦
            subst
              (λ i.
                is_numbered (
                  queue i (
                    set_queue k (push_waiter (fresh (queue k s.waiters)) (queue k s.waiters))
                      s.waiters))
                ≡ true)
              (sym e)
              (subst (λ q. is_numbered q ≡ true) (sym (set-queue k _ s.waiters))
                (push-is_numbered (queue k s.waiters) (h k)))
        | inr same ↦ subst (λ q. is_numbered q ≡ true) (sym same) (h j).numbered
      ];
  others = λ j.
      elim (same-or j k (push_waiter (fresh (queue k s.waiters)) (queue k s.waiters)) s.waiters) [
        | inl e ↦ inl e
        | inr same ↦ inr (ap (λ q. q.pending) same ∙ (h j).idle)
      ];
}
