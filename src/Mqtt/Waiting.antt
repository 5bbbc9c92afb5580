-- ===== src/Mqtt/Waiting.antt =====
-- Every command that waits for the broker is answered once and in turn
-- (crates/ill-core/src/actor_type/mqtt_client/runtime.rs, `run_event_loop`).
use mathlib.Core.List.{append_assoc, append-nil}
use i_ll.Prelude.{
  true, false, length, ltb, if◌then◌else◌, ℕ, List, [], ◌∷◌, ◌++◌, map, err, ◌≡◌, refl, ap, ◌∙◌,
}
use i_ll.Runtime.{RunOutcome}
use i_ll.Mqtt.Acks.{Answer, network_error}
use i_ll.Mqtt.{
  WaiterQueue, answer_first, pop_waiter, drain_waiters_with_error, Waiters, fail_all_with, Event,
  publish, disconnect, sub_ack, pub_ack, pub_comp, other, server_disconnect, connection_error,
  LoopState, Turn, goes_on, blocked, inbox_cap, keep_message, ends, closed, told, handle_event,
  run_event_loop,
}

abbrev names : List (ℕ × Answer) → List ℕ
names [] = []
names ((w, a) ∷ rest) = w ∷ names rest

-- The waiters of a queue in the order in which they came: those that are answered, in the order of the
-- answers, and those that are pending.
unfoldable pub queue_order : WaiterQueue → List ℕ
queue_order q = names q.answered ++ q.pending

names-append : (xs ys : List (ℕ × Answer)) → names (xs ++ ys) ≡ names xs ++ names ys
names-append [] ys = refl
names-append ((w, a) ∷ xs) ys = ap (λ r. w ∷ r) (names-append xs ys)

answer_first-order :
    (a : Answer) (ws : List ℕ) (q : WaiterQueue)
    → q.pending ≡ ws
    → queue_order (answer_first a ws q) ≡ names q.answered ++ ws
unfolding answer_first queue_order
answer_first-order a [] q h = ap (λ r. names q.answered ++ r) h
answer_first-order a (w ∷ ws) q h =
    ap (λ r. r ++ ws) (names-append q.answered ((w, a) ∷ []))
    ∙ append_assoc (names q.answered) (w ∷ []) ws

pop_waiter-order : (a : Answer) (q : WaiterQueue) → queue_order (pop_waiter a q) ≡ queue_order q
unfolding pop_waiter queue_order
pop_waiter-order a q = answer_first-order a q.pending q refl

all_told : (e : RunOutcome) (ws : List ℕ) → names (map (λ (w : ℕ). (w, err e)) ws) ≡ ws
all_told e [] = refl
all_told e (w ∷ ws) = ap (λ r. w ∷ r) (all_told e ws)

drain-order :
    (e : RunOutcome) (q : WaiterQueue) → queue_order (drain_waiters_with_error e q) ≡ queue_order q
unfolding drain_waiters_with_error queue_order
drain-order e q =
    append-nil _
    ∙ names-append q.answered _
    ∙ ap (λ r. names q.answered ++ r) (all_told e q.pending)

-- The three queues.
unfoldable pub orders : Waiters → List ℕ × List ℕ × List ℕ
unfolding queue_order
orders ws = (queue_order ws.sub, queue_order ws.qos1, queue_order ws.qos2)

module _ {P D : Type 0} where
  unfoldable pub final : Turn P D → Waiters
  final (goes_on s) = s.waiters
  final (blocked p later s) = s.waiters
  final (ends s) = s.waiters

  -- The waiters that a loop that has ended leaves without an answer.
  unfoldable pub left_waiting : Turn P D → List ℕ
  left_waiting (goes_on s) = []
  left_waiting (blocked p later s) = []
  left_waiting (ends s) = s.waiters.sub.pending ++ s.waiters.qos1.pending ++ s.waiters.qos2.pending

  Answers : Waiters → Turn P D → Type 0
  Answers ws t = (orders (final t) ≡ orders ws) × (left_waiting t ≡ [])

  closed-Answers : (s : LoopState P D) → Answers s.waiters (closed s)
  unfolding Answers closed final left_waiting orders fail_all_with
  closed-Answers s =
      let e = network_error "connection_lost" in
      (
        cc (
          drain-order e s.waiters.sub,
          drain-order e s.waiters.qos1,
          drain-order e s.waiters.qos2,
        ),
        unfold drain_waiters_with_error in refl,
      )

  message-Answers : (p : P) (s : LoopState P D) → Answers s.waiters (handle_event (publish p) s)
  unfolding handle_event keep_message Answers final left_waiting
  message-Answers p s =
      elim (ltb (length s.publish_inbox) inbox_cap)
        as (λ b. Answers s.waiters (if b then goes_on (keep_message p s) else blocked p [] s)) [
          | true ↦ (refl, refl)
          | false ↦ (refl, refl)
        ]

  event-Answers : (e : Event P D) (s : LoopState P D) → Answers s.waiters (handle_event e s)
  unfolding handle_event
  event-Answers (publish p) s = message-Answers p s
  event-Answers (disconnect d) s = unfold told in closed-Answers (told s d)
  event-Answers (sub_ack codes) s =
      unfold Answers final left_waiting orders in (cc (pop_waiter-order _ s.waiters.sub), refl)
  event-Answers (pub_ack reason) s =
      unfold Answers final left_waiting orders in (cc (pop_waiter-order _ s.waiters.qos1), refl)
  event-Answers pub_comp s =
      unfold Answers final left_waiting orders in (cc (pop_waiter-order _ s.waiters.qos2), refl)
  event-Answers other s = unfold Answers final left_waiting in (refl, refl)
  event-Answers (server_disconnect d) s = unfold told in closed-Answers (told s d)
  event-Answers connection_error s = closed-Answers s

  loop-Answers :
      (es : List (Event P D)) (s : LoopState P D) → Answers s.waiters (run_event_loop es s)
  unfolding run_event_loop Answers
  loop-Answers [] s = unfold final left_waiting in (refl, refl)
  loop-Answers (e ∷ es) s = continued (handle_event e s) (event-Answers e s) (loop-Answers es)
    where
      continued :
          (t : Turn P D)
          → Answers s.waiters t
          → ((s' : LoopState P D) → Answers s'.waiters (run_event_loop es s'))
          → Answers s.waiters (elim t [
            | goes_on s' ↦ run_event_loop es s'
            | blocked p later s' ↦ blocked p (later ++ es) s'
            | ends s' ↦ ends s'
          ])
      continued (goes_on s') (same, left) rest = ((rest s').0 ∙ unfold final in same, (rest s').1)
      continued (blocked p later s') (same, left) rest =
          (unfold final in same, unfold left_waiting in refl)
      continued (ends s') found rest = found

  -- Whatever the broker sends and however the connection ends, the loop keeps the order of the waiters
  -- of each queue: no waiter is lost, answered twice or answered before one that came earlier. When
  -- the loop ends, every waiter of the three queues has been answered.
  pub run_event_loop-orders :
      (es : List (Event P D)) (s : LoopState P D)
      → (orders (final (run_event_loop es s)) ≡ orders s.waiters)
        × (left_waiting (run_event_loop es s) ≡ [])
  unfolding Answers
  run_event_loop-orders es s = loop-Answers es s
