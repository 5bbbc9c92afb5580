-- ===== src/Mqtt/Requests/Quiet.antt =====
-- Queues in which no command waits (crates/ill-core/src/actor_type/mqtt_client/runtime.rs,
-- `WaiterQueue`).
use mathlib.Core.Path.{subst}
use i_ll.Prelude.{
  ℕ, suc, ◌+◌, Bool, true, ◌&&◌, none, List, [], ◌∷◌, ◌++◌, map, all, length, length-append, ltb,
  err, ◌≡◌, refl, ap, arith, ◌⊎◌, inl, inr,
}
use i_ll.Runtime.{RunOutcome}
use i_ll.Mqtt.Acks.{Answer}
use i_ll.Mqtt.{
  WaiterQueue, push_waiter, pop_waiter, answer_first, drain_waiters_with_error, Waiters,
}
use i_ll.Mqtt.Session.{Queue, sub, qos1, qos2, queue, set_queue, forget_first, fresh, answer_of}

below : ℕ → List (ℕ × Answer) → Bool
below n xs = all (λ (e : ℕ × Answer). ltb e.0 n) xs

all_below : ℕ → List (ℕ × Answer) → List ℕ → Bool
unfolding below
all_below n xs ws = below n xs && all (λ w. ltb w n) ws

-- The names of the waiters are below the next name.
unfoldable pub is_numbered : WaiterQueue → Bool
unfolding all_below fresh
is_numbered q = all_below (fresh q) q.answered q.pending

-- No waiter is pending, and the next name is new.
pub record IsQuiet (q : WaiterQueue) : Type 0 where
  pub idle : q.pending ≡ []
  pub numbered : is_numbered q ≡ true

below-unanswered : (n : ℕ) (xs : List (ℕ × Answer)) → below n xs ≡ true → answer_of n xs ≡ none
unfolding below answer_of
below-unanswered n [] h = refl
below-unanswered n ((v, a) ∷ xs) h = ground (arith, below-unanswered n xs)

below-suc : (n : ℕ) (xs : List (ℕ × Answer)) → below n xs ≡ true → below (suc n) xs ≡ true
unfolding below
below-suc n [] h = refl
below-suc n ((v, a) ∷ xs) h = ground (arith, below-suc n xs)

below-append : (n : ℕ) (xs ys : List (ℕ × Answer)) → below n (xs ++ ys) ≡ (below n xs && below n ys)
unfolding below
below-append n [] ys = refl
below-append n ((v, a) ∷ xs) ys = ground (arith, below-append n xs ys)

below-map :
    (n : ℕ) (a : Answer) (ws : List ℕ)
    → below n (map (λ (w : ℕ). (w, a)) ws) ≡ all (λ w. ltb w n) ws
unfolding below
below-map n a [] = refl
below-map n a (w ∷ ws) = ap (λ b. ltb w n && b) (below-map n a ws)

length-map :
    (a : Answer) (ws : List ℕ) → length {A = ℕ × Answer} (map (λ (w : ℕ). (w, a)) ws) ≡ length ws
length-map a [] = refl
length-map a (w ∷ ws) = ap suc (length-map a ws)

pub quiet-unused : (q : WaiterQueue) → is_numbered q ≡ true → answer_of (fresh q) q.answered ≡ none
unfolding is_numbered all_below
quiet-unused q h = below-unanswered (fresh q) q.answered (ground (arith, h))

-- The three ways in which a queue changes.
pop-all_below :
    (n w : ℕ) (a : Answer) (xs : List (ℕ × Answer)) (ws : List ℕ)
    → all_below n xs (w ∷ ws) ≡ true
    → all_below n (xs ++ (w, a) ∷ []) ws ≡ true
unfolding all_below below
pop-all_below n w a xs ws h = rw (below-append n xs ((w, a) ∷ [])) (ground (arith, h))

first-is_numbered :
    (a : Answer) (ws : List ℕ) (q : WaiterQueue)
    → q.pending ≡ ws
    → is_numbered q ≡ true
    → is_numbered (answer_first a ws q) ≡ true
unfolding answer_first is_numbered fresh
first-is_numbered a [] q e h = h
first-is_numbered a (w ∷ ws) q e h =
    let count : length q.answered + length (w ∷ ws)
        ≡ length (q.answered ++ (w, a) ∷ []) + length ws =
      omega (arith, length-append q.answered ((w, a) ∷ [])) in
    subst (λ n. all_below n (q.answered ++ (w, a) ∷ []) ws ≡ true) count
      (pop-all_below _ w a q.answered ws
        (subst (λ ps. all_below (length q.answered + length ps) q.answered ps ≡ true) e h))

pub pop-is_numbered :
    (a : Answer) (q : WaiterQueue) → is_numbered q ≡ true → is_numbered (pop_waiter a q) ≡ true
unfolding pop_waiter
pop-is_numbered a q h = first-is_numbered a q.pending q refl h

drain-all_below :
    (n : ℕ) (a : Answer) (xs : List (ℕ × Answer)) (ws : List ℕ)
    → all_below n xs ws ≡ true
    → all_below n (xs ++ map (λ (w : ℕ). (w, a)) ws) [] ≡ true
unfolding all_below
drain-all_below n a xs ws h =
    rw (below-append n xs (map (λ (w : ℕ). (w, a)) ws), below-map n a ws) (ground (arith, h))

pub drain-is_numbered :
    (e : RunOutcome) (q : WaiterQueue)
    → is_numbered q ≡ true
    → is_numbered (drain_waiters_with_error e q) ≡ true
unfolding drain_waiters_with_error is_numbered fresh
drain-is_numbered e q h =
    let told = map (λ (w : ℕ). (w, err e)) q.pending in
    let count : length q.answered + length q.pending ≡ length (q.answered ++ told) + 0 =
      omega (arith, length-append q.answered told, length-map (err e) q.pending) in
    subst (λ n. all_below n (q.answered ++ told) [] ≡ true) count
      (drain-all_below _ (err e) q.answered q.pending h)

push-all_below :
    (n m : ℕ) (xs : List (ℕ × Answer))
    → m ≡ suc n
    → all_below n xs [] ≡ true
    → all_below m xs (n ∷ []) ≡ true
unfolding all_below
push-all_below n m xs e h = rw e (ground (arith, below-suc n xs, h))

pub push-is_numbered : (q : WaiterQueue) → IsQuiet q → is_numbered (push_waiter (fresh q) q) ≡ true
unfolding push_waiter is_numbered fresh
push-is_numbered q h =
    let old : all_below (length q.answered + 0) q.answered [] ≡ true =
      subst (λ ps. all_below (length q.answered + length ps) q.answered ps ≡ true) h.idle
        h.numbered in
    let next : length q.answered + 1 ≡ suc (length q.answered + 0) = omega arith in
    rw (h.idle) (push-all_below _ _ q.answered next old)

-- A waiter that is registered and forgotten leaves the queue as it was.
pub forget-push : (n : ℕ) (q : WaiterQueue) → q.pending ≡ [] → forget_first (push_waiter n q) ≡ q
unfolding forget_first push_waiter
forget-push n q h = rw h refl

pub same-or :
    (j k : Queue) (q : WaiterQueue) (ws : Waiters)
    → (j ≡ k) ⊎ (queue j (set_queue k q ws) ≡ queue j ws)
unfolding queue set_queue
same-or sub sub q ws = inl refl
same-or qos1 qos1 q ws = inl refl
same-or qos2 qos2 q ws = inl refl
same-or sub qos1 q ws = inr refl
same-or sub qos2 q ws = inr refl
same-or qos1 sub q ws = inr refl
same-or qos1 qos2 q ws = inr refl
same-or qos2 sub q ws = inr refl
same-or qos2 qos1 q ws = inr refl
