-- ===== src/Retry/Ends.antt =====
-- The loop that connects ends within its budget
-- (crates/ill-core/src/actor_type/mqtt_client/runtime.rs, `Disconnected::connect`).
use i_ll.Prelude.{
  ℕ, zero, suc, ◌+◌, ◌-◌, ◌/◌, ◌≤◌, ◌<◌, true, false, Option, none, some, ◌≡◌, refl, ◌⊎◌,
  Bool-cases, leb→le, inl, inr, arith, leb, if◌then◌else◌,
}
use i_ll.Runtime.{RunOutcome}
use i_ll.Retry.{
  Attempt, expired, accepted, failed, Connector, pause, or_timeout, after_error, after_attempt,
  round, connect_loop, connect_within,
}

-- The fuel is enough for the time that remains.
Enough : ℕ → ℕ → Type 0
Enough r fuel = (1 ≤ fuel) × (0 < r → r / 200000000 + 2 ≤ fuel)

pause-cases : (r : ℕ) → ((200000000 ≤ r) × (pause r ≡ 200000000)) ⊎ (pause r ≡ r)
unfolding pause
pause-cases r = elim (Bool-cases (leb 200000000 r)) [
  | inl e ↦ inl (leb→le 200000000 r e, rw e refl)
  | inr e ↦ inr (rw e refl)
]

pause-Enough :
    (deadline now later fuel : ℕ)
    → 0 < deadline - now
    → (deadline - now) / 200000000 + 2 ≤ suc fuel
    → now + pause (deadline - now) ≤ later
    → Enough (deadline - later) fuel
unfolding Enough
pause-Enough deadline now later fuel left enough passed = elim (pause-cases (deadline - now)) [
  | inl (big, e) ↦
      (omega (arith, enough), λ more. omega (arith, left, enough, passed, big, e, more))
  | inr e ↦ (omega (arith, enough), λ more. omega (arith, left, enough, passed, e, more))
]

-- What is known of an attempt.
unfoldable pub Ended :
    {M : Type 0} → (RunOutcome → Type 0) → (M → RunOutcome → Type 0) → Attempt M → Type 0
Ended P Q expired = Unit
Ended P Q (accepted m o) = Q m o
Ended P Q (failed o) = P o

-- What is known of the clock, of the outcomes of the attempts (`P` of one that fails, `Q` of the mode
-- and the outcome at the end), and that an outcome of `P` at the start is one of `Q`.
pub record Behaves {World M : Type 0} (C : Connector World M) (P : RunOutcome → Type 0)
    (Q : M → RunOutcome → Type 0) : Type 0 where
  pub forward : (d : ℕ) (w : World) → C.now w ≤ C.now (C.attempt d w).1
  pub sleeps : (d : ℕ) (w : World) → C.now w + d ≤ C.now (C.sleep d w)
  pub attempts : (d : ℕ) (w : World) → Ended P Q (C.attempt d w).0
  pub out_of_time : P C.timed_out
  pub stays : (o : RunOutcome) → P o → Q C.start o

module _ {World M : Type 0} (C : Connector World M) (P : RunOutcome → Type 0)
    (Q : M → RunOutcome → Type 0) (B : Behaves C P Q) where
  Kept : Option RunOutcome → Type 0
  Kept none = Unit
  Kept (some o) = P o

  or_timeout-kept : (last : Option RunOutcome) → Kept last → P (or_timeout C last)
  unfolding or_timeout Kept
  or_timeout-kept none k = B.out_of_time
  or_timeout-kept (some o) k = k

  Returns : Option (M × RunOutcome × World) → Type 0
  Returns r = (s : M × RunOutcome × World) × (r ≡ some s) × Q s.0 s.1

  -- The loop goes on after a failed attempt.
  Goes : ℕ → (RunOutcome → World → Option (M × RunOutcome × World)) → World → Type 0
  Goes r again w =
      (o : RunOutcome) (w' : World) → P o → C.now w + pause r ≤ C.now w' → Returns (again o w')

  error-Returns :
      (o : RunOutcome) (r : ℕ) (again : RunOutcome → World → Option (M × RunOutcome × World))
      (w w' : World)
      → P o
      → C.now w ≤ C.now w'
      → Goes r again w
      → Returns (after_error C o r again w')
  unfolding after_error Goes
  error-Returns o r again w w' bad later go =
      elim (C.is_transient o)
        as (λ b. Returns (if b then again o (C.sleep (pause r) w') else some (C.start, o, w'))) [
          | true ↦ go o _ bad (omega (arith, later, B.sleeps (pause r) w'))
          | false ↦ unfold Returns in (_, refl, B.stays o bad)
        ]

  attempt-Returns :
      (t : Attempt M × World) (r : ℕ) (again : RunOutcome → World → Option (M × RunOutcome × World))
      (w : World)
      → Ended P Q t.0
      → C.now w ≤ C.now t.1
      → Goes r again w
      → Returns (after_attempt C t r again)
  unfolding after_attempt Ended
  attempt-Returns (expired, w') r again w e later go =
      unfold Returns in (_, refl, B.stays _ B.out_of_time)
  attempt-Returns (accepted m o, w') r again w e later go = unfold Returns in (_, refl, e)
  attempt-Returns (failed o, w') r again w e later go = error-Returns o r again w w' e later go

  round-Returns :
      (r : ℕ) (last : Option RunOutcome)
      (again : RunOutcome → World → Option (M × RunOutcome × World)) (w : World)
      → Kept last
      → (0 < r → Goes r again w)
      → Returns (round C r last again w)
  unfolding round
  round-Returns zero last again w kept go =
      unfold Returns in (_, refl, B.stays _ (or_timeout-kept last kept))
  round-Returns (suc r) last again w kept go =
      attempt-Returns _ (suc r) again w (B.attempts (suc r) w) (B.forward (suc r) w)
        (go (omega arith))

  loop-Returns :
      (fuel deadline : ℕ) (last : Option RunOutcome) (w : World)
      → Kept last
      → Enough (deadline - C.now w) fuel
      → Returns (connect_loop C fuel deadline last w)
  unfolding connect_loop Enough Goes pause Kept
  loop-Returns zero deadline last w kept (one, enough) = absurd (omega arith)
  loop-Returns (suc fuel) deadline last w kept (one, enough) =
      round-Returns (deadline - C.now w) last _ w kept (λ left o w' bad later.
        loop-Returns fuel deadline (some o) w' bad
          (pause-Enough deadline (C.now w) (C.now w') fuel left (enough left) later))

  -- The loop returns within its budget of time.
  pub connect_within-returns :
      (timeout : ℕ) (w : World)
      → (s : M × RunOutcome × World) × (connect_within C timeout w ≡ some s) × Q s.0 s.1
  unfolding connect_within Kept Enough Returns
  connect_within-returns timeout w =
      loop-Returns (timeout / 200000000 + 2) (C.now w + timeout) none w tt
        (omega arith, λ left. omega arith)
