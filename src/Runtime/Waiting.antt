-- ===== src/Runtime/Waiting.antt =====
-- Actors whose operations may not come to an end (crates/ill-core/src/actor_type/mod.rs: the traits'
-- methods are `async`).
use i_ll.Prelude.{String, Option, none, some, Result, err, ◌≡◌}
use mathlib.Core.Path.{subst, sym}
use i_ll.Value.{Dict}
use i_ll.Errors.{RuntimeError}
use i_ll.Runtime.{ConstructArgs, CommandArgs, RunOutcome, Joined, ActorRuntime}
use i_ll.Harness.Block.Kept.{Keeps}

-- The actors at run time; `none` means that the operation waits for ever, or that it panics where
-- nothing catches it.
pub record AsyncRuntime : Type 1 where
  pub World : Type 0
  pub Instance : Type 0
  pub type_name : Instance → String
  pub self_view : Instance → Option Dict
  pub construct : String → ConstructArgs → World → Option (Result RuntimeError Instance × World)
  pub execute : Instance → String → CommandArgs → World → Option (RunOutcome × Instance × World)
  pub teardown : Instance → World → Option (Joined × World)

-- From a world with the property each operation returns, in a world that has it too.
pub record Returns (Q : AsyncRuntime) (S : Q.World → Type 0) : Type 0 where
  pub constructs :
      (name : String) (args : ConstructArgs) (w : Q.World)
      → S w
      → (r : Result RuntimeError Q.Instance × Q.World) × (Q.construct name args w ≡ some r) × S r.1
  pub executes :
      (inst : Q.Instance) (name : String) (args : CommandArgs) (w : Q.World)
      → S w
      → (r : RunOutcome × Q.Instance × Q.World) × (Q.execute inst name args w ≡ some r) × S r.2
  pub teardowns :
      (inst : Q.Instance) (w : Q.World)
      → S w
      → (r : Joined × Q.World) × (Q.teardown inst w ≡ some r) × S r.1

module _ (Q : AsyncRuntime) where
  -- The world, or `none` once an operation has not come to an end: nothing follows it, and what is
  -- computed from there has no counterpart in the program.
  abbrev pub Reached : Type 0
  Reached = Option Q.World

  abbrev constructed :
      Option (Result RuntimeError Q.Instance × Q.World) → Result RuntimeError Q.Instance × Reached
  constructed none = (err (RuntimeError.construct ""), none)
  constructed (some (r, w)) = (r, some w)

  abbrev construct_from :
      String → ConstructArgs → Reached → Result RuntimeError Q.Instance × Reached
  construct_from name args none = constructed none
  construct_from name args (some w) = constructed (Q.construct name args w)

  abbrev executed :
      Q.Instance → Option (RunOutcome × Q.Instance × Q.World) → RunOutcome × Q.Instance × Reached
  executed inst none = (RunOutcome.not_implemented "" "", inst, none)
  executed inst (some (o, inst', w)) = (o, inst', some w)

  abbrev execute_from :
      Q.Instance → String → CommandArgs → Reached → RunOutcome × Q.Instance × Reached
  execute_from inst name args none = executed inst none
  execute_from inst name args (some w) = executed inst (Q.execute inst name args w)

  abbrev torn_down : Option (Joined × Q.World) → Joined × Reached
  torn_down none = (Joined.cancelled, none)
  torn_down (some (j, w)) = (j, some w)

  abbrev teardown_from : Q.Instance → Reached → Joined × Reached
  teardown_from inst none = torn_down none
  teardown_from inst (some w) = torn_down (Q.teardown inst w)

  -- The actors as the harness is modelled over them, with the world that is reached.
  abbrev pub as_runtime : ActorRuntime
  as_runtime = record {
    World = Reached;
    Instance = Q.Instance;
    type_name = Q.type_name;
    self_view = Q.self_view;
    construct = construct_from;
    execute = execute_from;
    teardown = teardown_from;
  }

  -- A world is reached, and it has the property.
  unfoldable pub Reaches : (Q.World → Type 0) → Reached → Type 0
  Reaches S none = ⊥
  Reaches S (some w) = S w

  module _ (S : Q.World → Type 0) (returns : Returns Q S) where
    constructs-Reaches :
        (name : String) (args : ConstructArgs) (w : Reached)
        → Reaches S w
        → Reaches S (construct_from name args w).1
    unfolding Reaches
    constructs-Reaches name args none h = h
    constructs-Reaches name args (some w) h =
        let (r, gives, keeps) = returns.constructs name args w h in
        subst (λ o. Reaches S (constructed o).1) (sym gives) keeps

    executes-Reaches :
        (inst : Q.Instance) (name : String) (args : CommandArgs) (w : Reached)
        → Reaches S w
        → Reaches S (execute_from inst name args w).2
    unfolding Reaches
    executes-Reaches inst name args none h = h
    executes-Reaches inst name args (some w) h =
        let (r, gives, keeps) = returns.executes inst name args w h in
        subst (λ o. Reaches S (executed inst o).2) (sym gives) keeps

    teardowns-Reaches :
        (inst : Q.Instance) (w : Reached) → Reaches S w → Reaches S (teardown_from inst w).1
    unfolding Reaches
    teardowns-Reaches inst none h = h
    teardowns-Reaches inst (some w) h =
        let (r, gives, keeps) = returns.teardowns inst w h in
        subst (λ o. Reaches S (torn_down o).1) (sym gives) keeps

    pub returns-Keeps : Keeps as_runtime (Reaches S)
    returns-Keeps = record {
      constructs = constructs-Reaches;
      executes = executes-Reaches;
      teardowns = teardowns-Reaches;
    }
