-- ===== src/Harness/Actors.antt =====
-- The live actors (`InstantiatedActors` of crates/ill-core/src/runtime/harness.rs).
pub mod Teardown
use mathlib.Core.List.{reverse}
use i_ll.Prelude.{String, Option, none, some, List, [], ◌∷◌, ◌++◌, if◌then◌else◌, ◌==◌}
use i_ll.Value.{Value, Dict}
use i_ll.Eval.{Scope, bind, unbind}
use i_ll.Runtime.{ActorRuntime, TeardownOutcome, teardown_failed, Joined, done, panicked, cancelled}

pub record TeardownReport : Type 0 where
  pub actor : String
  pub outcome : TeardownOutcome

-- What a teardown that was spawned as a task reports.
unfoldable pub outcome_of : Joined → TeardownOutcome
outcome_of (done o) = o
outcome_of panicked = teardown_failed "teardown panicked"
outcome_of cancelled = teardown_failed "teardown cancelled"

module _ (R : ActorRuntime) where
  -- In the order of construction.
  abbrev pub Live : Type 0
  Live = List (String × R.Instance)

  unfoldable pub push : String → R.Instance → Live → Live
  push name inst actors = actors ++ (name, inst) ∷ []

  unfoldable pub get_actor : String → Live → Option R.Instance
  get_actor name [] = none
  get_actor name ((n, inst) ∷ actors) = if n == name then some inst else get_actor name actors

  -- What a mutation through `get_mut` leaves.
  unfoldable pub set_actor : String → R.Instance → Live → Live
  set_actor name inst [] = []
  set_actor name inst ((n, old) ∷ actors) =
      if n == name then (n, inst) ∷ actors else (n, old) ∷ set_actor name inst actors

  bind_view : String → Option Dict → Scope → Scope
  bind_view name none scope = unbind name scope
  bind_view name (some view) scope = bind name (Value.dict view) scope

  unfoldable pub bind_views : Live → Scope → Scope
  unfolding bind_view
  bind_views [] scope = scope
  bind_views ((name, inst) ∷ actors) scope =
      bind_views actors (bind_view name (R.self_view inst) scope)

  view_of : Option R.Instance → Option Dict
  view_of none = none
  view_of (some inst) = R.self_view inst

  -- Every actor's view under its name, and the current actor's under `self` too.
  unfoldable pub bind_self : Scope → Live → String → Scope
  unfolding bind_views view_of bind_view
  bind_self scope actors actor_name =
      bind_view "self" (view_of (get_actor actor_name actors)) (bind_views actors scope)

  -- The actors are popped one by one, each torn down before the next.
  unfoldable pub teardown_popped : Live → R.World → List TeardownReport × R.World
  unfolding outcome_of
  teardown_popped [] w = ([], w)
  teardown_popped ((name, inst) ∷ actors) w =
      let (joined, w') = R.teardown inst w in
      let (reports, w'') = teardown_popped actors w' in
      (record { actor = name; outcome = outcome_of joined } ∷ reports, w'')

  -- The last actor goes first; the reports come back in the order of construction.
  unfoldable pub teardown_all : Live → R.World → List TeardownReport × R.World
  unfolding teardown_popped
  teardown_all actors w =
      let (reports, w') = teardown_popped (reverse actors) w in (reverse reports, w')
