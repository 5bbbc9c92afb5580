-- ===== src/Runtime.antt =====
-- What passes between the harness and the actors (crates/ill-core/src/runtime/mod.rs), and the
-- traits `ActorType::construct` and `ActorInstance` (crates/ill-core/src/actor_type/mod.rs) as an
-- interface. What lies outside of the process is its `World`.
pub mod Waiting
use i_ll.Prelude.{String, Bool, true, false, Option, none, some, List, Result}
use i_ll.Value.{Value, Dict, get}
use i_ll.Errors.{RuntimeError}

pub record DeclaredVar : Type 0 where
  pub name : String
  pub default : Option Value

pub record ConstructArgs : Type 0 where
  pub keyword : Dict
  pub source_dir : String
  pub vars : List DeclaredVar

pub record CommandArgs : Type 0 where
  pub positional : List Value
  pub keyword : Dict

-- `kw` of the arguments of a command.
unfoldable pub kw : CommandArgs → String → Option Value
unfolding get
kw args name = get name args.keyword

pub data RunOutcome : Type 0 where
  ok : Dict → RunOutcome
  error : String → Dict → RunOutcome
  not_implemented : String → String → RunOutcome

pub record TeardownOutcome : Type 0 where
  pub ok : Bool
  pub message : Option String

abbrev pub teardown_ok : TeardownOutcome
teardown_ok = record { ok = true; message = none }

abbrev pub teardown_failed : String → TeardownOutcome
teardown_failed msg = record { ok = false; message = some msg }

-- What awaiting a spawned teardown gives: its outcome, or the reason why the task has none.
pub data Joined : Type 0 where
  done : TeardownOutcome → Joined
  panicked cancelled : Joined

-- The actors at run time. `construct` is that of the actor type with the name; the other operations
-- are the methods of a live instance, which acts on the world and is replaced by what it becomes. That
-- an operation may wait for ever or panic is in `Waiting`, which makes of operations that may not come
-- to an end those of this interface, over worlds that may not be reached.
pub record ActorRuntime : Type 1 where
  pub World : Type 0
  pub Instance : Type 0
  pub type_name : Instance → String
  pub self_view : Instance → Option Dict
  pub construct : String → ConstructArgs → World → Result RuntimeError Instance × World
  pub execute : Instance → String → CommandArgs → World → RunOutcome × Instance × World
  pub teardown : Instance → World → Joined × World
