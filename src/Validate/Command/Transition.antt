-- ===== src/Validate/Command/Transition.antt =====
-- The mode that the check of a command returns (crates/ill-core/src/validate.rs).
use i_ll.Prelude.{Bool, true, false, none, some, ◌≡◌, refl, if◌then◌else◌}
use i_ll.Ast.{Command}
use i_ll.Actor.{ActorType, owns_target, resolve_command, Resolved}
use i_ll.Actor.Laws.{resolve_command-owns_target}
use i_ll.Validate.Command.{
  HealthyActor, CommandCheck, rejected, check_command, check_resolved, in_valid_mode,
  check_arguments, wrong_mode,
}

pub owns_none : (t : ActorType) → owns_target t none ≡ true
unfolding owns_target
owns_none t = refl

if-owns :
    (t : ActorType) (b : Bool) (c d : CommandCheck)
    → owns_target t c.transition ≡ true
    → owns_target t d.transition ≡ true
    → owns_target t (if b then c else d).transition ≡ true
if-owns t true c d x y = x
if-owns t false c d x y = y

resolved-owns :
    (state : HealthyActor) (cmd : Command) (r : Resolved)
    → resolve_command state.type_def cmd.name.name cmd.positional_args ≡ r
    → owns_target state.type_def (check_resolved state cmd r).transition ≡ true
unfolding check_resolved check_arguments
resolved-owns state cmd none h = owns_none state.type_def
resolved-owns state cmd (some (def, n)) h =
    if-owns state.type_def (in_valid_mode state.mode def) (check_arguments cmd def n)
      (rejected (wrong_mode cmd state.mode def))
      (resolve_command-owns_target state.type_def cmd.name.name cmd.positional_args def n h)
      (owns_none state.type_def)

-- The mode that a checked command leads to belongs to the type of the actor.
pub check_command-owns_target :
    (state : HealthyActor) (cmd : Command)
    → owns_target state.type_def (check_command (some state) cmd).transition ≡ true
unfolding check_command
check_command-owns_target state cmd = resolved-owns state cmd _ refl
