-- ===== src/Validate/Modes.antt =====
-- The mode invariant over a whole file (crates/ill-core/src/validate.rs).
use i_ll.Prelude.{Option, none, some, List, [], ◌∷◌, ◌≡◌, refl, true}
use i_ll.Prelude.Maps.{lookup}
use i_ll.Ast.{ActorDeclaration, TopLevel}
use i_ll.Actor.{
  ActorType, get_actor_type, initial_mode, is_own, actor_type_name, pg_client, container, exec,
  http_client, mqtt_client, args_actor,
}
use i_ll.Actor.Command.{mode_actor_type}
use i_ll.Validate.Block.{ActorState, healthy, errored}
use i_ll.Validate.Block.Modes.{
  WellModed, AllWellModed, insert-AllWellModed, check_as_block-AllWellModed,
}
use i_ll.Validate.{State, register_actor, register_over, declare_as, register_all, check_blocks}

starts_own : (t : ActorType) → is_own t (initial_mode t) ≡ true
unfolding is_own initial_mode actor_type_name mode_actor_type
starts_own pg_client = refl
starts_own container = refl
starts_own exec = refl
starts_own http_client = refl
starts_own mqtt_client = refl
starts_own args_actor = refl

declare-AllWellModed :
    (decl : ActorDeclaration) (found : Option ActorType) (s : State)
    → AllWellModed s.0
    → AllWellModed (declare_as decl found s).0
unfolding declare_as WellModed
declare-AllWellModed decl none (actors, ds) all =
    insert-AllWellModed decl.name.name errored actors tt all
declare-AllWellModed decl (some t) (actors, ds) all =
    insert-AllWellModed decl.name.name (healthy _) actors (starts_own t) all

over-AllWellModed :
    (decl : ActorDeclaration) (found : Option ActorState) (s : State)
    → AllWellModed s.0
    → AllWellModed (register_over decl found s).0
unfolding register_over
over-AllWellModed decl (some (healthy h)) (actors, ds) all = all
over-AllWellModed decl none s all =
    declare-AllWellModed decl (get_actor_type decl.actor_type.name) s all
over-AllWellModed decl (some errored) s all =
    declare-AllWellModed decl (get_actor_type decl.actor_type.name) s all

register_all-AllWellModed :
    (items : List TopLevel) (s : State) → AllWellModed s.0 → AllWellModed (register_all items s).0
unfolding register_all register_actor
register_all-AllWellModed [] s all = all
register_all-AllWellModed (TopLevel.actor_declaration d ∷ items) (actors, ds) all =
    register_all-AllWellModed items _
      (over-AllWellModed d (lookup d.name.name actors) (actors, ds) all)
register_all-AllWellModed (TopLevel.as_block b ∷ items) s all =
    register_all-AllWellModed items s all

check_blocks-AllWellModed :
    (items : List TopLevel) (s : State) → AllWellModed s.0 → AllWellModed (check_blocks items s).0
unfolding check_blocks
check_blocks-AllWellModed [] s all = all
check_blocks-AllWellModed (TopLevel.actor_declaration d ∷ items) s all =
    check_blocks-AllWellModed items s all
check_blocks-AllWellModed (TopLevel.as_block b ∷ items) (actors, ds) all =
    check_blocks-AllWellModed items _ (check_as_block-AllWellModed b actors ds all)

-- After the declarations of a file and any of its blocks, every actor that was declared well is in
-- a mode of its own type.
pub validated-AllWellModed :
    (items blocks : List TopLevel)
    → AllWellModed (check_blocks blocks (register_all items ([], []))).0
validated-AllWellModed items blocks =
    check_blocks-AllWellModed blocks (register_all items ([], []))
      (register_all-AllWellModed items ([], []) tt)
