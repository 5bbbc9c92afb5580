-- ===== src/Harness/Kept.antt =====
-- What a run of a file leaves true of the world (crates/ill-core/src/runtime/harness.rs).
use mathlib.Core.List.{reverse}
use i_ll.Prelude.{String, Option, none, some, List, [], ◌∷◌, Result, ok, err}
use i_ll.Ast.{ActorDeclaration, TopLevel, SourceFile}
use i_ll.Errors.{RuntimeError}
use i_ll.Actor.{ActorType, actor_type_name, get_actor_type}
use i_ll.Assertion.{Regex}
use i_ll.Runtime.{ActorRuntime, ConstructArgs}
use i_ll.Diagnostic.{Diagnostic}
use i_ll.Harness.Actors.{Live, push, teardown_popped, teardown_all}
use i_ll.Harness.Block.{StatementReport, run_as_block}
use i_ll.Harness.Block.Kept.{Keeps, run_as_block-Kept}
use i_ll.Harness.{
  construct_args, construct_with, construct_as, construct_actor, Walk, after_construct, after_block,
  walk, execute, source_dir_of, run_validated_test_file,
}

module _ (R : ActorRuntime) (regex : String → Regex) (P : R.World → Type 0) (kept : Keeps R P) where
  construct_with-Kept :
      (t : ActorType) (args : Result RuntimeError ConstructArgs) (w : R.World)
      → P w
      → P (construct_with R regex t args w).1
  unfolding construct_with
  construct_with-Kept t (err e) w h = h
  construct_with-Kept t (ok args) w h = kept.constructs (actor_type_name t) args w h

  construct_as-Kept :
      (decl : ActorDeclaration) (source_dir : String) (t : Option ActorType) (w : R.World)
      → P w
      → P (construct_as R regex decl source_dir t w).1
  unfolding construct_as
  construct_as-Kept decl source_dir none w h = h
  construct_as-Kept decl source_dir (some t) w h =
      construct_with-Kept t (construct_args decl source_dir) w h

  made-Kept :
      (decl : ActorDeclaration) (c : Result String R.Instance × R.World) (actors : Live R)
      (k : Live R × R.World → Walk R regex)
      → P c.1
      → ((m : Live R × R.World) → P m.1 → P (k m).1.1)
      → P (after_construct R regex decl c actors k).1.1
  unfolding after_construct
  made-Kept decl (ok inst, w) actors k h next = next (push R decl.name.name inst actors, w) h
  made-Kept decl (err msg, w) actors k h next = h

  ran-Kept :
      (r : Option StatementReport × (Live R × R.World)) (k : Live R × R.World → Walk R regex)
      → P r.1.1
      → ((m : Live R × R.World) → P m.1 → P (k m).1.1)
      → P (after_block R regex r k).1.1
  unfolding after_block
  ran-Kept (none, m) k h next = next m h
  ran-Kept (some report, m) k h next = h

  walk-Kept :
      (source_dir : String) (items : List TopLevel) (m : Live R × R.World)
      → P m.1
      → P (walk R regex source_dir items m).1.1
  unfolding walk construct_actor
  walk-Kept source_dir [] m h = h
  walk-Kept source_dir (TopLevel.actor_declaration decl ∷ items) (actors, w) h =
      made-Kept decl (construct_actor R regex decl source_dir w) actors
        (walk R regex source_dir items)
        (construct_as-Kept decl source_dir (get_actor_type decl.actor_type.name) w h)
        (walk-Kept source_dir items)
  walk-Kept source_dir (TopLevel.as_block block ∷ items) m h =
      ran-Kept (run_as_block R regex block m) (walk R regex source_dir items)
        (run_as_block-Kept R regex P kept block m h) (walk-Kept source_dir items)

  popped-Kept : (actors : Live R) (w : R.World) → P w → P (teardown_popped R actors w).1
  unfolding teardown_popped
  popped-Kept [] w h = h
  popped-Kept ((name, inst) ∷ actors) w h =
      popped-Kept actors (R.teardown inst w).1 (kept.teardowns inst w h)

  execute-Kept :
      (path : String) (source : SourceFile) (source_dir : String) (w : R.World)
      → P w
      → P (execute R regex path source source_dir w).1
  unfolding execute teardown_all
  execute-Kept path source source_dir w h =
      popped-Kept (reverse (walk R regex source_dir source.items ([], w)).1.0) _
        (walk-Kept source_dir source.items ([], w) h)

  pub run_validated_test_file-Kept :
      (path : String) (parent : Option String) (ast : SourceFile) (w : R.World)
      → P w
      → P (run_validated_test_file R regex path parent ast w).1
  unfolding run_validated_test_file
  run_validated_test_file-Kept path parent ast w h =
      execute-Kept path ast (source_dir_of R regex parent) w h
