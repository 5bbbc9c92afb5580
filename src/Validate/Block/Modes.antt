-- ===== src/Validate/Block/Modes.antt =====
-- The mode invariant of the validator (crates/ill-core/src/validate.rs): an actor is always in a mode
-- of its own type.
use mathlib.Core.Path.{subst}
use i_ll.Prelude.{
  String, Bool, true, false, Option, none, some, List, [], ◌∷◌, All, ◌≡◌, refl, sym, ◌==◌, eq_refl,
  if◌then◌else◌,
}
use i_ll.Prelude.Maps.{Map, lookup, insert, lookup-insert}
use i_ll.Ast.{Span, Expr, Statement, Command, Let, LetValue, AsBlock}
use i_ll.Value.{ValueType}
use i_ll.Actor.{is_own, owns_target}
use i_ll.Actor.Command.{Mode}
use i_ll.Diagnostic.{Diagnostic}
use i_ll.Validate.Expr.{is_ok, expr_starts_with_ident}
use i_ll.Validate.Command.{HealthyActor, check_command}
use i_ll.Validate.Command.Transition.{owns_none, check_command-owns_target}
use i_ll.Validate.Block.{
  ActorState, healthy, errored, Actors, as_healthy, change, with_healthy, BlockState, enter,
  apply_pending, advance, note_let, note_assert, push_all, check_statement, check_body,
  check_as_block, check_found, block_start, check_let, check_new_command, set_var,
}

unfoldable pub WellModed : ActorState → Type 0
WellModed (healthy h) = is_own h.type_def h.mode ≡ true
WellModed errored = Unit

-- Every actor of the table is in a mode of its own type.
abbrev pub AllWellModed : Actors → Type 0
AllWellModed actors = All (λ entry. WellModed entry.1) actors

pub insert-AllWellModed :
    (name : String) (st : ActorState) (actors : Actors)
    → WellModed st
    → AllWellModed actors
    → AllWellModed (insert name st actors)
unfolding insert
insert-AllWellModed name st [] fits all = (fits, tt)
insert-AllWellModed name st ((n, old) ∷ actors) fits (first, rest) =
    choose (n == name) (insert-AllWellModed name st actors fits rest)
  where
    choose :
        (b : Bool)
        → AllWellModed (insert name st actors)
        → AllWellModed (if b then (name, st) ∷ actors else (n, old) ∷ insert name st actors)
    choose true more = (fits, rest)
    choose false more = (first, more)

some_eq : {a b : ActorState} → some a ≡ some b → a ≡ b
some_eq h = cc

lookup-WellModed :
    (name : String) (actors : Actors) (st : ActorState)
    → AllWellModed actors
    → lookup name actors ≡ some st
    → WellModed st
unfolding lookup
lookup-WellModed name [] st all h = cc
lookup-WellModed name ((n, old) ∷ actors) st (first, rest) h =
    choose (n == name) h (lookup-WellModed name actors st rest)
  where
    choose :
        (b : Bool)
        → (if b then some old else lookup name actors) ≡ some st
        → (lookup name actors ≡ some st → WellModed st)
        → WellModed st
    choose true here later = subst WellModed (some_eq here) first
    choose false there later = later there

insert_here :
    (name : String) (st : ActorState) (actors : Actors)
    → lookup name (insert name st actors) ≡ some st
insert_here name st actors = rw (lookup-insert name name st actors, eq_refl name) refl

-- A waiting transition is to a mode of the actor's own type.
abbrev Waits : Option HealthyActor → Option Mode → Type 0
Waits none pending = Unit
Waits (some h) pending = owns_target h.type_def pending ≡ true

record Ready (actor : String) (s : BlockState) : Type 0 where
  well_moded : AllWellModed s.actors
  waits : Waits (as_healthy (lookup actor s.actors)) s.pending

change-AllWellModed :
    (name : String) (f : HealthyActor → HealthyActor) (o : Option HealthyActor) (actors : Actors)
    → ((h : HealthyActor) → o ≡ some h → WellModed (healthy (f h)))
    → AllWellModed actors
    → AllWellModed (change name f o actors)
unfolding change
change-AllWellModed name f none actors fits all = all
change-AllWellModed name f (some h) actors fits all =
    insert-AllWellModed name (healthy (f h)) actors (fits h refl) all

as_healthy-some :
    (o : Option ActorState) {h : HealthyActor} → as_healthy o ≡ some h → o ≡ some (healthy h)
unfolding as_healthy
as_healthy-some none e = cc
as_healthy-some (some (healthy h)) e = cc
as_healthy-some (some errored) e = cc

Waits-WellModed :
    (o : Option HealthyActor) (m : Mode)
    → Waits o (some m)
    → (h : HealthyActor) → o ≡ some h
    → WellModed (healthy (record h { mode = m }))
unfolding WellModed owns_target
Waits-WellModed none m waits h e = cc
Waits-WellModed (some k) m waits h e = subst (λ o. Waits o (some m)) e waits

enter-AllWellModed :
    (name : String) (pending : Option Mode) (actors : Actors)
    → Waits (as_healthy (lookup name actors)) pending
    → AllWellModed actors
    → AllWellModed (enter name pending actors)
unfolding enter with_healthy
enter-AllWellModed name none actors waits all = all
enter-AllWellModed name (some m) actors waits all =
    change-AllWellModed name _ (as_healthy (lookup name actors)) actors (Waits-WellModed _ m waits)
      all

module _ (actor : String) where
  apply_pending-AllWellModed :
      (s : BlockState) → Ready actor s → AllWellModed (apply_pending actor s)
  unfolding apply_pending
  apply_pending-AllWellModed s ready = choose (is_ok s.outcome)
    where
      choose : (b : Bool) → AllWellModed (if b then enter actor s.pending s.actors else s.actors)
      choose true = enter-AllWellModed actor s.pending s.actors ready.waits ready.well_moded
      choose false = ready.well_moded

  -- What changes neither the actors nor what waits keeps the invariant.
  Ready-same :
      (s t : BlockState)
      → s.actors ≡ t.actors
      → s.pending ≡ t.pending
      → Ready actor s
      → Ready actor t
  Ready-same s t a p ready = record {
    well_moded = subst AllWellModed a ready.well_moded;
    waits =
        subst (λ q. Waits (as_healthy (lookup actor t.actors)) q) p
          (subst (λ b. Waits (as_healthy (lookup actor b)) s.pending) a ready.waits);
  }

  if-Ready :
      (b : Bool) (s t : BlockState)
      → Ready actor s
      → Ready actor t
      → Ready actor (if b then s else t)
  if-Ready true s t x y = x
  if-Ready false s t x y = y

  advance-Ready :
      (b : Bool) (span : Span) (s : BlockState) → Ready actor s → Ready actor (advance b span s)
  unfolding advance
  advance-Ready b span s ready = Ready-same s _ refl refl ready

  note_let-Ready :
      (e : Expr) (span : Span) (s : BlockState) → Ready actor s → Ready actor (note_let e span s)
  unfolding note_let
  note_let-Ready e span s ready =
      if-Ready (expr_starts_with_ident e "ok") _ _ (advance-Ready true span s ready)
        (if-Ready (expr_starts_with_ident e "error") _ _ (advance-Ready false span s ready) ready)

  note_assert-Ready :
      (e : Expr) (span : Span) (s : BlockState) → Ready actor s → Ready actor (note_assert e span s)
  unfolding note_assert
  note_assert-Ready e span s ready = if-Ready _ _ _ (advance-Ready _ span s ready) ready

  push_all-Ready :
      (ds : List Diagnostic) (s : BlockState) → Ready actor s → Ready actor (push_all s ds)
  unfolding push_all
  push_all-Ready ds s ready = Ready-same s _ refl refl ready

  change-Ready :
      (g : HealthyActor → Map ValueType) (o : Option HealthyActor) (s : BlockState)
      → as_healthy (lookup actor s.actors) ≡ o
      → Ready actor s
      → Ready actor (record s { actors = change actor (λ h. record h { vars = g h }) o s.actors })
  unfolding change WellModed as_healthy
  change-Ready g none s e ready = ready
  change-Ready g (some h) s e ready = record {
    well_moded =
        insert-AllWellModed actor (healthy (record h { vars = g h })) s.actors
          (lookup-WellModed actor s.actors (healthy h) ready.well_moded (as_healthy-some _ e))
          ready.well_moded;
    waits =
        subst (λ o. Waits (as_healthy o) s.pending)
          (sym (insert_here actor (healthy (record h { vars = g h })) s.actors))
          (subst (λ o. Waits o s.pending) e ready.waits);
  }

  set_var-Ready :
      (name : String) (ty : ValueType) (s : BlockState)
      → Ready actor s
      → Ready actor (set_var actor name ty s)
  unfolding set_var with_healthy
  set_var-Ready name ty s ready = change-Ready (λ h. insert name ty h.vars) _ s refl ready

  check_let-Ready :
      (l : Let) (v : LetValue) (s : BlockState)
      → Ready actor s
      → Ready actor (check_let actor l v s)
  unfolding check_let
  check_let-Ready l (LetValue.expr e) s ready =
      set_var-Ready _ _ _ (push_all-Ready _ _ (note_let-Ready e l.span s ready))
  check_let-Ready l (LetValue.parse source format) s ready =
      set_var-Ready _ _ _ (push_all-Ready _ s ready)

  transition-Waits :
      (o : Option HealthyActor) (cmd : Command) → Waits o (check_command o cmd).transition
  transition-Waits none cmd = tt
  transition-Waits (some h) cmd = check_command-owns_target h cmd

  check_statement-Ready :
      (stmt : Statement) (s : BlockState)
      → Ready actor s
      → Ready actor (check_statement actor stmt s)
  unfolding check_statement check_new_command
  check_statement-Ready (Statement.command cmd) s ready = record {
    well_moded = apply_pending-AllWellModed s ready;
    waits = transition-Waits _ cmd;
  }
  check_statement-Ready (Statement.let_ l) s ready = check_let-Ready l l.value s ready
  check_statement-Ready (Statement.assignment a) s ready = push_all-Ready _ s ready
  check_statement-Ready (Statement.assert a) s ready =
      push_all-Ready _ _ (note_assert-Ready a.left a.span s ready)

  check_body-Ready :
      (stmts : List Statement) (s : BlockState)
      → Ready actor s
      → Ready actor (check_body actor stmts s)
  unfolding check_body
  check_body-Ready [] s ready = ready
  check_body-Ready (stmt ∷ stmts) s ready =
      check_body-Ready stmts _ (check_statement-Ready stmt s ready)

  start-Ready :
      (actors : Actors) (ds : List Diagnostic)
      → AllWellModed actors
      → Ready actor (block_start actors ds)
  start-Ready actors ds all = record {
    well_moded = all;
    waits = none-Waits (as_healthy (lookup actor actors));
  }
    where
      none-Waits : (o : Option HealthyActor) → Waits o none
      none-Waits none = tt
      none-Waits (some h) = owns_none h.type_def

found-AllWellModed :
    (block : AsBlock) (o : Option ActorState) (actors : Actors) (ds : List Diagnostic)
    → AllWellModed actors
    → AllWellModed (check_found block o actors ds).0
unfolding check_found
found-AllWellModed block none actors ds all = all
found-AllWellModed block (some errored) actors ds all = all
found-AllWellModed block (some (healthy h)) actors ds all =
    apply_pending-AllWellModed block.actor.name _
      (check_body-Ready block.actor.name block.body _ (start-Ready block.actor.name actors ds all))

-- The check of a block keeps every actor in a mode of its own type.
pub check_as_block-AllWellModed :
    (block : AsBlock) (actors : Actors) (ds : List Diagnostic)
    → AllWellModed actors
    → AllWellModed (check_as_block block actors ds).0
unfolding check_as_block
check_as_block-AllWellModed block actors ds all =
    found-AllWellModed block (lookup block.actor.name actors) actors ds all
