-- ===== src/Exec/Outcomes.antt =====
-- The outcomes of the `exec` actor at run time against the schema that its command declares
-- (crates/ill-core/src/actor_type/exec/runtime.rs and commands.rs).
use i_ll.Prelude.{
  ℕ, String, Bool, true, false, ◌&&◌, Option, none, some, List, Result, ok, err, all, find, ◌==◌,
  length, nat_eq, ◌≡◌, refl,
}
use i_ll.Value.{Value, Dict, get, len, holds, is_of_type}
use i_ll.Actor.Command.{OutcomeField, ErrorTypeDef, CommandDef}
use i_ll.Actor.Process.{exec_run}
use i_ll.Runtime.{CommandArgs, kw, RunOutcome}
use i_ll.Exec.{
  Os, SpawnError, ExecMode, stopped, running, ExecInstance, run_ok, run_error, after_spawn,
  spawn_with, split_run, run, stopped_execute, running_execute, step, enter, execute, apply_env,
}

-- The dictionary has the declared fields, each of its type, and no other.
unfoldable pub fits : List OutcomeField → Dict → Bool
fits fields d =
    nat_eq (length fields) (len d)
    && all (λ (f : OutcomeField). holds (λ v. is_of_type v f.ty) (get f.name d)) fields

variant_fits : Option ErrorTypeDef → Dict → Bool
unfolding fits
variant_fits none d = false
variant_fits (some t) d = fits t.fields d

-- The outcome is one that the command declares.
unfoldable pub conforms : CommandDef → RunOutcome → Bool
unfolding fits variant_fits
conforms def (RunOutcome.ok fields) = fits def.ok_fields fields
conforms def (RunOutcome.error variant fields) =
    variant_fits (find (λ (t : ErrorTypeDef). t.name == variant) def.error_types) fields
conforms def (RunOutcome.not_implemented actor cmd) = false

run_error-conforms : (reason : String) → conforms exec_run (run_error reason) ≡ true
unfolding conforms exec_run run_error get len is_of_type
run_error-conforms reason = refl

run_ok-conforms : (pid : ℕ) → conforms exec_run (run_ok pid) ≡ true
unfolding conforms exec_run run_ok get len is_of_type
run_ok-conforms pid = refl

module _ (O : Os) where
  spawn-conforms :
      (r : Result SpawnError O.Child × O.World) → conforms exec_run (after_spawn O r).1 ≡ true
  unfolding after_spawn
  spawn-conforms (ok child, w) = run_ok-conforms _
  spawn-conforms (err e, w) = run_error-conforms _

  with-conforms :
      (inst : ExecInstance O) (program : String) (rest : List String)
      (env : Option (List (String × String))) (w : O.World)
      → conforms exec_run (spawn_with O inst program rest env w).1 ≡ true
  unfolding spawn_with
  with-conforms inst program rest none w = run_error-conforms _
  with-conforms inst program rest (some env) w = spawn-conforms _

  split-conforms :
      (inst : ExecInstance O) (parts : Option (List String)) (env : Option Value) (w : O.World)
      → conforms exec_run (split_run O inst parts env w).1 ≡ true
  unfolding split_run
  split-conforms inst none env w = run_error-conforms _
  split-conforms inst (some List.[]) env w = run_error-conforms _
  split-conforms inst (some (List.◌∷◌ program rest)) env w =
      with-conforms inst program rest (apply_env env) w

  step-conforms :
      (mode : ExecMode O) (inst : ExecInstance O) (args : CommandArgs) (w : O.World)
      → conforms exec_run (step O mode inst exec_run.name args w).1 ≡ true
  unfolding step stopped_execute running_execute run exec_run
  step-conforms stopped inst args w = split-conforms inst (O.split inst.target) (kw args "env") w
  step-conforms (running child) inst args w = run_error-conforms "already_running"

  -- In every mode, `run` is implemented, and its outcome has the fields that the command declares
  -- for success, or those that it declares for the variant of the error, with the declared types and
  -- no others.
  pub execute-conforms :
      (inst : ExecInstance O) (args : CommandArgs) (w : O.World)
      → conforms exec_run (execute O inst exec_run.name args w).0 ≡ true
  unfolding execute enter
  execute-conforms inst args w = step-conforms inst.mode inst args w
