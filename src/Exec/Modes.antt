-- ===== src/Exec/Modes.antt =====
-- The mode of the `exec` actor at run time against its static description
-- (crates/ill-core/src/actor_type/exec/runtime.rs and commands.rs).
use i_ll.Prelude.{
  String, Bool, true, false, Option, none, some, List, Result, ok, err, ◌≡◌, refl, if◌then◌else◌,
  ◌==◌,
}
use i_ll.Value.{Value}
use i_ll.Actor.Command.{Mode}
use i_ll.Actor.Process.{exec_run}
use i_ll.Runtime.{CommandArgs, kw, RunOutcome, teardown_ok}
use i_ll.Exec.{
  Os, SpawnError, ExecMode, stopped, running, ExecInstance, Step, run_ok, run_error, after_spawn,
  spawn_with, split_run, run, stopped_execute, running_execute, step, enter, execute, teardown_mode,
  teardown, mode_of, apply_env,
}

abbrev pub succeeded : RunOutcome → Bool
succeeded (RunOutcome.ok fields) = true
succeeded (RunOutcome.error variant fields) = false
succeeded (RunOutcome.not_implemented actor cmd) = false

abbrev pub target_or : Option Mode → Mode → Mode
target_or none before = before
target_or (some m) before = m

module _ (O : Os) where
  -- A step from `before` that moves to the target of `run` if it succeeds, and stays otherwise.
  Moves : Mode → Step O → Type 0
  Moves before s =
      mode_of O s.0 ≡ (if succeeded s.1 then target_or exec_run.transitions_to before else before)

  spawn-Moves :
      (r : Result SpawnError O.Child × O.World) → Moves (mode_of O stopped) (after_spawn O r)
  unfolding Moves after_spawn run_ok run_error exec_run mode_of
  spawn-Moves (ok child, w) = refl
  spawn-Moves (err e, w) = refl

  with-Moves :
      (inst : ExecInstance O) (program : String) (rest : List String)
      (env : Option (List (String × String))) (w : O.World)
      → Moves (mode_of O stopped) (spawn_with O inst program rest env w)
  unfolding spawn_with
  with-Moves inst program rest none w = unfold Moves run_error in refl
  with-Moves inst program rest (some env) w = spawn-Moves _

  split-Moves :
      (inst : ExecInstance O) (parts : Option (List String)) (env : Option Value) (w : O.World)
      → Moves (mode_of O stopped) (split_run O inst parts env w)
  unfolding split_run
  split-Moves inst none env w = unfold Moves run_error in refl
  split-Moves inst (some List.[]) env w = unfold Moves run_error in refl
  split-Moves inst (some (List.◌∷◌ program rest)) env w =
      with-Moves inst program rest (apply_env env) w

  if-Moves :
      (before : Mode) (b : Bool) (s t : Step O)
      → Moves before s
      → Moves before t
      → Moves before (if b then s else t)
  if-Moves before true s t x y = x
  if-Moves before false s t x y = y

  step-Moves :
      (mode : ExecMode O) (inst : ExecInstance O) (cmd : String) (args : CommandArgs) (w : O.World)
      → Moves (mode_of O mode) (step O mode inst cmd args w)
  unfolding step stopped_execute running_execute run
  step-Moves stopped inst cmd args w =
      if-Moves _ (cmd == "run") _ _ (split-Moves inst (O.split inst.target) (kw args "env") w)
        (unfold Moves in refl)
  step-Moves (running child) inst cmd args w =
      if-Moves _ (cmd == "run") _ _ (unfold Moves run_error in refl) (unfold Moves in refl)

  -- A command that succeeds leaves the actor in the mode that the static description of `run` names,
  -- and one that fails or is not implemented leaves it in the mode that it was in.
  pub execute-mode_of :
      (inst : ExecInstance O) (cmd : String) (args : CommandArgs) (w : O.World)
      → mode_of O (execute O inst cmd args w).1.mode ≡ (
          if succeeded (execute O inst cmd args w).0
          then target_or exec_run.transitions_to (mode_of O inst.mode)
          else mode_of O inst.mode)
  unfolding execute enter Moves
  execute-mode_of inst cmd args w = step-Moves inst.mode inst cmd args w

  -- After a teardown, whatever came of it, another one succeeds and changes nothing.
  pub teardown-teardown :
      (inst : ExecInstance O) (w w' : O.World)
      → teardown O (teardown O inst w).1 w' ≡ (teardown_ok, (teardown O inst w).1, w')
  unfolding teardown teardown_mode
  teardown-teardown inst w w' = refl
