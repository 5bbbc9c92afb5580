-- ===== src/Container/Declared.antt =====
-- The commands of the `container` actor at run time against their static description
-- (crates/ill-core/src/actor_type/container/runtime.rs and commands.rs).
use i_ll.Prelude.{
  ℕ, String, true, ◌||◌, Option, none, some, List, Result, ok, err, ◌≡◌, refl, ◌⊎◌, inl, inr,
  if◌then◌else◌, ◌==◌,
}
use i_ll.Value.{Value, get, len, is_of_type}
use i_ll.Actor.Command.{Mode, CommandDef}
use i_ll.Actor.Process.{container_run, container_stop}
use i_ll.Runtime.{CommandArgs}
use i_ll.Exec.Modes.{succeeded, target_or}
use i_ll.Exec.Outcomes.{conforms}
use i_ll.Container.Daemon.{
  StartError, Removed, removed, rm_timed_out, rm_failed, Docker, run_error, run_ok, container_env,
}
use i_ll.Container.{
  ContainerMode, stopped, running, ContainerInstance, Step, after_start, start_with, run_mapped,
  run, after_stop, stop, step, enter, execute, mode_of,
}

module _ (O : Docker) where
  -- The outcome is one that the command declares, and the mode is the command's target if the command
  -- succeeded or is `stop`, and the mode before otherwise.
  Declared : Mode → CommandDef → Step O → Type 0
  Declared before def s =
      (conforms def s.1 ≡ true)
      × (mode_of O s.0 ≡ (
          if succeeded s.1 || def.name == "stop"
          then target_or def.transitions_to before
          else before))

  error-Declared :
      (mode : ContainerMode O) (reason : String) (w : O.World)
      → Declared (mode_of O mode) container_run (mode, run_error reason, w)
  unfolding Declared conforms container_run run_error get len is_of_type
  error-Declared mode reason w = (refl, refl)

  start-Declared :
      (r : Result StartError O.Live × O.World)
      → Declared (mode_of O stopped) container_run (after_start O r)
  unfolding after_start
  start-Declared (ok live, w) =
      unfold Declared conforms container_run run_ok get len is_of_type mode_of in (refl, refl)
  start-Declared (err e, w) = error-Declared stopped _ w

  with-Declared :
      (inst : ContainerInstance O) (ports : Option (ℕ × ℕ)) (env : Option (List (String × String)))
      (timeout : Option Value) (w : O.World)
      → Declared (mode_of O stopped) container_run (start_with O inst ports env timeout w)
  unfolding start_with
  with-Declared inst ports none timeout w = error-Declared stopped _ w
  with-Declared inst ports (some env) timeout w = start-Declared _

  mapped-Declared :
      (inst : ContainerInstance O) (ports : Option (Option (ℕ × ℕ))) (env timeout : Option Value)
      (w : O.World)
      → Declared (mode_of O stopped) container_run (run_mapped O inst ports env timeout w)
  unfolding run_mapped
  mapped-Declared inst none env timeout w = error-Declared stopped _ w
  mapped-Declared inst (some ports) env timeout w =
      with-Declared inst ports (container_env env) timeout w

  stop-Declared :
      (r : Removed × O.World) (live : O.Live)
      → Declared (mode_of O (running live)) container_stop (after_stop O r)
  unfolding after_stop Declared conforms container_stop run_error get len is_of_type mode_of
  stop-Declared (removed, w) live = (refl, refl)
  stop-Declared (rm_failed e, w) live = (refl, refl)
  stop-Declared (rm_timed_out, w) live = (refl, refl)

  run_step-Declared :
      (mode : ContainerMode O) (inst : ContainerInstance O) (args : CommandArgs) (w : O.World)
      → Declared (mode_of O mode) container_run (step O mode inst "run" args w)
  unfolding step run
  run_step-Declared stopped inst args w = mapped-Declared inst _ _ _ w
  run_step-Declared (running live) inst args w = error-Declared (running live) "already_running" w

  stop_step-Declared :
      (mode : ContainerMode O) (inst : ContainerInstance O) (args : CommandArgs) (w : O.World)
      → Declared (mode_of O mode) container_stop (step O mode inst "stop" args w)
  unfolding step stop
  stop_step-Declared stopped inst args w =
      unfold Declared conforms container_stop run_error get len is_of_type mode_of in (refl, refl)
  stop_step-Declared (running live) inst args w = stop-Declared (O.rm live w) live

  step-Declared :
      (def : CommandDef) (mode : ContainerMode O) (inst : ContainerInstance O) (args : CommandArgs)
      (w : O.World)
      → (def ≡ container_run) ⊎ (def ≡ container_stop)
      → Declared (mode_of O mode) def (step O mode inst def.name args w)
  unfolding container_run container_stop
  step-Declared def mode inst args w (inl e) = rw e (run_step-Declared mode inst args w)
  step-Declared def mode inst args w (inr e) = rw e (stop_step-Declared mode inst args w)

  -- Each declared command of the `container` actor is implemented in every mode: its outcome has the
  -- fields that the command declares for success or for the error, with the declared types. If it
  -- succeeds, the actor is in the mode that the static description names; `stop` moves there even if
  -- it fails, and a failed `run` leaves the mode as it was.
  pub execute-declared :
      (inst : ContainerInstance O) (def : CommandDef) (args : CommandArgs) (w : O.World)
      → (def ≡ container_run) ⊎ (def ≡ container_stop)
      → (conforms def (execute O inst def.name args w).0 ≡ true)
        × (mode_of O (execute O inst def.name args w).1.mode ≡ (
            if succeeded (execute O inst def.name args w).0 || def.name == "stop"
            then target_or def.transitions_to (mode_of O inst.mode)
            else mode_of O inst.mode))
  unfolding execute enter Declared
  execute-declared inst def args w declared = step-Declared def inst.mode inst args w declared
