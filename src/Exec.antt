-- ===== src/Exec.antt =====
-- The `exec` actor at run time (crates/ill-core/src/actor_type/exec/runtime.rs), on Unix.
pub mod Modes
pub mod Outcomes
use Prim.Native.Char.{code}
use Prim.Native.String.{◌∷◌}
use i_ll.Prelude.{
  ℕ, String, ◌<>◌, Bool, true, false, ◌||◌, Option, none, some, List, Result, ok, err, ◌>>=◌,
  map_ok, nat_eq, if◌then◌else◌, ◌==◌,
}
use i_ll.Prelude.Int.{show_ℤ, pos}
use i_ll.Prelude.Text.{is_empty, contains_str}
use i_ll.Value.{Value, Dict, get, type_name}
use i_ll.Value.Dicts.{insert}
use i_ll.Errors.{RuntimeError}
use i_ll.Actor.Command.{Mode, exec_stopped, exec_running}
use i_ll.Runtime.{
  ConstructArgs, CommandArgs, kw, RunOutcome, TeardownOutcome, teardown_ok, teardown_failed,
}

pub data SpawnError : Type 0 where
  not_found permission_denied other_kind : SpawnError

-- What waiting for a child for a while gives.
pub data Waited : Type 0 where
  exited timed_out : Waited
  wait_failed : String → Waited

-- The crates `shlex` and `tokio` and the operating system below them.
pub record Os : Type 1 where
  pub World : Type 0
  pub Child : Type 0
  pub split : String → Option (List String)
  pub is_dir : String → World → Bool
  pub spawn :
      String
      → List String
      → String
      → List (String × String)
      → World
      → Result SpawnError Child × World
  pub id : Child → Option ℕ
  pub sigterm : ℕ → World → World
  pub wait : Child → World → Waited × World
  pub start_kill : Child → World → Option String × World
  pub reap : Child → World → World

-- `Path::is_absolute` and `Path::join` of a relative path.
unfoldable pub is_absolute : String → Bool
is_absolute String.[] = false
is_absolute (c ∷ s) = nat_eq (code c) b'/'

ends_in_slash : String → Bool
ends_in_slash String.[] = false
ends_in_slash (c ∷ String.[]) = nat_eq (code c) b'/'
ends_in_slash (c ∷ d ∷ s) = ends_in_slash (d ∷ s)

unfoldable pub join_path : String → String → String
unfolding ends_in_slash
join_path base p = if is_empty base || ends_in_slash base then base <> p else base <> ("/" <> p)

unfoldable pub resolve_program : String → String → String
resolve_program program source_dir =
    if is_absolute program
    then program
    else if contains_str program "/" || contains_str program "\\"
    then join_path source_dir program
    else program

-- `ExecError::into_dict` and `RunOk::into_dict`.
unfoldable pub run_error : String → RunOutcome
unfolding insert
run_error reason = RunOutcome.error "exec" (insert "reason" (Value.atom reason) Dict.empty)

unfoldable pub run_ok : ℕ → RunOutcome
unfolding insert
run_ok pid = RunOutcome.ok (insert "pid" (Value.number (pos pid)) Dict.empty)

unfoldable pub classify_spawn_error : SpawnError → String
classify_spawn_error not_found = "command_not_found"
classify_spawn_error permission_denied = "permission_denied"
classify_spawn_error other_kind = "spawn_failed"

env_text : Value → Option String
env_text (Value.string s) = some s
env_text (Value.number n) = some (show_ℤ n)
env_text (Value.bool true) = some "true"
env_text (Value.bool false) = some "false"
env_text (Value.atom a) = some a
env_text v = none

with_entry :
    String → Option String → Option (List (String × String)) → Option (List (String × String))
with_entry k (some s) (some rest) = some (List.◌∷◌ (k, s) rest)
with_entry k _ _ = none

env_entries : Dict → Option (List (String × String))
unfolding env_text with_entry
env_entries Dict.empty = some List.[]
env_entries (Dict.entry k v d) = with_entry k (env_text v) (env_entries d)

-- `apply_env`: the variables that are set, unless a value is no text; without `env` there are none.
unfoldable pub apply_env : Option Value → Option (List (String × String))
unfolding env_entries
apply_env none = some List.[]
apply_env (some (Value.dict d)) = env_entries d
apply_env (some v) = none

or_zero : Option ℕ → ℕ
or_zero none = 0
or_zero (some n) = n

module _ (O : Os) where
  pub data ExecMode : Type 0 where
    stopped : ExecMode
    running : O.Child → ExecMode

  pub record ExecInstance : Type 0 where
    pub target : String
    pub source_dir : String
    pub working_dir : String
    pub mode : ExecMode

  target_of : Option Value → Result RuntimeError String
  target_of none = err (RuntimeError.missing_kwarg "command")
  target_of (some (Value.string s)) = ok s
  target_of (some v) = err (RuntimeError.type_mismatch "string" (type_name v) "exec `command`")

  existing : String → Bool → Result RuntimeError String
  existing resolved true = ok resolved
  existing resolved false =
      err (RuntimeError.construct ("exec `cwd` does not exist or is not a directory: " <> resolved))

  unfoldable pub resolve_cwd : String → String → O.World → Result RuntimeError String
  unfolding existing
  resolve_cwd cwd source_dir w =
      let resolved = if is_absolute cwd then cwd else join_path source_dir cwd in
      if is_empty cwd
      then err (RuntimeError.construct "exec `cwd` must not be empty")
      else existing resolved (O.is_dir resolved w)

  working_dir_of : Option Value → String → O.World → Result RuntimeError String
  working_dir_of none source_dir w = ok source_dir
  working_dir_of (some (Value.string s)) source_dir w = resolve_cwd s source_dir w
  working_dir_of (some v) source_dir w =
      err (RuntimeError.type_mismatch "string" (type_name v) "exec `cwd`")

  unfoldable pub construct : ConstructArgs → O.World → Result RuntimeError ExecInstance
  unfolding get target_of working_dir_of
  construct args w = do
    target ← target_of (get "command" args.keyword)
    working_dir ← working_dir_of (get "cwd" args.keyword) args.source_dir w
    ok (record {
      target = target;
      source_dir = args.source_dir;
      working_dir = working_dir;
      mode = stopped;
    })

  -- The mode after a step, its outcome, and the world.
  abbrev pub Step : Type 0
  Step = ExecMode × RunOutcome × O.World

  after_spawn : Result SpawnError O.Child × O.World → Step
  after_spawn (ok child, w) = (running child, run_ok (or_zero (O.id child)), w)
  after_spawn (err e, w) = (stopped, run_error (classify_spawn_error e), w)

  spawn_with :
      ExecInstance → String → List String → Option (List (String × String)) → O.World → Step
  unfolding after_spawn or_zero
  spawn_with inst program rest none w = (stopped, run_error "bad_env", w)
  spawn_with inst program rest (some env) w =
      after_spawn (O.spawn (resolve_program program inst.source_dir) rest inst.working_dir env w)

  split_run : ExecInstance → Option (List String) → Option Value → O.World → Step
  unfolding spawn_with
  split_run inst none env w = (stopped, run_error "invalid_command", w)
  split_run inst (some List.[]) env w = (stopped, run_error "invalid_command", w)
  split_run inst (some (List.◌∷◌ program rest)) env w =
      spawn_with inst program rest (apply_env env) w

  -- `Stopped::run`.
  unfoldable pub run : ExecInstance → Option Value → O.World → Step
  unfolding split_run
  run inst env w = split_run inst (O.split inst.target) env w

  unfoldable pub stopped_execute : ExecInstance → String → CommandArgs → O.World → Step
  unfolding kw
  stopped_execute inst cmd args w =
      if cmd == "run"
      then run inst (kw args "env") w
      else (stopped, RunOutcome.not_implemented "exec" cmd, w)

  unfoldable pub running_execute : O.Child → String → O.World → Step
  running_execute child cmd w =
      if cmd == "run"
      then (running child, run_error "already_running", w)
      else (running child, RunOutcome.not_implemented "exec" cmd, w)

  step : ExecMode → ExecInstance → String → CommandArgs → O.World → Step
  step stopped inst cmd args w = stopped_execute inst cmd args w
  step (running child) inst cmd args w = running_execute child cmd w

  enter : ExecInstance → Step → RunOutcome × ExecInstance × O.World
  enter inst (next, outcome, w) = (outcome, record inst { mode = next }, w)

  -- `ActorInstance::execute`.
  unfoldable pub execute :
      ExecInstance → String → CommandArgs → O.World → RunOutcome × ExecInstance × O.World
  unfolding step enter
  execute inst cmd args w = enter inst (step inst.mode inst cmd args w)

  terminate : Option ℕ → O.World → O.World
  terminate none w = w
  terminate (some pid) w = O.sigterm pid w

  killed : Option String → TeardownOutcome
  killed none = teardown_ok
  killed (some e) = teardown_failed ("kill failed: " <> e)

  after_wait : O.Child → Waited × O.World → TeardownOutcome × O.World
  unfolding killed
  after_wait child (exited, w) = (teardown_ok, w)
  after_wait child (wait_failed e, w) = (teardown_failed ("wait failed: " <> e), w)
  after_wait child (timed_out, w) =
      let (kill, w') = O.start_kill child w in (killed kill, O.reap child w')

  -- `Running::stop`.
  unfoldable pub stop : O.Child → O.World → TeardownOutcome × O.World
  unfolding after_wait terminate
  stop child w = after_wait child (O.wait child (terminate (O.id child) w))

  teardown_mode : ExecMode → O.World → TeardownOutcome × O.World
  teardown_mode stopped w = (teardown_ok, w)
  teardown_mode (running child) w = stop child w

  -- `ActorInstance::teardown`: whatever comes of it, the mode is `stopped` afterwards.
  unfoldable pub teardown : ExecInstance → O.World → TeardownOutcome × ExecInstance × O.World
  unfolding teardown_mode
  teardown inst w =
      let (outcome, w') = teardown_mode inst.mode w in (outcome, record inst { mode = stopped }, w')

  -- The static mode that a mode at run time stands for.
  unfoldable pub mode_of : ExecMode → Mode
  mode_of stopped = exec_stopped
  mode_of (running child) = exec_running
