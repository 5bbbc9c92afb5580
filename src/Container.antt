-- ===== src/Container.antt =====
-- The `container` actor at run time (crates/ill-core/src/actor_type/container/runtime.rs).
pub mod Daemon
pub mod Declared
use mathlib.Core.Option
use Prim.Native.Char.{code}
use Prim.Native.String.{◌∷◌}
use i_ll.Prelude.{
  ℕ, zero, suc, ◌*◌, String, ◌<>◌, Bool, true, false, ◌&&◌, ◌||◌, not, Option, none, some, List,
  Result, ok, err, ◌>>=◌, leb, nat_eq, if◌then◌else◌, ◌==◌, ◌≡◌, refl,
}
use i_ll.Prelude.Int.{ℤ, show_ℤ, pos, negsuc}
use i_ll.Prelude.Text.{is_empty, contains_str}
use i_ll.Value.{Value, Dict, get, type_name}
use i_ll.Value.Dicts.{insert}
use i_ll.Errors.{RuntimeError}
use i_ll.Actor.Command.{Mode, container_stopped, container_running}
use i_ll.Members.{Members, from_declarations, assigned_view}
use i_ll.Exec.{apply_env, is_absolute, join_path}
use i_ll.Runtime.{
  ConstructArgs, CommandArgs, kw, RunOutcome, TeardownOutcome, teardown_ok, teardown_failed,
}
use i_ll.Container.Daemon.{
  StartError, Removed, startup_timeout, other_error, removed, rm_timed_out, rm_failed, Request,
  Docker, run_error, run_ok, classify_run_error, split_image_ref, value_as_u16, internal_port_of,
  startup_timeout_of, container_env,
}

module _ (O : Docker) where
  pub data ContainerMode : Type 0 where
    stopped : ContainerMode
    running : O.Live → ContainerMode

  pub record ContainerInstance : Type 0 where
    pub image_name : String
    pub image_tag : String
    pub internal_port : Option ℕ
    pub mode : ContainerMode
    pub members : Members

  prepared :
      String
      → String
      → Option ℕ
      → Members
      → String
      → Option String × O.World
      → Result RuntimeError ContainerInstance × O.World
  prepared name tag internal_port members what (none, w) = (
    ok (record {
      image_name = name;
      image_tag = tag;
      internal_port = internal_port;
      mode = stopped;
      members = members;
    }),
    w,
  )
  prepared name tag internal_port members what (some e, w) =
      (err (RuntimeError.construct (what <> ("`: " <> e))), w)

  unfoldable pub prepare_from_image :
      String → Option ℕ → Members → O.World → Result RuntimeError ContainerInstance × O.World
  unfolding prepared split_image_ref
  prepare_from_image image_ref internal_port members w =
      let (name, tag) = split_image_ref image_ref in
      prepared name tag internal_port members ("pulling `" <> (name <> (":" <> tag)))
        (O.pull name tag w)

  unfoldable pub synthesize_image_name : String → String
  synthesize_image_name path = "ill-build-" <> O.hash_path path

  build_from :
      String → Bool → Option ℕ → Members → O.World → Result RuntimeError ContainerInstance × O.World
  unfolding prepared synthesize_image_name
  build_from resolved false internal_port members w =
      (err (RuntimeError.construct ("dockerfile not found: " <> resolved)), w)
  build_from resolved true internal_port members w =
      prepared (synthesize_image_name resolved) "latest" internal_port members
        ("building `" <> resolved) (O.build (synthesize_image_name resolved) "latest" resolved w)

  unfoldable pub prepare_from_dockerfile :
      String
      → String
      → Option ℕ
      → Members
      → O.World
      → Result RuntimeError ContainerInstance × O.World
  unfolding build_from
  prepare_from_dockerfile dockerfile source_dir internal_port members w =
      let resolved =
        if is_absolute dockerfile then dockerfile else join_path source_dir dockerfile in
      build_from resolved (O.is_file resolved w) internal_port members w

  prepare :
      Option Value
      → Option Value
      → String
      → Option ℕ
      → Members
      → O.World
      → Result RuntimeError ContainerInstance × O.World
  unfolding prepare_from_image prepare_from_dockerfile
  prepare (some v) (some v') source_dir port members w = (
    err (
        RuntimeError.construct
          "container requires exactly one of `image:` or `dockerfile:`, not both"),
    w,
  )
  prepare none none source_dir port members w =
      (err (RuntimeError.construct "container requires either `image:` or `dockerfile:`"), w)
  prepare (some (Value.string image_ref)) none source_dir port members w =
      prepare_from_image image_ref port members w
  prepare (some v) none source_dir port members w =
      (err (RuntimeError.type_mismatch "string" (type_name v) "container `image`"), w)
  prepare none (some (Value.string path_ref)) source_dir port members w =
      prepare_from_dockerfile path_ref source_dir port members w
  prepare none (some v) source_dir port members w =
      (err (RuntimeError.type_mismatch "string" (type_name v) "container `dockerfile`"), w)

  construct_with :
      ConstructArgs
      → Result RuntimeError (Option ℕ)
      → O.World
      → Result RuntimeError ContainerInstance × O.World
  unfolding prepare get
  construct_with args (err e) w = (err e, w)
  construct_with args (ok port) w =
      prepare (get "image" args.keyword) (get "dockerfile" args.keyword) args.source_dir port
        (from_declarations args.vars) w

  -- `ContainerInstance::construct`.
  unfoldable pub construct :
      ConstructArgs → O.World → Result RuntimeError ContainerInstance × O.World
  unfolding construct_with internal_port_of get
  construct args w = construct_with args (internal_port_of (get "internal_port" args.keyword)) w

  -- The mode after a step, its outcome, and the world.
  abbrev pub Step : Type 0
  Step = ContainerMode × RunOutcome × O.World

  after_start : Result StartError O.Live × O.World → Step
  after_start (ok live, w) = (running live, run_ok (O.id live), w)
  after_start (err e, w) = (stopped, run_error (classify_run_error e), w)

  start_with :
      ContainerInstance
      → Option (ℕ × ℕ)
      → Option (List (String × String))
      → Option Value
      → O.World
      → Step
  unfolding after_start startup_timeout_of
  start_with inst ports none timeout w = (stopped, run_error "bad_env", w)
  start_with inst ports (some env) timeout w = after_start (
      O.start
        (record {
          image_name = inst.image_name;
          image_tag = inst.image_tag;
          mapped_port = ports;
          env = env;
          startup_timeout = startup_timeout_of timeout;
        })
        w)

  -- The ports to publish: none is given, or the host's with that of the container, or an error.
  mapped_port : Option (Option ℕ) → Option ℕ → Option (Option (ℕ × ℕ))
  mapped_port none internal = some none
  mapped_port (some none) internal = none
  mapped_port (some (some host)) none = none
  mapped_port (some (some host)) (some container) = some (some (host, container))

  run_mapped :
      ContainerInstance → Option (Option (ℕ × ℕ)) → Option Value → Option Value → O.World → Step
  unfolding start_with container_env
  run_mapped inst none env timeout w = (stopped, run_error "bad_port", w)
  run_mapped inst (some ports) env timeout w = start_with inst ports (container_env env) timeout w

  -- `Stopped::run` with the keyword arguments `external_port`, `env` and `timeout`.
  unfoldable pub run :
      ContainerInstance → Option Value → Option Value → Option Value → O.World → Step
  unfolding run_mapped mapped_port value_as_u16
  run inst external_port env timeout w =
      run_mapped inst (mapped_port (Option.map value_as_u16 external_port) inst.internal_port) env
        timeout w

  after_stop : Removed × O.World → Step
  after_stop (removed, w) = (stopped, RunOutcome.ok Dict.empty, w)
  after_stop (rm_failed e, w) = (stopped, run_error "docker_unavailable", w)
  after_stop (rm_timed_out, w) = (stopped, run_error "timeout", w)

  -- `Running::stop`.
  unfoldable pub stop : O.Live → O.World → Step
  unfolding after_stop
  stop live w = after_stop (O.rm live w)

  step : ContainerMode → ContainerInstance → String → CommandArgs → O.World → Step
  unfolding kw
  step stopped inst cmd args w =
      if cmd == "run"
      then run inst (kw args "external_port") (kw args "env") (kw args "timeout") w
      else if cmd == "stop"
      then (stopped, run_error "not_running", w)
      else (stopped, RunOutcome.not_implemented "container" cmd, w)
  step (running live) inst cmd args w =
      if cmd == "run"
      then (running live, run_error "already_running", w)
      else if cmd == "stop"
      then stop live w
      else (running live, RunOutcome.not_implemented "container" cmd, w)

  enter : ContainerInstance → Step → RunOutcome × ContainerInstance × O.World
  enter inst (next, outcome, w) = (outcome, record inst { mode = next }, w)

  -- `ActorInstance::execute`.
  unfoldable pub execute :
      ContainerInstance → String → CommandArgs → O.World → RunOutcome × ContainerInstance × O.World
  unfolding step enter
  execute inst cmd args w = enter inst (step inst.mode inst cmd args w)

  removal : Removed × O.World → TeardownOutcome × O.World
  removal (removed, w) = (teardown_ok, w)
  removal (rm_failed e, w) = (teardown_failed ("rm failed: " <> e), w)
  removal (rm_timed_out, w) = (teardown_failed "rm timed out after 15s", w)

  teardown_mode : ContainerMode → O.World → TeardownOutcome × O.World
  unfolding removal
  teardown_mode stopped w = (teardown_ok, w)
  teardown_mode (running live) w = removal (O.rm live w)

  -- `ActorInstance::teardown`: whatever comes of it, the mode is `stopped` afterwards.
  unfoldable pub teardown :
      ContainerInstance → O.World → TeardownOutcome × ContainerInstance × O.World
  unfolding teardown_mode
  teardown inst w =
      let (outcome, w') = teardown_mode inst.mode w in (outcome, record inst { mode = stopped }, w')

  unfoldable pub self_view : ContainerInstance → Option Dict
  self_view inst = some (assigned_view inst.members)

  -- The static mode that a mode at run time stands for.
  unfoldable pub mode_of : ContainerMode → Mode
  mode_of stopped = container_stopped
  mode_of (running live) = container_running
