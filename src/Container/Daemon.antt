-- ===== src/Container/Daemon.antt =====
-- What the `container` actor asks of docker (crates/ill-core/src/actor_type/container/runtime.rs): the
-- request that starts a container, image references, ports and timeouts, and the reasons of errors.
use Prim.Native.Char.{code}
use Prim.Native.String.{◌∷◌}
use i_ll.Prelude.{
  ℕ, suc, String, ◌<>◌, Bool, ◌&&◌, ◌||◌, not, Option, none, some, List, Result, ok, err, leb,
  nat_eq, if◌then◌else◌, ◌≡◌, refl,
}
use i_ll.Prelude.Int.{ℤ, show_ℤ, pos, negsuc}
use i_ll.Prelude.Text.{is_empty, contains_str}
use i_ll.Value.{Value, Dict, type_name}
use i_ll.Value.Dicts.{insert}
use i_ll.Errors.{RuntimeError}
use i_ll.Exec.{apply_env}
use i_ll.Runtime.{RunOutcome}

-- An error of `start`: the startup timeout, or any other one as it is displayed.
pub data StartError : Type 0 where
  startup_timeout : StartError
  other_error : String → StartError

-- What waiting for `rm` for at most `TEARDOWN_TIMEOUT` gives.
pub data Removed : Type 0 where
  removed rm_timed_out : Removed
  rm_failed : String → Removed

-- A `ContainerRequest` as `run` builds it: host and container port, environment, and milliseconds
-- for the start. It always has the label.
pub record Request : Type 0 where
  pub image_name : String
  pub image_tag : String
  pub mapped_port : Option (ℕ × ℕ)
  pub env : List (String × String)
  pub startup_timeout : ℕ

-- The crate `testcontainers` with the docker daemon, the file system, and the hash of a path in
-- hexadecimal.
pub record Docker : Type 1 where
  pub World : Type 0
  pub Live : Type 0
  pub is_file : String → World → Bool
  pub hash_path : String → String
  pub pull : String → String → World → Option String × World
  pub build : String → String → String → World → Option String × World
  pub start : Request → World → Result StartError Live × World
  pub id : Live → String
  pub rm : Live → World → Removed × World

unfoldable pub run_error : String → RunOutcome
unfolding insert
run_error reason = RunOutcome.error "container" (insert "reason" (Value.atom reason) Dict.empty)

-- `RunOk::into_dict`.
unfoldable pub run_ok : String → RunOutcome
unfolding insert
run_ok id = RunOutcome.ok (insert "id" (Value.string id) Dict.empty)

unfoldable pub classify_run_error : StartError → String
classify_run_error startup_timeout = "timeout"
classify_run_error (other_error rendered) =
    if contains_str rendered "port is already allocated"
      || contains_str rendered "address already in use"
    then "port_in_use"
    else "docker_unavailable"

-- The text before its last colon and the text after it.
last_colon : String → Option (String × String)
last_colon String.[] = none
last_colon (c ∷ s) = elim (last_colon s) [
  | some (name, tag) ↦ some (c ∷ name, tag)
  | none ↦ if nat_eq (code c) b':' then some ("", s) else none
]

tagged : String → Option (String × String) → String × String
tagged image_ref none = (image_ref, "latest")
tagged image_ref (some (name, tag)) =
    if not (contains_str tag "/") && not (is_empty tag) then (name, tag) else (image_ref, "latest")

unfoldable pub split_image_ref : String → String × String
unfolding last_colon tagged
split_image_ref image_ref = tagged image_ref (last_colon image_ref)

tests :
    (split_image_ref "ghcr.io:443/org/image" ≡ ("ghcr.io:443/org/image", "latest"))
    × (split_image_ref "ghcr.io:443/org/image:v1" ≡ ("ghcr.io:443/org/image", "v1"))
unfolding split_image_ref contains_str
tests = (refl, refl)

u16_of : ℤ → Option ℕ
u16_of (pos n) = if leb n 65535 then some n else none
u16_of (negsuc n) = none

unfoldable pub value_as_u16 : Value → Option ℕ
unfolding u16_of
value_as_u16 (Value.number n) = u16_of n
value_as_u16 v = none

port_or : ℤ → Option ℕ → Result RuntimeError (Option ℕ)
port_or n none = err (
    RuntimeError.construct
      ("container `internal_port` " <> (show_ℤ n <> " is out of range for a u16")))
port_or n (some p) = ok (some p)

unfoldable pub internal_port_of : Option Value → Result RuntimeError (Option ℕ)
unfolding port_or u16_of
internal_port_of none = ok none
internal_port_of (some (Value.number n)) = port_or n (u16_of n)
internal_port_of (some v) =
    err (RuntimeError.type_mismatch "number" (type_name v) "container `internal_port`")

-- The startup timeout in milliseconds; a minute if none is given.
unfoldable pub startup_timeout_of : Option Value → ℕ
startup_timeout_of (some (Value.number (pos (suc n)))) = suc n
startup_timeout_of v = 60000

-- `apply_env` has the code of the `exec` actor.
unfoldable pub container_env : Option Value → Option (List (String × String))
container_env env = apply_env env
