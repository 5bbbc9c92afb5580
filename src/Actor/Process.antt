-- ===== src/Actor/Process.antt =====
-- The commands of `exec`, `container` and `args_actor`
-- (crates/ill-core/src/actor_type/{exec,container}/commands.rs and args_actor/mod.rs).
use i_ll.Prelude.{some, List, [], ◌∷◌}
use i_ll.Value.{ValueType}
use i_ll.Actor.Command.{
  container_stopped, container_running, exec_stopped, exec_running, args_ready, KeywordArgDef,
  CommandDef, ErrorTypeDef, plain, optional, required_arg, out, error_type,
}

unfoldable pub exec_error_types : List ErrorTypeDef
exec_error_types = error_type "exec" (out "reason" ValueType.atom ∷ []) ∷ []

unfoldable pub exec_run : CommandDef
unfolding exec_error_types
exec_run = record (plain "run" (exec_stopped ∷ [])) {
  transitions_to = some exec_running;
  keyword = optional "env" ValueType.unknown ∷ [];
  ok_fields = out "pid" ValueType.number ∷ [];
  error_types = exec_error_types;
}

unfoldable pub exec_constructor : List KeywordArgDef
exec_constructor = required_arg "command" ValueType.string ∷ optional "cwd" ValueType.string ∷ []

unfoldable pub container_error_types : List ErrorTypeDef
container_error_types = error_type "container" (out "reason" ValueType.atom ∷ []) ∷ []

unfoldable pub container_run : CommandDef
unfolding container_error_types
container_run = record (plain "run" (container_stopped ∷ [])) {
  transitions_to = some container_running;
  keyword =
      optional "external_port" ValueType.number
      ∷ optional "env" ValueType.unknown
      ∷ optional "timeout" ValueType.number
      ∷ [];
  ok_fields = out "id" ValueType.string ∷ [];
  error_types = container_error_types;
}

unfoldable pub container_stop : CommandDef
unfolding container_error_types
container_stop = record (plain "stop" (container_running ∷ [])) {
  transitions_to = some container_stopped;
  error_types = container_error_types;
}

unfoldable pub container_constructor : List KeywordArgDef
container_constructor =
    optional "image" ValueType.string
    ∷ optional "dockerfile" ValueType.string
    ∷ optional "internal_port" ValueType.number
    ∷ []

unfoldable pub args_check : CommandDef
args_check = plain "check" (args_ready ∷ [])
