-- ===== src/Actor.antt =====
-- Actor types, their static methods and the registry (crates/ill-core/src/actor_type/mod.rs, the
-- `mod.rs` of each actor type, and crates/ill-core/src/registry.rs).
pub mod Command
pub mod Process
pub mod Client
pub mod Mqtt
pub mod Laws
use i_ll.Prelude.{
  ℕ, String, ◌<>◌, Bool, true, ◌&&◌, Option, none, some, List, [], ◌∷◌, find, all, ◌==◌, ◌≡◌, refl,
  if◌then◌else◌,
}
use i_ll.Ast.{Expr}
use i_ll.Actor.Command.{
  Mode, pg_disconnected, pg_connected, container_stopped, container_running, exec_stopped,
  exec_running, http_ready, mqtt_disconnected, mqtt_connected, args_ready, mode_actor_type,
  KeywordArgDef, CommandDef,
}
use i_ll.Actor.Process.{
  exec_run, exec_constructor, container_run, container_stop, container_constructor, args_check,
}
use i_ll.Actor.Client.{pg_connect, pg_query, pg_disconnect, http_verb}
use i_ll.Actor.Mqtt.{
  network_and_mqtt_error_types, publish_qos0_error_types, mqtt_connect, mqtt_disconnect,
  subscribe_cmd, publish_cmd, receive_publish, receive_disconnect,
}

-- The structs that implement `ActorType`.
pub data ActorType : Type 0 where
  pg_client container exec http_client mqtt_client args_actor : ActorType

unfoldable pub actor_type_name : ActorType → String
actor_type_name pg_client = "pg_client"
actor_type_name container = "container"
actor_type_name exec = "exec"
actor_type_name http_client = "http_client"
actor_type_name mqtt_client = "mqtt_client"
actor_type_name args_actor = "args_actor"

unfoldable pub initial_mode : ActorType → Mode
initial_mode pg_client = pg_disconnected
initial_mode container = container_stopped
initial_mode exec = exec_stopped
initial_mode http_client = http_ready
initial_mode mqtt_client = mqtt_disconnected
initial_mode args_actor = args_ready

unfoldable pub modes : ActorType → List Mode
modes pg_client = pg_disconnected ∷ pg_connected ∷ []
modes container = container_stopped ∷ container_running ∷ []
modes exec = exec_stopped ∷ exec_running ∷ []
modes http_client = http_ready ∷ []
modes mqtt_client = mqtt_disconnected ∷ mqtt_connected ∷ []
modes args_actor = args_ready ∷ []

unfoldable pub commands : ActorType → List CommandDef
unfolding pg_connect pg_query pg_disconnect container_run container_stop exec_run http_verb
    mqtt_connect mqtt_disconnect subscribe_cmd publish_cmd receive_publish receive_disconnect
    publish_qos0_error_types network_and_mqtt_error_types args_check
commands pg_client = pg_connect ∷ pg_query ∷ pg_disconnect ∷ []
commands container = container_run ∷ container_stop ∷ []
commands exec = exec_run ∷ []
commands http_client =
    http_verb "get" ∷ http_verb "post" ∷ http_verb "put" ∷ http_verb "delete" ∷ []
commands mqtt_client =
    mqtt_connect
    ∷ mqtt_disconnect
    ∷ subscribe_cmd "subscribe_0"
    ∷ subscribe_cmd "subscribe_1"
    ∷ subscribe_cmd "subscribe_2"
    ∷ publish_cmd "publish_0" publish_qos0_error_types
    ∷ publish_cmd "publish_1" network_and_mqtt_error_types
    ∷ publish_cmd "publish_2" network_and_mqtt_error_types
    ∷ receive_publish
    ∷ receive_disconnect
    ∷ []
commands args_actor = args_check ∷ []

unfoldable pub constructor_keyword : ActorType → List KeywordArgDef
unfolding exec_constructor container_constructor
constructor_keyword exec = exec_constructor
constructor_keyword container = container_constructor
constructor_keyword t = []

-- `ActorType::command`.
unfoldable pub command : ActorType → String → Option CommandDef
unfolding commands
command t name = find (λ c. c.name == name) (commands t)

-- The command and how many leading arguments its spelling takes, none by default.
abbrev pub Resolved : Type 0
Resolved = Option (CommandDef × ℕ)

unfoldable pub with_count : ℕ → Option CommandDef → Resolved
with_count n none = none
with_count n (some c) = some (c, n)

-- The fused name of `receive EVENT`, if it is a command, and the plain name otherwise.
fused_or : Option CommandDef → Resolved → Resolved
fused_or none plain = plain
fused_or (some c) plain = some (c, 1)

resolve_receive : String → List Expr → Resolved
unfolding fused_or
resolve_receive name (Expr.ident event ∷ rest) =
    let plain = with_count 0 (command mqtt_client name) in
    if name == "receive"
    then fused_or (command mqtt_client ("receive_" <> event.name)) plain
    else plain
resolve_receive name positional = with_count 0 (command mqtt_client name)

unfoldable pub resolve_command : ActorType → String → List Expr → Resolved
unfolding resolve_receive with_count
resolve_command mqtt_client name positional = resolve_receive name positional
resolve_command t name positional = with_count 0 (command t name)

unfoldable pub unknown_command_message : String → String → List Expr → String
unknown_command_message actor_type name (Expr.ident event ∷ rest) =
    "unknown command `"
    <> (name <> (" " <> (event.name <> ("` for actor type `" <> (actor_type <> "`")))))
unknown_command_message actor_type name positional =
    "unknown command `" <> (name <> ("` for actor type `" <> (actor_type <> "`")))

-- `Registry::build` and `Registry::get`: the registered types, found by name.
abbrev pub registered_types : List ActorType
registered_types = pg_client ∷ container ∷ exec ∷ http_client ∷ mqtt_client ∷ args_actor ∷ []

unfoldable pub get_actor_type : String → Option ActorType
unfolding actor_type_name
get_actor_type name = find (λ t. actor_type_name t == name) registered_types

-- `Registry::validate`: every mode that an actor type mentions is its own.
unfoldable pub is_own : ActorType → Mode → Bool
is_own t m = mode_actor_type m == actor_type_name t

unfoldable pub owns_target : ActorType → Option Mode → Bool
unfolding is_own
owns_target t none = true
owns_target t (some m) = is_own t m

unfoldable pub validate_type : ActorType → Bool
unfolding is_own owns_target actor_type_name mode_actor_type initial_mode modes commands
validate_type t =
    is_own t (initial_mode t)
    && (all (is_own t) (modes t)
        && all
            (λ (c : CommandDef). all (is_own t) c.valid_in_modes && owns_target t c.transitions_to)
            (commands t))

-- The registry is built without a panic.
registry_builds : all validate_type registered_types ≡ true
unfolding validate_type
registry_builds = refl
