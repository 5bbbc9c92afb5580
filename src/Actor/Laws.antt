-- ===== src/Actor/Laws.antt =====
-- The contracts of the registry and of command resolution (crates/ill-core/src/registry.rs and
-- crates/ill-core/src/actor_type/mod.rs).
use mathlib.Core.Path.{subst}
use i_ll.Prelude.{
  ℕ, String, ◌<>◌, Bool, true, false, Option, none, some, List, [], ◌∷◌, find, all, ◌&&◌, length,
  ◌≤◌, ◌≡◌, refl, ◌∙◌, ◌↔◌, sym, ap, arith, ◌==◌, eq_iff, if◌then◌else◌,
}
use i_ll.Ast.{Expr}
use i_ll.Actor.Command.{CommandDef, mode_actor_type}
use i_ll.Actor.{
  ActorType, actor_type_name, get_actor_type, registered_types, command, commands, Resolved,
  with_count, fused_or, resolve_receive, resolve_command, mqtt_client, pg_client, container, exec,
  http_client, args_actor, is_own, owns_target,
}

-- The name of a type finds the type.
get_actor_type-name : (t : ActorType) → get_actor_type (actor_type_name t) ≡ some t
unfolding get_actor_type actor_type_name
get_actor_type-name pg_client = refl
get_actor_type-name container = refl
get_actor_type-name exec = refl
get_actor_type-name http_client = refl
get_actor_type-name mqtt_client = refl
get_actor_type-name args_actor = refl

find-holds : {A : Type 0} (p : A → Bool) (xs : List A) {a : A} → find p xs ≡ some a → p a ≡ true
find-holds p [] h = cc
find-holds {A} p (x ∷ xs) {a} h = choose (p x) refl h (find-holds p xs)
  where
    choose :
        (b : Bool)
        → p x ≡ b
        → elim b [ true ↦ some x | false ↦ find p xs ] ≡ some a
        → (find p xs ≡ some a → p a ≡ true)
        → p a ≡ true
    choose true e found later = cc
    choose false e found later = later found

-- A name finds a registered type exactly if it is the name of the type.
pub get_actor_type_iff :
    (name : String) (t : ActorType) → (get_actor_type name ≡ some t) ↔ (actor_type_name t ≡ name)
unfolding get_actor_type
get_actor_type_iff name t = (
  λ h.
      (eq_iff (actor_type_name t) name).0
        (find-holds (λ u. actor_type_name u == name) registered_types h),
  λ h. ap get_actor_type (sym h) ∙ get_actor_type-name t,
)

-- What a name finds is found again by its own name.
command-again :
    (t : ActorType) (name : String) {def : CommandDef}
    → command t name ≡ some def
    → command t def.name ≡ some def
unfolding command
command-again t name {def} h =
    ap (command t) ((eq_iff def.name name).0 (find-holds (λ c. c.name == name) (commands t) h)) ∙ h

-- A resolution that is sound for these arguments.
Sound : ActorType → List Expr → Resolved → Type 0
Sound t positional none = Unit
Sound t positional (some (def, n)) = (n ≤ length positional) × (command t def.name ≡ some def)

module _ (t : ActorType) where
  plain-Sound :
      (positional : List Expr) (o : Option CommandDef)
      → ((d : CommandDef) → o ≡ some d → command t d.name ≡ some d)
      → Sound t positional (with_count 0 o)
  unfolding Sound with_count
  plain-Sound positional none again = tt
  plain-Sound positional (some d) again = (omega arith, again d refl)

  command-Sound :
      (name : String) (positional : List Expr) → Sound t positional (with_count 0 (command t name))
  command-Sound name positional = plain-Sound positional (command t name) λ d. command-again t name

  fused-Sound :
      (e : Expr) (rest : List Expr) (o : Option CommandDef) (plain : Resolved)
      → ((d : CommandDef) → o ≡ some d → command t d.name ≡ some d)
      → Sound t (e ∷ rest) plain
      → Sound t (e ∷ rest) (fused_or o plain)
  unfolding Sound fused_or
  fused-Sound e rest none plain again sound = sound
  fused-Sound e rest (some d) plain again sound = (omega arith, again d refl)

if-Sound :
    (positional : List Expr) (b : Bool) (r s : Resolved)
    → Sound mqtt_client positional r
    → Sound mqtt_client positional s
    → Sound mqtt_client positional (if b then r else s)
if-Sound positional true r s x y = x
if-Sound positional false r s x y = y

receive-Sound :
    (name : String) (positional : List Expr)
    → Sound mqtt_client positional (resolve_receive name positional)
unfolding resolve_receive
receive-Sound name (Expr.ident event ∷ rest) =
    let plain = command-Sound mqtt_client name (Expr.ident event ∷ rest) in
    if-Sound _ (name == "receive") _ _
      (fused-Sound mqtt_client (Expr.ident event) rest
        (command mqtt_client ("receive_" <> event.name)) _
        (λ d. command-again mqtt_client ("receive_" <> event.name)) plain)
      plain
receive-Sound name positional = command-Sound mqtt_client name positional

resolve_command-Sound :
    (t : ActorType) (name : String) (positional : List Expr)
    → Sound t positional (resolve_command t name positional)
unfolding resolve_command
resolve_command-Sound mqtt_client name positional = receive-Sound name positional
resolve_command-Sound t name positional = command-Sound t name positional

-- The arguments that the spelling of a command takes are there, and the command that is found is
-- the one that its own name finds.
pub resolve_command_sound :
    (t : ActorType) (name : String) (positional : List Expr) (def : CommandDef) (n : ℕ)
    → resolve_command t name positional ≡ some (def, n)
    → (n ≤ length positional) × (command t def.name ≡ some def)
unfolding Sound
resolve_command_sound t name positional def n h =
    subst (Sound t positional) h (resolve_command-Sound t name positional)

all-find :
    {A : Type 0} (p q : A → Bool) (xs : List A) {a : A}
    → all p xs ≡ true
    → find q xs ≡ some a
    → p a ≡ true
all-find p q [] every h = cc
all-find {A} p q (x ∷ xs) {a} every h = choose (q x) h (p x) refl every (all-find p q xs)
  where
    choose :
        (b : Bool)
        → elim b [ true ↦ some x | false ↦ find q xs ] ≡ some a
        → (c : Bool) → p x ≡ c
        → (c && all p xs) ≡ true
        → (all p xs ≡ true → find q xs ≡ some a → p a ≡ true)
        → p a ≡ true
    choose true found true here rest later = cc
    choose false found true here rest later = later rest found
    choose b found false here rest later = cc

targets-own : (t : ActorType) → all (λ c. owns_target t c.transitions_to) (commands t) ≡ true
unfolding owns_target commands is_own mode_actor_type actor_type_name
targets-own pg_client = refl
targets-own container = refl
targets-own exec = refl
targets-own http_client = refl
targets-own mqtt_client = refl
targets-own args_actor = refl

-- The mode that a resolved command leads to belongs to the actor type.
pub resolve_command-owns_target :
    (t : ActorType) (name : String) (positional : List Expr) (def : CommandDef) (n : ℕ)
    → resolve_command t name positional ≡ some (def, n)
    → owns_target t def.transitions_to ≡ true
unfolding command
resolve_command-owns_target t name positional def n h =
    all-find (λ c. owns_target t c.transitions_to) (λ c. c.name == def.name) (commands t)
      (targets-own t) (resolve_command_sound t name positional def n h).1
