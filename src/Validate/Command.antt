-- ===== src/Validate/Command.antt =====
-- The validator's check of one command (crates/ill-core/src/validate.rs).
pub mod Transition
use i_ll.Prelude.{
  ℕ, String, ◌<>◌, Bool, not, ◌&&◌, Option, none, some, List, [], ◌∷◌, ◌++◌, map, any, length, drop,
  get_elem?, ltb, if◌then◌else◌, ◌==◌,
}
use i_ll.Prelude.Maps.{Map}
use i_ll.Prelude.Text.{join}
use i_ll.Ast.{Span, Expr, KeywordArg, Command}
use i_ll.Value.{ValueType}
use i_ll.Actor.{ActorType, actor_type_name, resolve_command, Resolved, unknown_command_message}
use i_ll.Actor.Command.{
  Mode, mode_name, same_mode, ArgDef, KeywordArgDef, OutcomeField, ErrorTypeDef, CommandDef,
}
use i_ll.Diagnostic.{
  Diagnostic, report, unknown_command, command_not_valid_in_mode, missing_required_arg,
  unknown_keyword_arg,
}
use i_ll.Validate.Expr.{check_squiggles, check_squiggles_in_kwvalue}

-- An actor that was declared well: its type, its mode, and the types of its variables.
pub record HealthyActor : Type 0 where
  pub type_def : ActorType
  pub mode : Mode
  pub vars : Map ValueType

-- What `check_command` returns, and what it pushes.
pub record CommandCheck : Type 0 where
  pub ok_fields : List OutcomeField
  pub error_types : List ErrorTypeDef
  pub transition : Option Mode
  pub diagnostics : List Diagnostic

abbrev pub rejected : List Diagnostic → CommandCheck
rejected ds = record { ok_fields = []; error_types = []; transition = none; diagnostics = ds }

unfoldable pub check_exprs : List Expr → List Diagnostic
check_exprs [] = []
check_exprs (e ∷ es) = check_squiggles e ++ check_exprs es

unfoldable pub check_kwvalues : List KeywordArg → List Diagnostic
check_kwvalues [] = []
check_kwvalues (kw ∷ kws) = check_squiggles_in_kwvalue kw.value ++ check_kwvalues kws

unknown_message : String → Option String → String
unknown_message key none = "unknown keyword arg `" <> (key <> "`")
unknown_message key (some cmd) =
    "unknown keyword arg `" <> (key <> ("` for command `" <> (cmd <> "`")))

missing_message : String → Option String → String
missing_message name none = "missing required keyword arg `" <> (name <> "`")
missing_message name (some cmd) =
    "command `" <> (cmd <> ("` missing required keyword arg `" <> (name <> "`")))

module _ (context : Option String) where
  unfoldable pub unknown_kwargs : List KeywordArgDef → List KeywordArg → List Diagnostic
  unfolding unknown_message
  unknown_kwargs expected [] = []
  unknown_kwargs expected (kw ∷ kws) =
      (if any (λ (d : KeywordArgDef). d.name == kw.key.name) expected
        then []
        else report kw.key.span unknown_keyword_arg (unknown_message kw.key.name context))
      ++ unknown_kwargs expected kws

  unfoldable pub missing_kwargs : List KeywordArg → Span → List KeywordArgDef → List Diagnostic
  unfolding missing_message
  missing_kwargs provided span [] = []
  missing_kwargs provided span (d ∷ ds) =
      (if d.required && not (any (λ (kw : KeywordArg). kw.key.name == d.name) provided)
        then report span missing_required_arg (missing_message d.name context)
        else [])
      ++ missing_kwargs provided span ds

  -- `check_keyword_args_against`.
  unfoldable pub check_keyword_args : List KeywordArg → List KeywordArgDef → Span → List Diagnostic
  unfolding unknown_kwargs missing_kwargs
  check_keyword_args provided expected span =
      unknown_kwargs expected provided ++ missing_kwargs provided span expected

missing_positional : Command → Option ArgDef → List Diagnostic
missing_positional cmd none = []
missing_positional cmd (some a) =
    report cmd.name.span missing_required_arg
      ("command `" <> (cmd.name.name <> ("` missing required positional arg `" <> (a.name <> "`"))))

-- `expected[actual]` is there, since `actual` lies below the length.
unfoldable pub check_positional : Command → List ArgDef → ℕ → List Diagnostic
unfolding missing_positional
check_positional cmd expected actual =
    if ltb actual (length expected) then missing_positional cmd (get_elem? expected actual) else []

-- The arguments of a command in its mode.
unfoldable pub check_arguments : Command → CommandDef → ℕ → CommandCheck
unfolding check_positional check_exprs check_keyword_args check_kwvalues
check_arguments cmd def consumed =
    let source_positional = drop consumed cmd.positional_args in
    record {
      ok_fields = def.ok_fields;
      error_types = def.error_types;
      transition = def.transitions_to;
      diagnostics =
          check_positional cmd def.positional (length source_positional)
          ++ (check_exprs source_positional
              ++ (check_keyword_args (some cmd.name.name) cmd.keyword_args def.keyword cmd.span
                  ++ check_kwvalues cmd.keyword_args));
    }

unfoldable pub in_valid_mode : Mode → CommandDef → Bool
in_valid_mode mode def = any (λ m. same_mode m mode) def.valid_in_modes

wrong_mode : Command → Mode → CommandDef → List Diagnostic
wrong_mode cmd mode def = report cmd.name.span command_not_valid_in_mode (
    "command `"
    <> (cmd.name.name
        <> ("` is not valid in mode `"
            <> (mode_name mode
                <> ("` (valid: " <> (join ", " (map mode_name def.valid_in_modes) <> ")"))))))

check_resolved : HealthyActor → Command → Resolved → CommandCheck
unfolding in_valid_mode wrong_mode
check_resolved state cmd none = rejected (
    report cmd.name.span unknown_command
      (unknown_command_message (actor_type_name state.type_def) cmd.name.name cmd.positional_args))
check_resolved state cmd (some (def, consumed)) =
    if in_valid_mode state.mode def
    then check_arguments cmd def consumed
    else rejected (wrong_mode cmd state.mode def)

unfoldable pub check_command : Option HealthyActor → Command → CommandCheck
unfolding check_resolved
check_command none cmd = rejected []
check_command (some state) cmd =
    check_resolved state cmd (resolve_command state.type_def cmd.name.name cmd.positional_args)
