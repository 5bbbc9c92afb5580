-- ===== src/Tests/Terminal.antt =====
-- Example runs of the command line.
use i_ll.Prelude.{
  ℕ, String, Bool, true, false, false≢true, none, some, List, [], ◌∷◌, ok, ◌≡◌, refl, if◌then◌else◌,
}
use i_ll.Prelude.Int.{pos}
use i_ll.Outcome.{Kind, Declaration, Struct, RustType, fields_of, into_dict}
use i_ll.Outcome.Schema.{is_distinct, into_dict-fits}
use i_ll.Exec.Outcomes.{fits}
use i_ll.Prelude.Maps.{Map, lookup}
use i_ll.Prelude.Maps.Sorted.{is_ascending, text_compare}
use i_ll.Diagnostic.{Diagnostic, DiagnosticCode, Severity}
use i_ll.Lower.Tree.{Node, node, Children, nil, child, each, named_children}
use i_ll.Lower.Declaration.{lower_source_file, stray}
use i_ll.Lower.Reports.{collect_errors}
use i_ll.Validate.{validate}
use i_ll.Lower.Returns.{IsQuoted}
use i_ll.Tests.{logging, any_regex}
use i_ll.Cli.Arguments.{parse_cli_args}
use i_ll.Cli.Arguments.Accepted.{
  is_ok, well_formed, given, parse_cli_args-given, parse_cli_args-is_ok,
}
use i_ll.Cli.Files.{FileSystem, Dir, Entries, resolve_files, collect_ill_files}
use i_ll.Cli.Files.Collected.{IsTotal, is_sorted, count_of, below, collect_ill_files-is_sorted}
use i_ll.Cli.Check.{Line, run_check}
use i_ll.Cli.{Commands, run_test, main}
use i_ll.Cli.Gate.{run_test-refused}
use i_ll.Cli.Gate.Open.{IsParser, run_each, reads_from, SameFiles, run_test-run_each}
use i_ll.Runtime.Waiting.{AsyncRuntime, Returns, as_runtime}
use i_ll.Cli.Gate.Returns.{set_from, main_returns}

parse_cli_args-is_ok_example :
    is_ok (parse_cli_args ("a=1" ∷ " b =x=y" ∷ [])) ≡ well_formed ("a=1" ∷ " b =x=y" ∷ [])
parse_cli_args-is_ok_example = parse_cli_args-is_ok ("a=1" ∷ " b =x=y" ∷ [])

abbrev parsed : Map String
parsed = ("a", "1") ∷ ("b", "x=y") ∷ []

parsed-from : parse_cli_args (" b =x=y" ∷ "a=1" ∷ []) ≡ ok parsed
unfolding parse_cli_args text_compare
parsed-from = refl

parse_cli_args-given_example :
    (is_ascending parsed ≡ true) × (lookup "b" parsed ≡ given "b" (" b =x=y" ∷ "a=1" ∷ []))
parse_cli_args-given_example = parse_cli_args-given (" b =x=y" ∷ "a=1" ∷ []) parsed "b" parsed-from

-- Two files in the current directory, one of them below another directory.
abbrev two_files : FileSystem
two_files = record {
  PathBuf = String;
  current = ".";
  display = λ p. p;
  le = λ p q. true;
  extension = λ p. some "ill";
  parent = λ p. some "";
  is_dir = λ p. false;
  read_dir = λ p. Dir.listed (
      Entries.directory "d" (Dir.listed (Entries.file "d/b.ill" Entries.nil))
        (Entries.file "a.ill" Entries.nil));
  read_to_string = λ p. ok "";
}

collect_ill_files-is_sorted_example :
    (is_sorted two_files (collect_ill_files two_files ".").1 ≡ true)
    × (count_of two_files (λ p. true) (collect_ill_files two_files ".").1
        ≡ below two_files (λ p. true) (two_files.read_dir "."))
collect_ill_files-is_sorted_example =
    collect_ill_files-is_sorted two_files "." (λ p. true) (unfold IsTotal in λ p q h. refl)

abbrev source_file : Children → Node
source_file cs =
    node
      (record {
        kind = "source_file";
        is_named = true;
        is_error = false;
        is_missing = false;
        span = record { start = 0; end = 0 };
        text = "";
      })
      cs

abbrev empty_file : Node
empty_file = source_file nil

empty-IsParser : IsParser (λ s. some empty_file)
unfolding IsParser IsQuoted
empty-IsParser source = (empty_file, refl, ((λ e. absurd (false≢true e)), tt))

-- Every operation of `logging`, which returns.
abbrev logged : AsyncRuntime
logged = record {
  World = List String;
  Instance = String;
  type_name = λ inst. inst;
  self_view = λ inst. none;
  construct = λ name args w. some (logging.construct name args w);
  execute = λ inst cmd args w. some (logging.execute inst cmd args w);
  teardown = λ inst w. some (logging.teardown inst w);
}

logged-Returns : (S : List String → Type 0) → ((w : List String) → S w) → Returns logged S
logged-Returns S always = record {
  constructs = λ name args w h. (_, refl, always _);
  executes = λ inst name args w h. (_, refl, always _);
  teardowns = λ inst w h. (_, refl, always _);
}

main_returns_example :
    (lines : List (Line String)) × (code : ℕ) × (w' : List String) × (main two_files
        (λ s. some empty_file)
        (as_runtime logged)
        any_regex
        (set_from logged (λ m w. w))
        (Commands.test [] [])
        (some [])
      ≡ some (lines, code, some w'))
    × Unit {0}
main_returns_example =
    main_returns two_files (λ s. some empty_file) logged any_regex (λ w. Unit) (λ m w. w)
      (Commands.test [] []) [] empty-IsParser (logged-Returns (λ w. Unit) (λ w. tt)) (λ m v h. h) tt

abbrev told : List (Line String)
told =
    Line.diagnostics "d/b.ill" "" []
    ∷ Line.diagnostics "a.ill" "" []
    ∷ Line.stdout "ok — 2 files checked"
    ∷ []

told-by : run_check two_files (λ s. some empty_file) [] ≡ some (told, 0)
unfolding run_check lower_source_file each named_children collect_errors validate
told-by = refl

run_test-run_each_example :
    (b : Bool) × (w' : List String) × (lines : List (Line String)) × (run_each two_files
        (λ s. some empty_file)
        (as_runtime logged)
        any_regex
        (reads_from two_files logged (λ w p. ok ""))
        (resolve_files two_files []).1
        (some [])
      ≡ some (b, some w'))
    × (run_test two_files (λ s. some empty_file) (as_runtime logged) any_regex [] (some [])
        ≡ some (lines, if b then 0 else 1, some w'))
run_test-run_each_example =
    run_test-run_each two_files (λ s. some empty_file) logged any_regex (λ w p. ok "") [] told []
      empty-IsParser
      (logged-Returns (SameFiles two_files logged (λ w p. ok ""))
        (λ w. unfold SameFiles in λ p. refl))
      (unfold SameFiles in λ p. refl) told-by

-- A file in which the parser misses something.
abbrev bad_file : Node
bad_file = source_file (
    child none
      (node
        (record {
          kind = "as";
          is_named = true;
          is_error = false;
          is_missing = true;
          span = record { start = 3; end = 3 };
          text = "";
        })
        nil)
      nil)

abbrev missing_as : Diagnostic
missing_as = record {
  span = record { start = 3; end = 3 };
  severity = Severity.error;
  code = DiagnosticCode.missing_token;
  message = "missing `as` here";
  notes = [];
}

abbrev told_bad : List (Line String)
told_bad =
    Line.diagnostics "d/b.ill" "" (missing_as ∷ [])
    ∷ Line.diagnostics "a.ill" "" (missing_as ∷ [])
    ∷ Line.stdout "2 errors in 2 files"
    ∷ []

told_bad-by : run_check two_files (λ s. some bad_file) [] ≡ some (told_bad, 1)
unfolding run_check lower_source_file each named_children collect_errors validate stray
told_bad-by = refl

run_test-refused_example :
    (lines : List (Line String)) × (run_test two_files (λ s. some bad_file) logging any_regex [] []
      ≡ some (lines, 1, []))
run_test-refused_example =
    run_test-refused two_files (λ s. some bad_file) logging any_regex [] told_bad [] told_bad-by

-- The fields `reason` and `reason_code` of an error.
abbrev reasons : Declaration
reasons = ("reason", Kind.atom) ∷ ("reason_code", Kind.number) ∷ []

abbrev two_reasons : Struct reasons
unfolding Struct RustType
two_reasons = ("other", (pos 128, tt))

into_dict-fits_example : fits (fields_of reasons) (into_dict reasons two_reasons) ≡ true
into_dict-fits_example = into_dict-fits reasons two_reasons (unfold is_distinct in refl)
