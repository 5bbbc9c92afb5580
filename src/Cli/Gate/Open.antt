-- ===== src/Cli/Gate/Open.antt =====
-- What `ill test` runs when its gate is open (crates/ill/src/main.rs, `run_test`).
use mathlib.Core.Option
use mathlib.Core.Path.{subst}
use i_ll.Prelude.{
  ℕ, suc, String, Bool, true, false, not, ◌&&◌, ◌||◌, Option, none, some, List, [], ◌∷◌, Result, ok,
  err, ltb, ◌≡◌, refl, sym, ◌∙◌, ap, arith, if◌then◌else◌, length,
}
use i_ll.Ast.{SourceFile}
use i_ll.Assertion.{Regex}
use i_ll.Diagnostic.{Diagnostic}
use i_ll.Validate.{validate}
use i_ll.Runtime.{ActorRuntime}
use i_ll.Runtime.Waiting.{AsyncRuntime, Returns, as_runtime, Reaches, returns-Keeps}
use i_ll.Harness.Block.Kept.{Keeps}
use i_ll.Harness.Kept.{run_validated_test_file-Kept}
use i_ll.Lower.Tree.{Node}
use i_ll.Lower.{lower}
use i_ll.Lower.Outcome.{Reported, is_nil, lower_returns}
use i_ll.Lower.Normalize.{normalize}
use i_ll.Lower.Returns.{IsQuoted, only_errors}
use i_ll.Harness.{TestReport, errors_of, run_unless, run_test_file}
use i_ll.Cli.Files.{FileSystem, resolve_files}
use i_ll.Cli.Check.{
  Line, CheckedFile, CheckedSuite, check_file, check_source, check_files, checked_as, add_file,
  run_check, check_found, check_suite, printed_first, as_lines,
}
use i_ll.Cli.{
  has_error, ran_first, report_line, run_files, run_file, run_test, test_found, test_checked,
  said_first,
}
use i_ll.Cli.Gate.{code_of, check_suite-code, any_error, any_read, refuses, test_suite-open}

-- The parser gives a tree of every source, in which single-quoted strings have their quotes.
unfoldable pub IsParser : (String → Option Node) → Type 0
IsParser parse =
    (source : String) → (root : Node) × (parse (normalize source) ≡ some root) × IsQuoted root

errors-has_error :
    (ds : List Diagnostic) → only_errors ds ≡ true → is_nil ds ≡ false → has_error ds ≡ true
unfolding has_error is_nil
errors-has_error [] h k = absurd (cc k)
errors-has_error (d ∷ ds) h k = ground arith

errors_of-nil : (ds : List Diagnostic) → has_error ds ≡ false → errors_of ds ≡ []
unfolding has_error errors_of
errors_of-nil [] h = refl
errors_of-nil (d ∷ ds) h = ground (arith, errors_of-nil ds)

one_failed :
    (failed : ℕ) (b : Bool) → ◌≡◌ {A = ℕ} (if b then 1 else if ltb 0 (suc failed) then 1 else 0) 1
one_failed failed b = ground arith

passed-code :
    (b : Bool) → ◌≡◌ {A = ℕ} (if not b then 1 else if ltb 0 0 then 1 else 0) (if b then 0 else 1)
passed-code true = refl
passed-code false = refl

if-zero : (b : Bool) → ◌≡◌ {A = ℕ} (if b then 1 else 0) 0 → b ≡ false
if-zero true h = absurd (omega (arith, h))
if-zero false h = refl

-- `reads` is what reading a file gives in a world, which what ran before may have changed.
module _ (F : FileSystem) (parse : String → Option Node) (R : ActorRuntime) (regex : String → Regex)
    (reads : R.World → F.PathBuf → Result String String) where
  after_read : F.PathBuf → Result String String → R.World → Option (TestReport × R.World)
  after_read p (err e) w = none
  after_read p (ok src) w =
      Option.map (λ l. run_test_file R regex (F.display p) (F.parent p) l w) (lower parse src)

  -- `run_test_file` on one file that is read then, and on the files one after another: whether all
  -- passed, and the world.
  unfoldable pub run_one : F.PathBuf → R.World → Option (TestReport × R.World)
  unfolding after_read
  run_one p w = after_read p (reads w p) w

  unfoldable pub run_each : List F.PathBuf → R.World → Option (Bool × R.World)
  run_each [] w = some (true, w)
  run_each (p ∷ ps) w = elim (run_one p w) [
    | none ↦ none
    | some r ↦ Option.map (λ t. (r.0.passed && t.0, t.1)) (run_each ps r.1)
  ]

  -- A file as it is checked, of the source `src` that lowers to `l`.
  record Read (p : F.PathBuf) (rest : Option (CheckedSuite F.PathBuf)) (s : CheckedSuite F.PathBuf)
      : Type 0 where
    src : String
    l : Result (List Diagnostic) SourceFile
    others : CheckedSuite F.PathBuf
    was_read : F.read_to_string p ≡ ok src
    lowered : lower parse src ≡ some l
    reported : Reported l
    more : rest ≡ some others
    same : s ≡ add_file F parse (checked_as F parse p src l) others

  unread : Option (CheckedSuite F.PathBuf) → Bool
  unread none = false
  unread (some s) = any_read F parse s.read_errors

  source-Read :
      (p : F.PathBuf) (src : String) (l : Result (List Diagnostic) SourceFile)
      (rest : Option (CheckedSuite F.PathBuf)) (s : CheckedSuite F.PathBuf)
      → F.read_to_string p ≡ ok src
      → lower parse src ≡ some l
      → Reported l
      → check_source F parse p src (some l) rest ≡ some s
      → Read p rest s
  unfolding check_source
  source-Read p src l none s read lowered reported h = absurd (cc h)
  source-Read p src l (some others) s read lowered reported h = record {
    src = src;
    l = l;
    others = others;
    was_read = read;
    lowered = lowered;
    reported = reported;
    more = refl;
    same = cc h;
  }

  check_file-Read :
      (p : F.PathBuf) (r : Result String String) (rest : Option (CheckedSuite F.PathBuf))
      (s : CheckedSuite F.PathBuf)
      → F.read_to_string p ≡ r
      → IsParser parse
      → check_file F parse p r rest ≡ some s
      → any_read F parse s.read_errors ≡ false
      → Read p rest s
  unfolding check_file IsParser unread
  check_file-Read p (err e) none s read quoted h clear = absurd (cc h)
  check_file-Read p (err e) (some others) s read quoted h clear =
      let found = ap unread h in absurd (cc (found, clear))
  check_file-Read p (ok src) rest s read quoted h clear =
      let (root, parsed, q) = quoted src in
      let (l, lowered, reported) = lower_returns parse src root parsed q in
      source-Read p src l rest s read lowered reported
        (ap (λ o. check_source F parse p src o rest) (sym lowered) ∙ h)

  -- A file without errors has a syntax tree, and it runs as `run_test_file` runs it.
  lowered-runs :
      (p : F.PathBuf) (src : String) (l : Result (List Diagnostic) SourceFile) (w : R.World)
      → Reported l
      → has_error (checked_as F parse p src l).diags ≡ false
      → (ast : SourceFile) × ((checked_as F parse p src l).ast ≡ some ast)
        × (run_test_file R regex (F.display p) (F.parent p) l w
            ≡ run_file F parse R regex (checked_as F parse p src l) ast w)
  unfolding checked_as run_test_file run_file Reported
  lowered-runs p src (err ds) w reported h =
      let bad = errors-has_error ds reported.0 reported.1 in absurd (cc (bad, h))
  lowered-runs p src (ok ast) w reported h =
      (ast, refl, rw (errors_of-nil (validate ast) h) (unfold run_unless in refl))

  files_in : Option (CheckedSuite F.PathBuf) → List (CheckedFile F.PathBuf)
  files_in none = []
  files_in (some s) = s.files

  -- An open gate closes for no part of the files.
  part-open :
      (f : CheckedFile F.PathBuf) (s others : CheckedSuite F.PathBuf)
      → s ≡ add_file F parse f others
      → refuses F parse s ≡ false
      → (s.files ≡ f ∷ others.files)
        × (has_error f.diags ≡ false)
        × (refuses F parse others ≡ false)
  unfolding refuses any_error add_file
  part-open f s others same clear =
      let shut : ((has_error f.diags || any_error F parse others.files)
            || any_read F parse others.read_errors)
          ≡ false =
        ap (refuses F parse) (sym same) ∙ clear in
      (ap (λ t. t.files) same, ground (arith, shut), ground (arith, shut))

  -- What the operations of the actors keep, and in which the files are as they were checked.
  module _ (P : R.World → Type 0) (kept : Keeps R P)
      (agrees : (w : R.World) → P w → (p : F.PathBuf) → reads w p ≡ F.read_to_string p) where
    unfoldable pub Runs : List F.PathBuf → List (CheckedFile F.PathBuf) → ℕ → ℕ → R.World → Type 0
    Runs ps fs passed failed w =
        (r : Bool × R.World) × (lines : List (Line F.PathBuf)) × (run_each ps w ≡ some r)
        × (run_files F parse R regex fs passed failed w
            ≡ some (lines, if not r.0 then 1 else if ltb 0 failed then 1 else 0, r.1))
        × P r.1

    -- After a file that passed or failed.
    after-Runs :
        (b : Bool) (line : Line F.PathBuf) (ps : List F.PathBuf) (fs : List (CheckedFile F.PathBuf))
        (passed failed : ℕ) (w : R.World)
        → ((passed' failed' : ℕ) → Runs ps fs passed' failed' w)
        → (r : Bool × R.World) × (lines : List (Line F.PathBuf)) × (Option.map
              (λ t. (b && t.0, t.1))
              (run_each ps w)
            ≡ some r)
          × (ran_first F parse R regex line (
                if b
                then run_files F parse R regex fs (suc passed) failed w
                else run_files F parse R regex fs passed (suc failed) w)
              ≡ some (lines, if not r.0 then 1 else if ltb 0 failed then 1 else 0, r.1))
          × P r.1
    unfolding Runs ran_first
    after-Runs true line ps fs passed failed w rest =
        let (r, lines, each, all, kept_so) = rest (suc passed) failed in
        (
          r,
          line ∷ lines,
          ap (Option.map (λ t. (true && t.0, t.1))) each,
          ap (ran_first F parse R regex line) all,
          kept_so,
        )
    after-Runs false line ps fs passed failed w rest =
        let (r, lines, each, all, kept_so) = rest passed (suc failed) in
        (
          (false, r.1),
          line ∷ lines,
          ap (Option.map (λ t. (false && t.0, t.1))) each,
          ap (ran_first F parse R regex line) all
              ∙ ap (λ c. some (line ∷ lines, c, r.1)) (one_failed failed (not r.0)),
          kept_so,
        )

    file-Kept :
        (f : CheckedFile F.PathBuf) (ast : SourceFile) (w : R.World)
        → P w
        → P (run_file F parse R regex f ast w).1
    unfolding run_file
    file-Kept f ast w h =
        run_validated_test_file-Kept R regex P kept (F.display f.path) (F.parent f.path) ast w h

    cons-Runs :
        (p : F.PathBuf) (ps : List F.PathBuf) (s : CheckedSuite F.PathBuf)
        (rest : Option (CheckedSuite F.PathBuf)) (read : Read p rest s) (passed failed : ℕ)
        (w : R.World)
        → has_error (checked_as F parse p read.src read.l).diags ≡ false
        → ((passed' failed' : ℕ) (w' : R.World)
            → P w'
            → Runs ps read.others.files passed' failed' w')
        → P w
        → Runs (p ∷ ps) (checked_as F parse p read.src read.l ∷ read.others.files) passed failed w
    unfolding Runs run_each run_one run_files ran_first checked_as
    cons-Runs p ps s rest read passed failed w clean more h =
        let (ast, is_some, same) = lowered-runs p read.src read.l w read.reported clean in
        let t = run_file F parse R regex (checked_as F parse p read.src read.l) ast w in
        let after = file-Kept (checked_as F parse p read.src read.l) ast w h in
        let (r, lines, each, all, kept_so) =
          after-Runs t.0.passed
            (report_line F parse R regex (checked_as F parse p read.src read.l) t.0) ps
            read.others.files passed failed t.1 (λ i j. more i j t.1 after) in
        let one : run_one p w ≡ some t =
          rw (agrees w h p ∙ read.was_read)
            (unfold after_read in rw (read.lowered) (ap some same)) in
        (r, lines, rw (run_each, one) each, rw (run_files, is_some) all, kept_so)

    nil-Runs : (passed failed : ℕ) (w : R.World) → P w → Runs [] [] passed failed w
    unfolding Runs run_each run_files
    nil-Runs passed failed w h = ((true, w), _, refl, refl, h)

    pub files-Runs :
        (ps : List F.PathBuf) (s : CheckedSuite F.PathBuf) (passed failed : ℕ) (w : R.World)
        → IsParser parse
        → check_files F parse ps ≡ some s
        → refuses F parse s ≡ false
        → P w
        → Runs ps s.files passed failed w
    unfolding check_files refuses files_in
    files-Runs [] s passed failed w quoted h clear holds =
        subst (λ fs. Runs [] fs passed failed w) (ap files_in h) (nil-Runs passed failed w holds)
    files-Runs (p ∷ ps) s passed failed w quoted h clear holds =
        let r =
          check_file-Read p (F.read_to_string p) (check_files F parse ps) s refl quoted h
            (ground (arith, clear)) in
        let (split, good, clear') =
          part-open (checked_as F parse p r.src r.l) s r.others r.same clear in
        subst (λ fs. Runs (p ∷ ps) fs passed failed w) (sym split)
          (cons-Runs p ps s _ r passed failed w good
            (λ i j w' still. files-Runs ps r.others i j w' quoted r.more clear' still) holds)

    found-each :
        (said : List String) (files : List F.PathBuf) (lines : List (Line F.PathBuf)) (w : R.World)
        → IsParser parse
        → P w
        → check_found F parse (said, files) ≡ some (lines, 0)
        → (r : Bool × R.World) × (lines' : List (Line F.PathBuf)) × (run_each files w ≡ some r)
          × (test_found F parse R regex (said, files) w ≡ some (lines', if r.0 then 0 else 1, r.1))
          × P r.1
    unfolding check_found test_found code_of said_first Runs
    found-each said [] lines w quoted holds h =
        let e = ap (code_of F parse) h in absurd (omega (arith, e))
    found-each said (p ∷ ps) lines w quoted holds h = checked (check_files F parse (p ∷ ps)) refl h
      where
        checked :
            (o : Option (CheckedSuite F.PathBuf))
            → check_files F parse (p ∷ ps) ≡ o
            → Option.map
                (λ s.
                  printed_first F parse
                    (as_lines F parse said)
                    (check_suite F parse (length (p ∷ ps)) s))
                o
              ≡ some (lines, 0)
            → (r : Bool × R.World) × (lines' : List (Line F.PathBuf)) × (run_each (p ∷ ps) w
                ≡ some r)
              × (said_first F parse R regex said (test_checked F parse R regex w o)
                  ≡ some (lines', if r.0 then 0 else 1, r.1))
              × P r.1
        checked none found e = absurd (cc e)
        checked (some s) found e =
            let clear = if-zero (refuses F parse s) (
              sym (check_suite-code F parse (as_lines F parse said) (length (p ∷ ps)) s)
              ∙ ap (code_of F parse) e) in
            let (r, lines', each, all, kept_so) =
              files-Runs (p ∷ ps) s 0 0 w quoted found clear holds in
            (
              r,
              _,
              each,
              ap (said_first F parse R regex said) (
                  test_suite-open F parse R regex s w clear
                  ∙ all
                  ∙ ap (λ c. some (lines', c, r.1)) (passed-code r.0)),
              kept_so,
            )

-- What reading gives in the world that is reached.
abbrev pub reads_from :
    (F : FileSystem) (Q : AsyncRuntime)
    → (Q.World → F.PathBuf → Result String String)
    → Option Q.World
    → F.PathBuf
    → Result String String
reads_from F Q reads none p = err ""
reads_from F Q reads (some w) p = reads w p

-- Every file reads as it did when the program started.
unfoldable pub SameFiles :
    (F : FileSystem) (Q : AsyncRuntime)
    → (Q.World → F.PathBuf → Result String String)
    → Q.World
    → Type 0
SameFiles F Q reads w = (p : F.PathBuf) → reads w p ≡ F.read_to_string p

same-reads :
    (F : FileSystem) (Q : AsyncRuntime) (reads : Q.World → F.PathBuf → Result String String)
    (w : Option Q.World)
    → Reaches Q (SameFiles F Q reads) w
    → (p : F.PathBuf) → reads_from F Q reads w p ≡ F.read_to_string p
unfolding Reaches SameFiles
same-reads F Q reads none h p = absurd h
same-reads F Q reads (some w) h p = h p

reached :
    (Q : AsyncRuntime) (S : Q.World → Type 0) (w : Option Q.World)
    → Reaches Q S w
    → (v : Q.World) × (w ≡ some v)
unfolding Reaches
reached Q S none h = absurd h
reached Q S (some v) h = (v, refl)

-- If `ill check` ends with the exit code 0, then `ill test` on the same paths comes to an end and does
-- what `run_test_file` does on each of the files in turn, each read only when its turn comes: the world
-- is the same afterwards, and the exit code is 0 if every report says that the file passed and 1
-- otherwise. This holds if every operation of an actor returns and leaves what reading a file gives as
-- it was when the program started, and if the parser gives a tree of every source, in which
-- single-quoted strings have their quotes.
pub run_test-run_each :
    (F : FileSystem) (parse : String → Option Node) (Q : AsyncRuntime) (regex : String → Regex)
    (reads : Q.World → F.PathBuf → Result String String) (paths : List F.PathBuf)
    (lines : List (Line F.PathBuf)) (w : Q.World)
    → IsParser parse
    → Returns Q (SameFiles F Q reads)
    → SameFiles F Q reads w
    → run_check F parse paths ≡ some (lines, 0)
    → (b : Bool) × (w' : Q.World) × (lines' : List (Line F.PathBuf)) × (run_each F parse
          (as_runtime Q)
          regex
          (reads_from F Q reads)
          (resolve_files F paths).1
          (some w)
        ≡ some (b, some w'))
      × (run_test F parse (as_runtime Q) regex paths (some w)
          ≡ some (lines', if b then 0 else 1, some w'))
unfolding run_check run_test
run_test-run_each F parse Q regex reads paths lines w quoted returns same h =
    let (r, lines', each, all, so) =
      found-each F parse (as_runtime Q) regex (reads_from F Q reads)
        (Reaches Q (SameFiles F Q reads)) (returns-Keeps Q (SameFiles F Q reads) returns)
        (same-reads F Q reads) (resolve_files F paths).0 (resolve_files F paths).1 lines (some w)
        quoted (unfold Reaches in same) h in
    let (w', ended) = reached Q (SameFiles F Q reads) r.1 so in
    (
      r.0,
      w',
      lines',
      each ∙ ap (λ v. some (r.0, v)) ended,
      all ∙ ap (λ v. some (lines', if r.0 then 0 else 1, v)) ended,
    )
