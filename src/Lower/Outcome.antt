-- ===== src/Lower/Outcome.antt =====
-- What `lower` returns (crates/ill-core/src/lower.rs).
use i_ll.Prelude.{
  String, Bool, true, false, not, ◌&&◌, Option, some, List, [], ◌∷◌, ◌++◌, Result, ok, err, ◌≡◌,
  refl, sym, ◌∙◌, arith, if◌then◌else◌,
}
use i_ll.Ast.{Span, SourceFile}
use i_ll.Diagnostic.{Diagnostic, DiagnosticCode, report, with_note, error_at, is_error}
use i_ll.Lower.Tree.{Node, Children, NodeInfo, node, nil, child, Log, panicked, done, pushed_before}
use i_ll.Lower.Declaration.{lower_source_file}
use i_ll.Lower.Declaration.Safe.{lower_source_file-Returns}
use i_ll.Lower.Returns.{IsQuoted, Returns, only_errors, append-only_errors, pushed-Returns}
use i_ll.Lower.Reports.{error_diagnostic, missing_message, collect_errors, collect_errors_in}
use i_ll.Lower.Reports.Order.{starts, is_ascending, positions, collect_errors-is_ascending}
use i_ll.Lower.Normalize.{normalize}
use i_ll.Lower.{verdict, finish, lower_root, lower_parsed, lower}

-- No node of the tree is an error or missing.
unfoldable mutual
  pub is_sound : Node → Bool
  is_sound (node i cs) = not i.is_missing && (not i.is_error && are_sound cs)

  pub are_sound : Children → Bool
  are_sound nil = true
  are_sound (child f n cs) = is_sound n && are_sound cs

unfoldable pub is_nil : List Diagnostic → Bool
is_nil [] = true
is_nil (e ∷ es) = false

append-is_nil : (es ds : List Diagnostic) → is_nil (es ++ ds) ≡ is_nil es && is_nil ds
unfolding is_nil
append-is_nil [] ds = refl
append-is_nil (e ∷ es) ds = refl

mutual
  unfolding is_nil collect_errors is_sound

  collected-is_sound : (k : String) (n : Node) → is_nil (collect_errors k n) ≡ is_sound n
  collected-is_sound k (node i cs) = ground (arith, collected-are_sound i.kind cs)

  collected-are_sound :
      (k : String) (cs : Children) → is_nil (collect_errors_in k cs) ≡ are_sound cs
  collected-are_sound k nil = refl
  collected-are_sound k (child f n cs) =
      append-is_nil (collect_errors k n) _ ∙ cc (collected-is_sound k n, collected-are_sound k cs)

nil-of : (es : List Diagnostic) → is_nil es ≡ true → es ≡ []
unfolding is_nil
nil-of [] h = refl
nil-of (e ∷ es) h = absurd (cc h)

module _ (parse : String → Option Node) (source : String) (root : Node) where
  of_root :
      parse (normalize source) ≡ some root
      → lower parse source
        ≡ finish (pushed_before (collect_errors "" root) (lower_source_file root))
  unfolding lower lower_parsed lower_root
  of_root parsed = rw parsed refl

-- The file of a computation that `finish` finds without diagnostics.
finish-ok :
    (es : List Diagnostic) (m : Log SourceFile) (file : SourceFile)
    → finish (pushed_before es m) ≡ some (ok file)
    → (is_nil es ≡ true) × (m ≡ done file [])
unfolding finish verdict is_nil
finish-ok es panicked file h = absurd (cc h)
finish-ok [] (done f []) file h = (refl, cc h)
finish-ok [] (done f (d ∷ ds)) file h = absurd (cc h)
finish-ok (e ∷ es) (done f ds) file h = absurd (cc h)

-- If lowering gives a file, then the tree that the parser made has no error node and no missing
-- node, and lowering that tree gave the file and pushed no diagnostic.
pub lower_ok-is_sound :
    (parse : String → Option Node) (source : String) (root : Node) (file : SourceFile)
    → parse (normalize source) ≡ some root
    → lower parse source ≡ some (ok file)
    → (is_sound root ≡ true) × (lower_source_file root ≡ done file [])
lower_ok-is_sound parse source root file parsed h =
    let found = finish-ok _ _ file (sym (of_root parse source root parsed) ∙ h) in
    (sym (collected-is_sound "" root) ∙ found.0, found.1)

finish-err :
    (es : List Diagnostic) (m : Log SourceFile)
    → is_nil es ≡ false
    → Returns m
    → (ds : List Diagnostic) × (finish (pushed_before es m) ≡ some (err (es ++ ds)))
unfolding finish verdict is_nil Returns
finish-err es panicked h r = absurd r
finish-err [] (done f ds) h r = absurd (cc h)
finish-err (e ∷ es) (done f ds) h r = (ds, refl)

-- If the tree has an error node or a missing node, its single-quoted strings have their quotes and its
-- nodes begin in the order of the source, a node not after its children, then lowering returns an error
-- whose diagnostics begin with those of the parser's errors: there is one at least, and none of them
-- points before an earlier one.
pub lower_err-collect_errors :
    (parse : String → Option Node) (source : String) (root : Node)
    → parse (normalize source) ≡ some root
    → IsQuoted root
    → is_sound root ≡ false
    → is_ascending (starts root) ≡ true
    → (es ds : List Diagnostic) × (lower parse source ≡ some (err (es ++ ds)))
      × (es ≡ collect_errors "" root)
      × (is_nil es ≡ false)
      × (is_ascending (positions es) ≡ true)
lower_err-collect_errors parse source root parsed quoted h ordered =
    let some_error = collected-is_sound "" root ∙ h in
    let (ds, found) =
      finish-err (collect_errors "" root) (lower_source_file root) some_error
        (lower_source_file-Returns root quoted) in
    (
      collect_errors "" root,
      ds,
      of_root parse source root parsed ∙ found,
      refl,
      some_error,
      collect_errors-is_ascending "" root ordered,
    )

only-if :
    (b : Bool) (es ds : List Diagnostic)
    → only_errors es ≡ true
    → only_errors ds ≡ true
    → only_errors (if b then es else ds) ≡ true
only-if true es ds h h' = h
only-if false es ds h h' = h'

report-only :
    (at : Span) (code : DiagnosticCode) (message : String)
    → only_errors (report at code message) ≡ true
unfolding error_at is_error
report-only at code message = refl

error-only : (k : String) (i : NodeInfo) → only_errors (error_diagnostic k i ∷ []) ≡ true
unfolding error_diagnostic error_at with_note is_error
error-only k i = ground arith

-- What the parser's errors give are errors.
mutual
  unfolding collect_errors

  collected-only_errors : (k : String) (n : Node) → only_errors (collect_errors k n) ≡ true
  collected-only_errors k (node i cs) =
      only-if i.is_missing _ _
        (report-only i.span DiagnosticCode.missing_token (missing_message i.kind))
        (only-if i.is_error _ _ (error-only k i) (collected_in-only_errors i.kind cs))

  collected_in-only_errors :
      (k : String) (cs : Children) → only_errors (collect_errors_in k cs) ≡ true
  collected_in-only_errors k nil = refl
  collected_in-only_errors k (child f n cs) =
      append-only_errors (collect_errors k n) _ (collected-only_errors k n)
        (collected_in-only_errors k cs)

-- A file without diagnostics, or some diagnostics, each of which is an error.
unfoldable pub Reported : Result (List Diagnostic) SourceFile → Type 0
Reported (ok file) = Unit
Reported (err ds) = (only_errors ds ≡ true) × (is_nil ds ≡ false)

verdict-Reported :
    (file : SourceFile) (es : List Diagnostic) → only_errors es ≡ true → Reported (verdict file es)
unfolding verdict Reported is_nil
verdict-Reported file [] h = tt
verdict-Reported file (e ∷ es) h = (h, refl)

finish-Returns :
    (m : Log SourceFile)
    → Returns m
    → (r : Result (List Diagnostic) SourceFile) × (finish m ≡ some r) × Reported r
unfolding finish Returns
finish-Returns panicked r = absurd r
finish-Returns (done f ds) r = (verdict f ds, refl, verdict-Reported f ds r)

-- Lowering a text returns a file, or at least one diagnostic and none that is not an error, without a
-- panic, if the parser gives a tree whose single-quoted strings have their quotes.
pub lower_returns :
    (parse : String → Option Node) (source : String) (root : Node)
    → parse (normalize source) ≡ some root
    → IsQuoted root
    → (r : Result (List Diagnostic) SourceFile) × (lower parse source ≡ some r) × Reported r
lower_returns parse source root parsed quoted =
    let (r, found, errors) = finish-Returns _ (
      pushed-Returns (collect_errors "" root) (lower_source_file root)
        (collected-only_errors "" root) (lower_source_file-Returns root quoted)) in
    (r, of_root parse source root parsed ∙ found, errors)
