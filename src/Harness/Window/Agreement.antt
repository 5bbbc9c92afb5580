-- ===== src/Harness/Window/Agreement.antt =====
-- The validator and the harness agree on which commands are expected to fail
-- (crates/ill-core/src/validate.rs and crates/ill-core/src/runtime/harness.rs).
use mathlib.Core.List.{append-nil, append_assoc}
use i_ll.Prelude.{
  ◌≡◌, refl, ◌∙◌, ap, sym, String, Bool, true, false, not, ◌&&◌, ◌||◌, List, [], ◌∷◌, ◌++◌, arith,
  if◌then◌else◌, ◌==◌, eq_iff,
}
use i_ll.Ast.{Span, Expr, Statement, LetValue, Let, Assert, Assignment}
use i_ll.Diagnostic.{Diagnostic}
use i_ll.Validate.Expr.{
  check_squiggles, expr_starts_with_ident, CommandOutcome, implied_ok, explicit_ok, explicit_error,
  is_ok, advance_outcome,
}
use i_ll.Validate.Block.{
  BlockState, push_all, advance, note_let, note_assert, check_let, check_statement, check_body,
}
use i_ll.Harness.Window.{let_refs_error, has_error_ref}

exclusive : (x a b : String) → (a == b) ≡ false → (x == a) ≡ true → (x == b) ≡ false
exclusive x a b h e = rw ((eq_iff x a).0 e) h

-- A chain has one root.
not_error_of_ok :
    (e : Expr) → expr_starts_with_ident e "ok" ≡ true → expr_starts_with_ident e "error" ≡ false
unfolding expr_starts_with_ident
not_error_of_ok (Expr.ident x) h = exclusive x.name "ok" "error" refl h
not_error_of_ok (Expr.member_access object property span) h = not_error_of_ok object h
not_error_of_ok (Expr.index object indices span) h = not_error_of_ok object h
not_error_of_ok _ h = cc

nil_of_append_nil {ℓ} : {A : Type ℓ} (xs ys : List A) → xs ++ ys ≡ [] → xs ≡ []
nil_of_append_nil [] ys h = refl
nil_of_append_nil (x ∷ xs) ys h = cc

nil_of_append_nil_right {ℓ} : {A : Type ℓ} (xs ys : List A) → xs ++ ys ≡ [] → ys ≡ []
nil_of_append_nil_right [] ys h = h
nil_of_append_nil_right (x ∷ xs) ys h = cc

-- What a statement pushes stays.
pub record Grows (s t : BlockState) : Type 0 where
  pub more : List Diagnostic
  pub grown : t.diagnostics ≡ s.diagnostics ++ more

Grows-trans : {s t u : BlockState} → Grows s t → Grows t u → Grows s u
Grows-trans {s} g k = record {
  more = g.more ++ k.more;
  grown = k.grown ∙ ap (λ l. l ++ k.more) g.grown ∙ append_assoc s.diagnostics g.more k.more;
}

advance-Grows : (b : Bool) (span : Span) (s : BlockState) → Grows s (advance b span s)
unfolding advance
advance-Grows b span s = record { more = (advance_outcome s.outcome b span).1; grown = refl }

Grows-nil : {s t : BlockState} → Grows s t → t.diagnostics ≡ [] → s.diagnostics ≡ []
Grows-nil g h = nil_of_append_nil _ g.more (sym g.grown ∙ h)

-- The outcome after a reference, if no conflict is reported.
advance-is_ok :
    (b : Bool) (span : Span) (s : BlockState)
    → (advance b span s).diagnostics ≡ []
    → is_ok (advance b span s).outcome ≡ (is_ok s.outcome && b)
unfolding advance advance_outcome is_ok
advance-is_ok b span s h = go s.outcome b (nil_of_append_nil_right _ _ h)
  where
    go :
        (o : CommandOutcome) (b : Bool)
        → (advance_outcome o b span).1 ≡ []
        → is_ok (advance_outcome o b span).0 ≡ (is_ok o && b)
    go implied_ok true h = refl
    go implied_ok false h = refl
    go explicit_ok true h = refl
    go explicit_ok false h = cc
    go explicit_error true h = cc
    go explicit_error false h = refl

-- Each statement that is no command, seen as a reference or not.
note_let-is_ok :
    (e : Expr) (span : Span) (s : BlockState)
    → (note_let e span s).diagnostics ≡ []
    → is_ok (note_let e span s).outcome
      ≡ (is_ok s.outcome && not (expr_starts_with_ident e "error"))
unfolding note_let
note_let-is_ok e span s h =
    ground (arith, not_error_of_ok e, advance-is_ok true span s, advance-is_ok false span s)

note_assert-is_ok :
    (e : Expr) (span : Span) (s : BlockState)
    → (note_assert e span s).diagnostics ≡ []
    → is_ok (note_assert e span s).outcome
      ≡ (is_ok s.outcome && not (expr_starts_with_ident e "error"))
unfolding note_assert
note_assert-is_ok e span s h =
    ground (arith, not_error_of_ok e, advance-is_ok true span s, advance-is_ok false span s)

note_let-Grows : (e : Expr) (span : Span) (s : BlockState) → Grows s (note_let e span s)
unfolding note_let
note_let-Grows e span s = choose (expr_starts_with_ident e "ok") (expr_starts_with_ident e "error")
  where
    choose :
        (a b : Bool)
        → Grows s (if a then advance true span s else if b then advance false span s else s)
    choose true b = advance-Grows true span s
    choose false true = advance-Grows false span s
    choose false false = record { more = []; grown = sym (append-nil _) }

note_assert-Grows : (e : Expr) (span : Span) (s : BlockState) → Grows s (note_assert e span s)
unfolding note_assert
note_assert-Grows e span s =
    choose (expr_starts_with_ident e "ok") (expr_starts_with_ident e "error")
  where
    choose : (a b : Bool) → Grows s (if a || b then advance a span s else s)
    choose true b = advance-Grows true span s
    choose false true = advance-Grows false span s
    choose false false = record { more = []; grown = sym (append-nil _) }

push_all-Grows : {s t : BlockState} (ds : List Diagnostic) → Grows s t → Grows s (push_all t ds)
unfolding push_all
push_all-Grows {s} ds g = record {
  more = g.more ++ ds;
  grown = ap (λ l. l ++ ds) g.grown ∙ append_assoc s.diagnostics g.more ds;
}

check_statement-Grows :
    (actor : String) (stmt : Statement) (s : BlockState) → Grows s (check_statement actor stmt s)
unfolding check_statement push_all
check_statement-Grows actor (Statement.command cmd) s = record { more = _; grown = refl }
check_statement-Grows actor (Statement.assert a) s =
    push_all-Grows _ (note_assert-Grows a.left a.span s)
check_statement-Grows actor (Statement.let_ l) s = let_case l.value
  where
    let_case : (v : LetValue) → Grows s (check_let actor l v s)
    let_case (LetValue.expr e) =
        let g : Grows s (push_all (note_let e l.span s) (check_squiggles e)) =
          push_all-Grows (check_squiggles e) (note_let-Grows e l.span s) in
        record { more = g.more; grown = g.grown }
    let_case (LetValue.parse source format) = record { more = check_squiggles source; grown = refl }
check_statement-Grows actor (Statement.assignment a) s = record { more = _; grown = refl }

check_body-Grows :
    (actor : String) (stmts : List Statement) (s : BlockState) → Grows s (check_body actor stmts s)
unfolding check_body
check_body-Grows actor [] s = record { more = []; grown = sym (append-nil _) }
check_body-Grows actor (stmt ∷ stmts) s =
    Grows-trans (check_statement-Grows actor stmt s)
      (check_body-Grows actor stmts (check_statement actor stmt s))

check_let-is_ok :
    (actor : String) (l : Let) (v : LetValue) (s : BlockState)
    → (check_let actor l v s).diagnostics ≡ []
    → is_ok (check_let actor l v s).outcome ≡ (is_ok s.outcome && not (let_refs_error v))
unfolding check_let push_all let_refs_error
check_let-is_ok actor l (LetValue.expr e) s h = note_let-is_ok e l.span s (nil_of_append_nil _ _ h)
check_let-is_ok actor l (LetValue.parse source format) s h = ground arith

assert_step :
    (actor : String) (a : Assert) (s : BlockState)
    → (check_statement actor (Statement.assert a) s).diagnostics ≡ []
    → is_ok (check_statement actor (Statement.assert a) s).outcome
      ≡ (is_ok s.outcome && not (expr_starts_with_ident a.left "error"))
unfolding check_statement push_all
assert_step actor a s h = note_assert-is_ok a.left a.span s (nil_of_append_nil _ _ h)

let_step :
    (actor : String) (l : Let) (s : BlockState)
    → (check_statement actor (Statement.let_ l) s).diagnostics ≡ []
    → is_ok (check_statement actor (Statement.let_ l) s).outcome
      ≡ (is_ok s.outcome && not (let_refs_error l.value))
unfolding check_statement
let_step actor l s h = check_let-is_ok actor l l.value s h

assignment_step :
    (actor : String) (a : Assignment) (s : BlockState) (b : Bool)
    → (is_ok (check_statement actor (Statement.assignment a) s).outcome && b)
      ≡ (is_ok s.outcome && b)
unfolding check_statement push_all
assignment_step actor a s b = refl

-- The statements before the next command.
unfoldable pub window : List Statement → List Statement
window [] = []
window (Statement.command c ∷ stmts) = []
window (stmt ∷ stmts) = stmt ∷ window stmts

module _ (actor : String) where
  rest_nil :
      (stmt : Statement) (stmts : List Statement) (s : BlockState)
      → (check_body actor stmts (check_statement actor stmt s)).diagnostics ≡ []
      → (check_statement actor stmt s).diagnostics ≡ []
  rest_nil stmt stmts s h =
      Grows-nil (check_body-Grows actor stmts (check_statement actor stmt s)) h

  -- Where the validator has reported nothing by the end of the statements that follow a command, it
  -- takes the command for successful exactly if it did so before them and the harness finds no
  -- reference to `error` among them.
  pub window_agreement :
      (stmts : List Statement) (s : BlockState)
      → (check_body actor (window stmts) s).diagnostics ≡ []
      → is_ok (check_body actor (window stmts) s).outcome
        ≡ (is_ok s.outcome && not (has_error_ref stmts))
  unfolding window check_body has_error_ref
  window_agreement [] s h = ground arith
  window_agreement (Statement.command c ∷ stmts) s h = ground arith
  window_agreement (Statement.assert a ∷ stmts) s h = ground (
    arith,
    window_agreement stmts (check_statement actor (Statement.assert a) s) h,
    assert_step actor a s (rest_nil (Statement.assert a) (window stmts) s h),
  )
  window_agreement (Statement.let_ l ∷ stmts) s h = ground (
    arith,
    window_agreement stmts (check_statement actor (Statement.let_ l) s) h,
    let_step actor l s (rest_nil (Statement.let_ l) (window stmts) s h),
  )
  window_agreement (Statement.assignment a ∷ stmts) s h =
      window_agreement stmts (check_statement actor (Statement.assignment a) s) h
      ∙ assignment_step actor a s (not (has_error_ref stmts))
