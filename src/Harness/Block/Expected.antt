-- ===== src/Harness/Block/Expected.antt =====
-- Expected errors (crates/ill-core/src/runtime/harness.rs) against the mode transitions of the
-- validator (crates/ill-core/src/validate.rs).
use i_ll.Prelude.{String, Bool, true, false, not, List, [], Result, ok, err, ◌≡◌, refl, arith}
use i_ll.Ast.{Statement, Command}
use i_ll.Value.{Dict}
use i_ll.Eval.{Scope}
use i_ll.Runtime.{RunOutcome}
use i_ll.Validate.Expr.{is_ok}
use i_ll.Validate.Block.{BlockState, check_body, check_new_command}
use i_ll.Harness.Window.{has_error_ref}
use i_ll.Harness.Window.Agreement.{window, window_agreement}
use i_ll.Harness.Block.{StatementReport, settle}

abbrev pub goes_on : Result StatementReport Scope → Bool
goes_on (ok scope) = true
goes_on (err report) = false

settle-error :
    (actor : String) (cmd : Command) (rest : List Statement) (scope : Scope) (variant : String)
    (fields : Dict)
    → goes_on (settle actor cmd rest scope (RunOutcome.error variant fields)) ≡ has_error_ref rest
unfolding settle
settle-error actor cmd rest scope variant fields = ground arith

new_command-is_ok :
    (actor : String) (cmd : Command) (s : BlockState)
    → is_ok (check_new_command actor cmd s).outcome ≡ true
unfolding check_new_command is_ok
new_command-is_ok actor cmd s = refl

-- Where the validator has reported nothing by the next command, the harness takes an error of the
-- command for expected, and goes on, exactly if the validator takes the command to have failed, so
-- that it makes no mode transition for it.
pub settle_agreement :
    (actor : String) (cmd : Command) (rest : List Statement) (scope : Scope) (variant : String)
    (fields : Dict) (s : BlockState)
    → (check_body actor (window rest) (check_new_command actor cmd s)).diagnostics ≡ []
    → goes_on (settle actor cmd rest scope (RunOutcome.error variant fields))
      ≡ not (is_ok (check_body actor (window rest) (check_new_command actor cmd s)).outcome)
settle_agreement actor cmd rest scope variant fields s h = ground (
  arith,
  settle-error actor cmd rest scope variant fields,
  new_command-is_ok actor cmd s,
  window_agreement actor rest (check_new_command actor cmd s) h,
)
