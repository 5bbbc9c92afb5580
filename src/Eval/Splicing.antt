-- ===== src/Eval/Splicing.antt =====
-- Interpolation of string literals and of `~b` (crates/ill-core/src/runtime/squiggle/bytes.rs and
-- `concat_fragments` of crates/ill-core/src/runtime/squiggle/mod.rs).
use i_ll.Prelude.{String, ok, err, ◌>>=◌, map_ok, ◌≡◌, refl}
use i_ll.Ast.{Span, Expr, Fragments}
use i_ll.Value.{Value}
use i_ll.Squiggle.{bytes, get_squiggle, eval_squiggle}
use i_ll.Squiggle.Honest.{run_squiggle-honest}
use i_ll.Squiggle.Utf8.{from_utf8-into_bytes}
use i_ll.Eval.{Scope, Eval, render, eval, concat_fragments}

rendered_bytes : (r : Eval String) → (eval_squiggle bytes r >>= render) ≡ r
unfolding eval_squiggle render
rendered_bytes (ok s) = rw (from_utf8-into_bytes s) refl
rendered_bytes (err e) = refl

rendered_string : (r : Eval String) → (map_ok Value.string r >>= render) ≡ r
unfolding render
rendered_string (ok s) = refl
rendered_string (err e) = refl

-- A string literal, and a `~b` squiggle, that is interpolated puts exactly the text of its fragments
-- into the text around it, and fails as its fragments do.
pub eval-render :
    (scope : Scope) (fragments : Fragments) (name_span span : Span)
    → ((eval scope (Expr.string_lit fragments span) >>= render) ≡ concat_fragments scope fragments)
      × ((eval scope (Expr.squiggle (record { name = "b"; span = name_span }) fragments span)
            >>= render)
          ≡ concat_fragments scope fragments)
unfolding eval get_squiggle
eval-render scope fragments name_span span = (
  rendered_string (concat_fragments scope fragments),
  rw (run_squiggle-honest "b" bytes (concat_fragments scope fragments))
      (rendered_bytes (concat_fragments scope fragments)),
)
