-- ===== src/Eval/Indexing.antt =====
-- Indexing with several indices (the loop of crates/ill-core/src/runtime/eval.rs).
use i_ll.Prelude.{ok, err, ◌>>=◌, >>=_congr, ◌≡◌, refl, ◌∙◌, sym}
use i_ll.Ast.{Span, Expr, Exprs}
use i_ll.Value.{Value}
use i_ll.Eval.{Scope, Eval, eval, eval_indices, index_into}

-- One list of indices after another.
unfoldable pub joined : Exprs → Exprs → Exprs
joined Exprs.nil js = js
joined (Exprs.cons e is) js = Exprs.cons e (joined is js)

>>=_assoc :
    {A B C : Type 0} (m : Eval A) (f : A → Eval B) (g : B → Eval C)
    → ((m >>= f) >>= g) ≡ (m >>= λ a. f a >>= g)
>>=_assoc (ok a) f g = refl
>>=_assoc (err e) f g = refl

eval_indices-joined :
    (scope : Scope) (is js : Exprs) (v : Value)
    → eval_indices scope (joined is js) v ≡ (eval_indices scope is v >>= eval_indices scope js)
unfolding joined eval_indices
eval_indices-joined scope Exprs.nil js v = refl
eval_indices-joined scope (Exprs.cons e is) js v =
    >>=_congr (eval scope e) _ _ (λ i.
      >>=_congr (index_into v i) _ _ (λ w. eval_indices-joined scope is js w)
      ∙ sym (>>=_assoc (index_into v i) (eval_indices scope is) (eval_indices scope js)))
    ∙ sym (>>=_assoc (eval scope e) _ (eval_indices scope js))

-- `o[i, …, j, …]` gives what `o[i, …][j, …]` gives, a failure included.
pub eval-index-joined :
    (scope : Scope) (object : Expr) (is js : Exprs) (span inner : Span)
    → eval scope (Expr.index object (joined is js) span)
      ≡ eval scope (Expr.index (Expr.index object is inner) js span)
unfolding eval
eval-index-joined scope object is js span inner =
    >>=_congr (eval scope object) _ _ (λ v. eval_indices-joined scope is js v)
    ∙ sym (>>=_assoc (eval scope object) (eval_indices scope is) (eval_indices scope js))
