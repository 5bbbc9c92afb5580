-- ===== src/Eval/Registered.antt =====
-- The evaluator on expressions without unknown squiggles (crates/ill-core/src/runtime/eval.rs).
use Prim.Native.Char.{Char, code}
use Prim.Native.String.{◌∷◌}
use text.Mathlib.TextLemmas.{cons-append}
use i_ll.Prelude.{
  ℕ, String, ◌<>◌, Bool, true, false, ◌&&◌, Option, none, some, List, Result, ok, err, ◌>>=◌,
  map_ok, ◌≡◌, refl, nat_eq, if◌then◌else◌, arith,
}
use i_ll.Prelude.Int.{pos, negsuc}
use i_ll.Prelude.Maps.{lookup}
use i_ll.Ast.{Expr, Exprs, Fragments}
use i_ll.Value.{Value, get, is_of_type}
use i_ll.Value.Dicts.{get_index, get_value?}
use i_ll.Errors.{RuntimeError}
use i_ll.Squiggle.{Squiggle, sql, json, hex, bytes, re, get_squiggle, eval_squiggle, output_type}
use i_ll.Squiggle.Hex.{
  decode_hex, decode_from, finish, take_char, take_nibble, nibble, is_ascii_whitespace,
}
use i_ll.Squiggle.Utf8.{from_utf8}
use i_ll.Validate.Expr.Known.{IsRegistered, IsKnown, AreKnown, AreSpliced, check_squiggles-IsKnown}
use i_ll.Validate.Expr.{check_squiggles}
use i_ll.Eval.{
  Scope, Eval, fail, or_fail, no_field, member, out_of_bounds, negative, index_into, render,
  check_output, run_squiggle, eval, eval_all, eval_indices, concat_fragments,
}

-- The text `s` starts with `t`.
unfoldable pub begins : String → String → Bool
begins String.[] s = true
begins (c ∷ t) String.[] = false
begins (c ∷ t) (d ∷ s) = nat_eq (code c) (code d) && begins t s

-- The texts differ at some position of both.
differ : String → String → Bool
differ String.[] s = false
differ (c ∷ t) String.[] = false
differ (c ∷ t) (d ∷ s) = if nat_eq (code c) (code d) then differ t s else true

begins-append : (t s r : String) → differ t s ≡ true → begins t (s <> r) ≡ false
unfolding begins differ
begins-append String.[] s r h = cc
begins-append (c ∷ t) String.[] r h = cc
begins-append (c ∷ t) (d ∷ s) r h = rw (cons-append d s r) (ground (arith, begins-append t s r))

-- The evaluation fails for a squiggle that is not registered.
unfoldable pub blames_squiggle {ℓ} : {A : Type ℓ} → Result RuntimeError A → Bool
unfolding begins
blames_squiggle (ok a) = false
blames_squiggle (err (RuntimeError.eval msg)) = begins "unknown squiggle" msg
blames_squiggle (err e) = false

Fine : {A : Type 0} → Eval A → Type 0
Fine m = blames_squiggle m ≡ false

-- A message that starts with this text says something else.
says :
    (A : Type 0) (s r : String) → differ "unknown squiggle" s ≡ true → Fine {A = A} (fail (s <> r))
unfolding Fine blames_squiggle
says A s r h = begins-append "unknown squiggle" s r h

bind-Fine :
    {A B : Type 0} (m : Eval A) (f : A → Eval B) → Fine m → ((a : A) → Fine (f a)) → Fine (m >>= f)
unfolding Fine
bind-Fine (ok a) f h k = k a
bind-Fine (err (RuntimeError.eval msg)) f h k = unfold blames_squiggle in h
bind-Fine (err e) f h k = unfold blames_squiggle in refl

map-Fine : {A B : Type 0} (f : A → B) (m : Eval A) → Fine m → Fine (map_ok f m)
unfolding Fine blames_squiggle
map-Fine f (ok a) h = refl
map-Fine f (err (RuntimeError.eval msg)) h = h
map-Fine f (err e) h = refl

ok-Fine : {A : Type 0} (a : A) → Fine (ok a)
unfolding Fine blames_squiggle
ok-Fine a = refl

or_fail-Fine :
    {A : Type 0} (o : Option A) (msg : String) → Fine {A = A} (fail msg) → Fine (or_fail o msg)
or_fail-Fine none msg h = h
or_fail-Fine (some a) msg h = ok-Fine a

member-Fine : (v : Value) (name : String) → Fine (member v name)
unfolding member no_field differ
member-Fine (Value.dict d) name = or_fail-Fine (get name d) _ (says _ "no field `" _ refl)
member-Fine v name = says _ "cannot access `." _ refl

index_into-Fine : (v w : Value) → Fine (index_into v w)
unfolding index_into no_field out_of_bounds negative differ
index_into-Fine (Value.array vs) (Value.number (pos i)) =
    or_fail-Fine (get_value? vs i) _ (says _ "array" _ refl)
index_into-Fine (Value.array vs) (Value.number (negsuc i)) = says _ "array" _ refl
index_into-Fine (Value.dict d) (Value.string key) =
    or_fail-Fine (get key d) _ (says _ "no field `" _ refl)
index_into-Fine (Value.dict d) (Value.number (pos i)) =
    or_fail-Fine (get_index d i) _ (says _ "dict" _ refl)
index_into-Fine (Value.dict d) (Value.number (negsuc i)) = says _ "dict" _ refl
index_into-Fine v w = says _ "cannot index " _ refl

render-Fine : (v : Value) → Fine (render v)
unfolding render differ
render-Fine (Value.string s) = ok-Fine _
render-Fine (Value.number n) = ok-Fine _
render-Fine (Value.bool true) = ok-Fine _
render-Fine (Value.bool false) = ok-Fine _
render-Fine (Value.atom a) = ok-Fine _
render-Fine (Value.bytes b) = or_fail-Fine (from_utf8 b) _ (unfold Fine blames_squiggle in refl)
render-Fine v = says _ "cannot interpolate " _ refl

if-Fine : {A : Type 0} (b : Bool) (m n : Eval A) → Fine m → Fine n → Fine (if b then m else n)
if-Fine true m n x y = x
if-Fine false m n x y = y

check_output-Fine : (s : Squiggle) (v : Value) → Fine (check_output s v)
unfolding check_output differ
check_output-Fine s v =
    if-Fine (is_of_type v (output_type s)) _ _ (ok-Fine v) (says _ "squiggle `~" _ refl)

take_char-Fine : (high : Option ℕ) (out : List ℕ) (ch : Char) → Fine (take_char high out ch)
unfolding take_char take_nibble differ
take_char-Fine high out ch = choose high (nibble (code ch)) _
  where
    choose :
        (high : Option ℕ) (o : Option ℕ) (rest : String)
        → Fine (elim o as (λ _. Eval (Option ℕ × List ℕ)) [
          | none ↦ fail ("invalid hex character `" <> rest)
          | some n ↦ take_nibble high out n
        ])
    choose high none rest = says _ "invalid hex character `" rest refl
    choose none (some n) rest = ok-Fine _
    choose (some hi) (some n) rest = ok-Fine _

decode_from-Fine : (high : Option ℕ) (out : List ℕ) (s : String) → Fine (decode_from high out s)
unfolding decode_from finish
decode_from-Fine none out String.[] = ok-Fine out
decode_from-Fine (some hi) out String.[] = unfold Fine blames_squiggle in refl
decode_from-Fine high out (ch ∷ s) =
    if-Fine (is_ascii_whitespace (code ch)) _ _ (decode_from-Fine high out s) (
      bind-Fine (take_char high out ch) _ (take_char-Fine high out ch)
        λ next. decode_from-Fine next.0 next.1 s)

eval_squiggle-Fine : (s : Squiggle) (r : Eval String) → Fine r → Fine (eval_squiggle s r)
unfolding eval_squiggle decode_hex
eval_squiggle-Fine sql r h = map-Fine Value.string r h
eval_squiggle-Fine json r h = map-Fine Value.string r h
eval_squiggle-Fine re r h = map-Fine Value.string r h
eval_squiggle-Fine bytes r h = bind-Fine r _ h λ s. ok-Fine _
eval_squiggle-Fine hex r h =
    bind-Fine r _ h λ s. map-Fine Value.bytes _ (decode_from-Fine none List.[] s)

run_squiggle-Fine :
    (name : String) (o : Option Squiggle) (r : Eval String)
    → IsRegistered o
    → Fine r
    → Fine (run_squiggle name o r)
unfolding run_squiggle IsRegistered
run_squiggle-Fine name none r known h = elim known [ ]
run_squiggle-Fine name (some s) r known h =
    bind-Fine (eval_squiggle s r) _ (eval_squiggle-Fine s r h) (check_output-Fine s)

module _ (scope : Scope) where
  mutual
    unfolding eval IsKnown differ

    eval-Fine : (e : Expr) → IsKnown e → Fine (eval scope e)
    eval-Fine (Expr.number n) known = ok-Fine _
    eval-Fine (Expr.bool b) known = ok-Fine _
    eval-Fine Expr.null known = ok-Fine _
    eval-Fine (Expr.atom a) known = ok-Fine _
    eval-Fine (Expr.string_lit fragments span) known =
        map-Fine Value.string _ (fragments-Fine fragments known)
    eval-Fine (Expr.ident x) known =
        or_fail-Fine (lookup x.name scope) _ (says _ "undefined name `" _ refl)
    eval-Fine (Expr.member_access object property span) known =
        bind-Fine (eval scope object) _ (eval-Fine object known) λ v. member-Fine v property.name
    eval-Fine (Expr.array items) known = map-Fine Value.array _ (items-Fine items known)
    eval-Fine (Expr.squiggle name fragments span) (registered, spliced) =
        run_squiggle-Fine name.name (get_squiggle name.name) _ registered
          (fragments-Fine fragments spliced)
    eval-Fine (Expr.index object indices span) (object_known, indices_known) =
        bind-Fine (eval scope object) _ (eval-Fine object object_known)
          (indices-Fine indices indices_known)

    items-Fine : (es : Exprs) → AreKnown es → Fine (eval_all scope es)
    items-Fine Exprs.nil known = ok-Fine _
    items-Fine (Exprs.cons e es) (first, rest) =
        bind-Fine (eval scope e) _ (eval-Fine e first)
          λ v. bind-Fine (eval_all scope es) _ (items-Fine es rest) λ vs. ok-Fine _

    indices-Fine : (es : Exprs) → AreKnown es → (v : Value) → Fine (eval_indices scope es v)
    indices-Fine Exprs.nil known v = ok-Fine v
    indices-Fine (Exprs.cons e es) (first, rest) v =
        bind-Fine (eval scope e) _ (eval-Fine e first)
          λ i. bind-Fine (index_into v i) _ (index_into-Fine v i) (indices-Fine es rest)

    fragments-Fine : (fs : Fragments) → AreSpliced fs → Fine (concat_fragments scope fs)
    fragments-Fine Fragments.end known = ok-Fine _
    fragments-Fine (Fragments.text t frags) known =
        bind-Fine (concat_fragments scope frags) _ (fragments-Fine frags known) λ rest. ok-Fine _
    fragments-Fine (Fragments.interpolation e frags) (first, rest) =
        bind-Fine (eval scope e) _ (eval-Fine e first) λ v.
          bind-Fine (render v) _ (render-Fine v) λ s.
            bind-Fine (concat_fragments scope frags) _ (fragments-Fine frags rest) λ more. ok-Fine _

-- The evaluation of an expression in which the validator finds no unknown squiggle never fails with
-- the message about an unknown squiggle, whatever the scope.
pub check_squiggles-eval :
    (e : Expr) (scope : Scope)
    → check_squiggles e ≡ List.[]
    → blames_squiggle (eval scope e) ≡ false
unfolding Fine
check_squiggles-eval e scope h = eval-Fine scope e (check_squiggles-IsKnown e h)
