-- ===== src/Squiggle/Honest.antt =====
-- The types that squiggles declare (crates/ill-core/src/runtime/squiggle and the check in
-- crates/ill-core/src/runtime/eval.rs).
use i_ll.Prelude.{String, some, ok, err, ◌>>=◌, map_ok, ◌≡◌, refl, List, ℕ}
use i_ll.Value.{Value, is_of_type}
use i_ll.Squiggle.{Squiggle, output_type, sql, json, hex, bytes, re, eval_squiggle}
use i_ll.Squiggle.Hex.{decode_hex}
use i_ll.Eval.{Eval, run_squiggle, check_output}

string-honest :
    (s : Squiggle) (r : Eval String)
    → ((x : String) → check_output s (Value.string x) ≡ ok (Value.string x))
    → (map_ok Value.string r >>= check_output s) ≡ map_ok Value.string r
string-honest s (ok x) fits = fits x
string-honest s (err e) fits = refl

bytes-honest :
    (s : Squiggle) (r : Eval (List ℕ))
    → ((x : List ℕ) → check_output s (Value.bytes x) ≡ ok (Value.bytes x))
    → (map_ok Value.bytes r >>= check_output s) ≡ map_ok Value.bytes r
bytes-honest s (ok x) fits = fits x
bytes-honest s (err e) fits = refl

-- No squiggle breaks the type that it declares: the check after its evaluation changes nothing.
pub run_squiggle-honest :
    (name : String) (s : Squiggle) (rendered : Eval String)
    → run_squiggle name (some s) rendered ≡ eval_squiggle s rendered
unfolding run_squiggle eval_squiggle check_output is_of_type output_type
run_squiggle-honest name sql rendered = string-honest sql rendered λ x. refl
run_squiggle-honest name json rendered = string-honest json rendered λ x. refl
run_squiggle-honest name re rendered = string-honest re rendered λ x. refl
run_squiggle-honest name hex (ok s) = bytes-honest hex (decode_hex s) λ x. refl
run_squiggle-honest name hex (err e) = refl
run_squiggle-honest name bytes (ok s) = refl
run_squiggle-honest name bytes (err e) = refl
