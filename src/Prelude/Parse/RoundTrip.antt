-- ===== src/Prelude/Parse/RoundTrip.antt =====
-- Printed integers are parsed back.
use Prim.Native.Nat.{ℕ, zero, suc, ◌+◌, ◌-◌, ◌*◌, ◌/◌, ◌%◌, ◌<◌}
use Prim.Native.Char.{Char, code}
use Prim.Native.String.{String, ◌∷◌, ◌++◌ as ◌<>◌}
use mathlib.Core.Bool.{Bool, true, false, ◌&&◌}
use mathlib.Core.Path.{◌≡◌, refl, ap, ◌∙◌}
use mathlib.Core.Logic.{inl, inr}
use mathlib.Core.Option.{none, some}
use native.Mathlib.Omega.{arith}
use text.Mathlib.TextLemmas.{cons-append, nil-append}
use i_ll.Prelude.Int.{ℤ, pos, negsuc, digit, show_go, show_ℕ, show_ℤ}
use i_ll.Prelude.Tests.{Bool-cases, ltb→lt, nat_eq, leb, ltb, if◌then◌else◌}
use i_ll.Prelude.Parse.{parse_digits, parse_magnitude, positive, negative, parse_i64}

is_digit : ℕ → Bool
is_digit c = leb b'0' c && leb c b'9'

begins_digit : String → Bool
unfolding is_digit
begins_digit String.[] = false
begins_digit (c ∷ s) = is_digit (code c)

-- A text that reads on from `a` as `m` and starts with a digit.
Reads : ℕ → ℕ → String → String → Type 0
Reads a m t s = (parse_digits a t ≡ parse_digits m s) × (begins_digit t ≡ true)

Reads-trans : (a m n : ℕ) (t s r : String) → Reads a m t s → Reads m n s r → Reads a n t r
unfolding Reads
Reads-trans a m n t s r (h, d) (h', d') = (h ∙ h', d)

one-Reads :
    (c : Char) (a d m : ℕ) (s : String)
    → is_digit (code c) ≡ true
    → code c ≡ d + b'0'
    → m ≡ a * 10 + d
    → Reads a m ((c ∷ "") <> s) s
unfolding Reads parse_digits begins_digit is_digit
one-Reads c a d m s h e value =
    rw (cons-append c "" s, nil-append s)
      (ground (arith, h, e, ap (λ k. parse_digits k s) (digit_value (code c) e)), h)
  where
    digit_value : (k : ℕ) → k ≡ d + b'0' → a * 10 + (k - b'0') ≡ m
    digit_value k e = omega (arith, e, value)

branch :
    (b : Bool) (a d m : ℕ) (c : Char) (t s : String)
    → is_digit (code c) ≡ true
    → m ≡ a * 10 + d
    → (b ≡ true → code c ≡ d + b'0')
    → (b ≡ false → Reads a m (t <> s) s)
    → Reads a m ((if b then c ∷ "" else t) <> s) s
branch true a d m c t s h value e other = one-Reads c a d m s h (e refl) value
branch false a d m c t s h value e other = other refl

digit-Reads : (a d m : ℕ) (s : String) → d < 10 → m ≡ a * 10 + d → Reads a m (digit d <> s) s
unfolding is_digit
digit-Reads a d m s h v =
    branch (nat_eq d 0) a d m "0" _ s refl v (λ e. ground arith)
      λ n0.
        branch (nat_eq d 1) a d m "1" _ s refl v (λ e. ground arith)
          λ n1.
            branch (nat_eq d 2) a d m "2" _ s refl v (λ e. ground arith)
              λ n2.
                branch (nat_eq d 3) a d m "3" _ s refl v (λ e. ground arith)
                  λ n3.
                    branch (nat_eq d 4) a d m "4" _ s refl v (λ e. ground arith)
                      λ n4.
                        branch (nat_eq d 5) a d m "5" _ s refl v (λ e. ground arith)
                          λ n5.
                            branch (nat_eq d 6) a d m "6" _ s refl v (λ e. ground arith)
                              λ n6.
                                branch (nat_eq d 7) a d m "7" _ s refl v (λ e. ground arith)
                                  λ n7.
                                    branch (nat_eq d 8) a d m "8" _ s refl v (λ e. ground arith)
                                      λ n8. one-Reads "9" a d m s refl (ground arith) v

show_go-Reads : (fuel n : ℕ) (s : String) → n < fuel → Reads 0 n (show_go fuel n s) s
unfolding show_go
show_go-Reads zero n s h = absurd (omega arith)
show_go-Reads (suc fuel) n s h =
    elim (Bool-cases (ltb n 10))
      as (λ _.
        Reads 0 n (if ltb n 10 then digit n <> s else show_go fuel (n / 10) (digit (n % 10) <> s))
          s) [
            | inl e ↦ rw e (digit-Reads 0 n n s (ltb→lt n 10 e) (omega arith))
            | inr e ↦ rw e (
                Reads-trans 0 (n / 10) n _ (digit (n % 10) <> s) s
                  (show_go-Reads fuel (n / 10) (digit (n % 10) <> s) (ground arith))
                  (digit-Reads (n / 10) (n % 10) n s (omega arith) (omega arith)))
          ]

show_ℕ-Reads : (n : ℕ) → Reads 0 n (show_ℕ n) ""
unfolding show_ℕ
show_ℕ-Reads n = show_go-Reads (suc n) n "" (omega arith)

magnitude : (n : ℕ) (t : String) → Reads 0 n t "" → parse_magnitude t ≡ some n
unfolding Reads parse_magnitude parse_digits begins_digit
magnitude n String.[] (h, d) = absurd (cc d)
magnitude n (c ∷ t) (h, d) = h

unsigned : (n : ℕ) (t : String) → Reads 0 n t "" → parse_i64 t ≡ positive (parse_magnitude t)
unfolding Reads parse_i64 begins_digit is_digit
unsigned n String.[] (h, d) = absurd (cc d)
unsigned n (c ∷ t) (h, d) = ground (arith, d)

-- The number is an `i64`.
unfoldable pub in_i64 : ℤ → Bool
in_i64 (pos n) = leb n 9223372036854775807
in_i64 (negsuc n) = leb n 9223372036854775807

-- The decimal print of an integer is parsed as that integer if it is an `i64`, and refused if not.
pub parse_i64-show_ℤ : (i : ℤ) → parse_i64 (show_ℤ i) ≡ (if in_i64 i then some i else none)
unfolding show_ℤ in_i64
parse_i64-show_ℤ (pos n) =
    unsigned n (show_ℕ n) (show_ℕ-Reads n)
    ∙ rw (magnitude n (show_ℕ n) (show_ℕ-Reads n)) (unfold positive in refl)
parse_i64-show_ℤ (negsuc n) =
    rw (cons-append "-" "" (show_ℕ (suc n)), nil-append (show_ℕ (suc n)))
      (unfold parse_i64 in
        rw (magnitude (suc n) (show_ℕ (suc n)) (show_ℕ-Reads (suc n))) (unfold negative in refl))
