-- ===== src/Squiggle/Hex/RoundTrip.antt =====
-- `~hex` reads back what two digits for each byte spell, blanks left out
-- (crates/ill-core/src/runtime/squiggle/hex.rs).
use Prim.Native.Char.{Char, code}
use Prim.Native.String.{◌∷◌}
use i_ll.Prelude.{
  ℕ, zero, suc, ◌/◌, ◌%◌, ◌<◌, ◌≡◌, refl, ◌∙◌, String, Bool, true, false, ◌&&◌, Option, none, some,
  List, ◌++◌, ok, not, ap, ◌>>=◌, >>=_congr, All, arith, nat_eq, nat_eq_iff, if◌then◌else◌,
  Bool-cases, inl, inr,
}
use mathlib.Core.List.{append-nil, append_assoc}
use i_ll.Squiggle.Hex.{
  is_ascii_whitespace, nibble, join_nibbles, take_nibble, take_char, finish, decode_from,
  decode_hex,
}

-- The text without its blanks.
unfoldable pub without_blanks : String → String
without_blanks String.[] = ""
without_blanks (ch ∷ s) =
    let rest = without_blanks s in if is_ascii_whitespace (code ch) then rest else ch ∷ rest

decode_from-without_blanks :
    (high : Option ℕ) (out : List ℕ) (s : String)
    → decode_from high out (without_blanks s) ≡ decode_from high out s
unfolding decode_from without_blanks
decode_from-without_blanks high out String.[] = refl
decode_from-without_blanks high out (ch ∷ s) = elim (Bool-cases (is_ascii_whitespace (code ch))) [
  | inl blank ↦ rw (blank) (decode_from-without_blanks high out s)
  | inr solid ↦
      rw (solid, solid)
        (>>=_congr (take_char high out ch) _ _ λ step. decode_from-without_blanks step.0 step.1 s)
]

-- Blanks between the digits change nothing, in what is decoded and in what is refused.
pub decode_hex-without_blanks : (s : String) → decode_hex (without_blanks s) ≡ decode_hex s
unfolding decode_hex
decode_hex-without_blanks s = decode_from-without_blanks none List.[] s

-- The digit of a number below 16.
unfoldable pub hex_digit : ℕ → Char
hex_digit n =
    if nat_eq n 0
    then "0"
    else if nat_eq n 1
    then "1"
    else if nat_eq n 2
    then "2"
    else if nat_eq n 3
    then "3"
    else if nat_eq n 4
    then "4"
    else if nat_eq n 5
    then "5"
    else if nat_eq n 6
    then "6"
    else if nat_eq n 7
    then "7"
    else if nat_eq n 8
    then "8"
    else if nat_eq n 9
    then "9"
    else if nat_eq n 10
    then "a"
    else if nat_eq n 11
    then "b"
    else if nat_eq n 12
    then "c"
    else if nat_eq n 13
    then "d"
    else if nat_eq n 14
    then "e"
    else "f"

-- Two digits for each byte.
unfoldable pub encode_hex : List ℕ → String
encode_hex List.[] = ""
encode_hex (List.◌∷◌ b bs) = hex_digit (b / 16) ∷ (hex_digit (b % 16) ∷ encode_hex bs)

-- Every pair of nibbles is a byte, and every digit stands for its number.
holds_to : (ℕ → Bool) → ℕ → Bool
holds_to p zero = true
holds_to p (suc n) = holds_to p n && p n

holds_to-lt : (p : ℕ → Bool) (n m : ℕ) → m < n → holds_to p n ≡ true → p m ≡ true
unfolding holds_to
holds_to-lt p zero m below checked = absurd (omega arith)
holds_to-lt p (suc n) m below checked = ground (arith, holds_to-lt p n m)

join_table : holds_to (λ b. nat_eq (join_nibbles (b / 16) (b % 16)) b) 256 ≡ true
unfolding holds_to join_nibbles
join_table = refl

join-div-mod : (b : ℕ) → b < 256 → join_nibbles (b / 16) (b % 16) ≡ b
join-div-mod b h =
    (nat_eq_iff (join_nibbles (b / 16) (b % 16)) b).0 (holds_to-lt _ 256 b h join_table)

is_value : ℕ → Option ℕ → Bool
is_value n none = false
is_value n (some m) = nat_eq m n

is_value_sound : (n : ℕ) (o : Option ℕ) → is_value n o ≡ true → o ≡ some n
unfolding is_value
is_value_sound n none h = cc
is_value_sound n (some m) h = ap some ((nat_eq_iff m n).0 h)

digit_table :
    holds_to
      (λ n.
        is_value n (nibble (code (hex_digit n))) && not (is_ascii_whitespace (code (hex_digit n))))
      16
    ≡ true
unfolding holds_to is_value nibble is_ascii_whitespace hex_digit
digit_table = refl

digit_checked :
    (n : ℕ)
    → n < 16
    → (is_value n (nibble (code (hex_digit n))) && not (is_ascii_whitespace (code (hex_digit n))))
      ≡ true
digit_checked n h = holds_to-lt _ 16 n h digit_table

nibble-hex_digit : (n : ℕ) → n < 16 → nibble (code (hex_digit n)) ≡ some n
nibble-hex_digit n h = is_value_sound n _ (ground (arith, digit_checked n h))

hex_digit-solid : (n : ℕ) → n < 16 → is_ascii_whitespace (code (hex_digit n)) ≡ false
hex_digit-solid n h = ground (arith, digit_checked n h)

decode-digit :
    (high : Option ℕ) (out : List ℕ) (n : ℕ) (s : String)
    → n < 16
    → decode_from high out (hex_digit n ∷ s)
      ≡ (take_nibble high out n >>= λ step. decode_from step.0 step.1 s)
unfolding decode_from take_char
decode-digit high out n s h = rw (hex_digit-solid n h) (rw (nibble-hex_digit n h, take_char))

decode-byte :
    (out : List ℕ) (b : ℕ) (s : String)
    → b < 256
    → decode_from none out (hex_digit (b / 16) ∷ (hex_digit (b % 16) ∷ s))
      ≡ decode_from none (out ++ List.◌∷◌ b List.[]) s
unfolding take_nibble
decode-byte out b s h =
    rw (decode-digit none out (b / 16) _ (omega arith))
      (rw (decode-digit (some (b / 16)) out (b % 16) s (omega arith)) (rw (join-div-mod b h)))

decode_from-encode_hex :
    (out bs : List ℕ)
    → All (λ b. b < 256) bs
    → decode_from none out (encode_hex bs) ≡ ok (out ++ bs)
unfolding encode_hex
decode_from-encode_hex out List.[] h = unfold decode_from finish in rw append-nil
decode_from-encode_hex out (List.◌∷◌ b bs) (hb, hbs) =
    decode-byte out b (encode_hex bs) hb
    ∙ decode_from-encode_hex (out ++ List.◌∷◌ b List.[]) bs hbs
    ∙ rw append_assoc

-- Bytes spelled by two hex digits each are decoded to themselves.
pub decode_hex-encode_hex :
    (bs : List ℕ) → All (λ b. b < 256) bs → decode_hex (encode_hex bs) ≡ ok bs
unfolding decode_hex
decode_hex-encode_hex bs h = decode_from-encode_hex List.[] bs h
