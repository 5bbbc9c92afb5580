-- ===== src/Squiggle/Hex.antt =====
-- `~hex` (crates/ill-core/src/runtime/squiggle/hex.rs).
pub mod RoundTrip
use Prim.Native.Nat.{bit_or}
use Prim.Native.Char.{Char, code}
use i_ll.Prelude.{
  ℕ, ◌+◌, ◌-◌, ◌*◌, ◌%◌, ◌≡◌, refl, String, ◌<>◌, Bool, ◌&&◌, ◌||◌, Option, none, some, List, [],
  ◌∷◌, ◌++◌, Result, ok, err, ◌>>=◌, leb, nat_eq, if◌then◌else◌,
}
use i_ll.Errors.{RuntimeError}

-- `char::is_ascii_whitespace`.
unfoldable pub is_ascii_whitespace : ℕ → Bool
is_ascii_whitespace c = nat_eq c 32 || (nat_eq c 9 || (nat_eq c 10 || (nat_eq c 12 || nat_eq c 13)))

-- The value of a hex digit.
unfoldable pub nibble : ℕ → Option ℕ
nibble c =
    if leb b'0' c && leb c b'9'
    then some (c - b'0')
    else if leb b'a' c && leb c b'f'
    then some (c - b'a' + 10)
    else if leb b'A' c && leb c b'F'
    then some (c - b'A' + 10)
    else none

-- `(hi << 4) | n` of `u8`.
unfoldable pub join_nibbles : ℕ → ℕ → ℕ
join_nibbles hi n = bit_or (hi * 16 % 256) n

-- The text `s` of one character, in a message.
abbrev one_char : Char → String
one_char c = String.◌∷◌ c String.[]

-- What a character that is no blank does to the waiting nibble and the bytes.
abbrev pub Step : Type 0
Step = Result RuntimeError (Option ℕ × List ℕ)

unfoldable pub take_nibble : Option ℕ → List ℕ → ℕ → Step
unfolding join_nibbles
take_nibble none out n = ok (some n, out)
take_nibble (some hi) out n = ok (none, out ++ join_nibbles hi n ∷ [])

unfoldable pub take_char : Option ℕ → List ℕ → Char → Step
take_char high out ch = elim (nibble (code ch)) [
  | none ↦
      err (RuntimeError.eval ("invalid hex character `" <> (one_char ch <> "` in ~hex literal")))
  | some n ↦ take_nibble high out n
]

-- The end of the text.
unfoldable pub finish : Option ℕ → List ℕ → Result RuntimeError (List ℕ)
finish none out = ok out
finish (some hi) out = err (RuntimeError.eval "~hex literal has odd nibble count")

unfoldable pub decode_from : Option ℕ → List ℕ → String → Result RuntimeError (List ℕ)
decode_from high out String.[] = finish high out
decode_from high out (String.◌∷◌ ch s) =
    let skip = decode_from high out s in
    let next : Result RuntimeError (List ℕ) = do
      (high', out') ← take_char high out ch
      decode_from high' out' s
    in if is_ascii_whitespace (code ch) then skip else next

unfoldable pub decode_hex : String → Result RuntimeError (List ℕ)
unfolding decode_from is_ascii_whitespace take_char nibble take_nibble finish
decode_hex s = decode_from none [] s

decode_hex_mixed : decode_hex "DE aD\tBE\nef" ≡ ok (222 ∷ 173 ∷ 190 ∷ 239 ∷ [])
unfolding decode_hex
decode_hex_mixed = refl

decode_hex_odd : decode_hex "DEA" ≡ err (RuntimeError.eval "~hex literal has odd nibble count")
unfolding decode_hex
decode_hex_odd = refl
