-- ===== src/Lower/Escape.antt =====
-- Escape sequences of double-quoted strings (crates/ill-core/src/lower.rs).
pub mod RoundTrip
use Prim.Native.Char.{Char, code, nul}
use Prim.Native.String.{◌∷◌}
use text.Mathlib.TextEquality.{Char-path}
use i_ll.Prelude.{
  ℕ, String, ◌<>◌, Bool, true, false, Option, none, some, Result, ok, err, map_ok, nat_eq, ◌≡◌,
  refl, if◌then◌else◌, arith, nat_eq_iff, Bool-cases, inl, inr, ap, sym, ◌∙◌,
}

-- What a backslash and the character stand for.
unfoldable pub revealed : Char → Option Char
revealed c =
    if nat_eq (code c) b'\\'
    then some "\\"
    else if nat_eq (code c) b'"'
    then some "\""
    else if nat_eq (code c) b'n'
    then some "\n"
    else if nat_eq (code c) b't'
    then some "\t"
    else if nat_eq (code c) b'r'
    then some "\r"
    else if nat_eq (code c) b'0'
    then some nul
    else if nat_eq (code c) b'$'
    then some "$"
    else none

-- The character is put before the rest, and an escape sequence replaced.
keep : Char → Result String String → Result String String
keep c (ok s) = ok (c ∷ s)
keep c (err e) = err e

keep_revealed : Char → Option Char → Result String String → Result String String
unfolding keep
keep_revealed c none rest = err ("unknown escape sequence `\\" <> ((c ∷ String.[]) <> "`"))
keep_revealed c (some d) rest = keep d rest

unfoldable pub unescape : String → Result String String
unfolding keep_revealed revealed
unescape String.[] = ok ""
unescape (c ∷ String.[]) =
    if nat_eq (code c) b'\\' then err "dangling backslash at end of string" else ok (c ∷ String.[])
unescape (c ∷ d ∷ s) =
    let escaped = keep_revealed d (revealed d) (unescape s) in
    let plain = keep c (unescape (d ∷ s)) in if nat_eq (code c) b'\\' then escaped else plain

-- A way to write any text in double quotes: a backslash before each character that needs one.
unfoldable pub hidden : Char → Option Char
hidden c =
    if nat_eq (code c) b'\\'
    then some "\\"
    else if nat_eq (code c) b'"'
    then some "\""
    else if nat_eq (code c) 10
    then some "n"
    else if nat_eq (code c) 9
    then some "t"
    else if nat_eq (code c) 13
    then some "r"
    else if nat_eq (code c) 0
    then some "0"
    else if nat_eq (code c) b'$'
    then some "$"
    else none

write : Char → Option Char → String → String
write c none rest = c ∷ rest
write c (some d) rest = "\\" ∷ d ∷ rest

unfoldable pub escape : String → String
unfolding write hidden
escape String.[] = ""
escape (c ∷ s) = write c (hidden c) (escape s)

tests : (unescape "a\\n\\$b" ≡ ok "a\n$b") × (unescape (escape "\t\"q\\") ≡ ok "\t\"q\\")
unfolding unescape escape
tests = (refl, refl)
