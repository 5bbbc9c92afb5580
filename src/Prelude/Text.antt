-- ===== src/Prelude/Text.antt =====
-- Rust's `str` methods that the code uses, over the native texts.
use Prim.Native.Nat.{ℕ, zero, suc}
use Prim.Native.Char.{code}
use Prim.Native.String.{String, ◌∷◌, ◌++◌ as ◌<>◌}
use mathlib.Core.Bool.{Bool, true, false, ◌||◌, ◌&&◌}
use mathlib.Core.List.{List}
use text.Mathlib.Text.{starts_with}
use i_ll.Prelude.Tests.{leb, nat_eq, if◌then◌else◌}

-- `str::is_empty`.
abbrev pub is_empty : String → Bool
is_empty String.[] = true
is_empty (c ∷ s) = false

-- `str::contains` of a text: it starts at some position.
unfoldable pub contains_str : String → String → Bool
contains_str String.[] needle = starts_with "" needle
contains_str (c ∷ s) needle = starts_with (c ∷ s) needle || contains_str s needle

-- `[String]::join`.
abbrev pub join : String → List String → String
join sep List.[] = ""
join sep (List.◌∷◌ s List.[]) = s
join sep (List.◌∷◌ s ss) = s <> (sep <> join sep ss)

-- `char::is_whitespace`, the property White_Space of Unicode.
unfoldable pub is_whitespace : ℕ → Bool
is_whitespace c =
    leb 9 c && leb c 13
    || (leb 8192 c && leb c 8202
        || (nat_eq c 32
            || (nat_eq c 133
                || (nat_eq c 160
                    || (nat_eq c 5760
                        || (nat_eq c 8232
                            || (nat_eq c 8233
                                || (nat_eq c 8239 || (nat_eq c 8287 || nat_eq c 12288)))))))))

-- `str::trim_end`, `str::trim_start` and `str::trim`.
unfoldable pub trim_end : String → String
unfolding is_whitespace
trim_end String.[] = ""
trim_end (c ∷ s) = let t = trim_end s in if is_empty t && is_whitespace (code c) then "" else c ∷ t

unfoldable pub trim_start : String → String
unfolding is_whitespace
trim_start String.[] = ""
trim_start (c ∷ s) = let t = trim_start s in if is_whitespace (code c) then t else c ∷ s

unfoldable pub trim : String → String
unfolding trim_end trim_start
trim s = trim_end (trim_start s)

-- The characters up to a number of them, and whether there are more.
unfoldable pub take_chars : ℕ → String → String
take_chars zero s = ""
take_chars (suc n) String.[] = ""
take_chars (suc n) (c ∷ s) = c ∷ take_chars n s

unfoldable pub is_longer : ℕ → String → Bool
is_longer n String.[] = false
is_longer zero (c ∷ s) = true
is_longer (suc n) (c ∷ s) = is_longer n s
