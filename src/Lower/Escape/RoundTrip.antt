-- ===== src/Lower/Escape/RoundTrip.antt =====
-- Escaped texts are read back (crates/ill-core/src/lower.rs, `unescape`).
use Prim.Native.Char.{Char, code, nul}
use Prim.Native.String.{◌∷◌}
use text.Mathlib.TextEquality.{Char-path}
use i_ll.Prelude.{
  String, Bool, true, false, Option, none, some, ok, nat_eq, ◌≡◌, refl, if◌then◌else◌, arith,
  nat_eq_iff, ap, sym,
}
use i_ll.Lower.Escape.{revealed, keep, keep_revealed, unescape, hidden, write, escape}

coded : (c d : Char) → nat_eq (code c) (code d) ≡ true → some d ≡ some c
coded c d h = ap some (Char-path d c (sym ((nat_eq_iff (code c) (code d)).0 h)))

-- One test of `hidden`.
branch :
    (b : Bool) (a : Char) (o : Option Char) (c d : Char)
    → (b ≡ true → revealed a ≡ some c)
    → (o ≡ some d → revealed d ≡ some c)
    → (if b then some a else o) ≡ some d
    → revealed d ≡ some c
branch true a o c d hit miss h = cc (hit refl, h)
branch false a o c d hit miss h = miss h

-- The character that is written after the backslash stands for the one that is hidden.
hidden-revealed : (c d : Char) → hidden c ≡ some d → revealed d ≡ some c
unfolding hidden revealed
hidden-revealed c d = branch _ _ _ c d (coded c "\\") (
    branch _ _ _ c d (coded c "\"") (
      branch _ _ _ c d (coded c "\n") (
        branch _ _ _ c d (coded c "\t") (
          branch _ _ _ c d (coded c "\r")
            (branch _ _ _ c d (coded c nul) (branch _ _ _ c d (coded c "$") (λ h. cc)))))))

hidden-plain : (c : Char) → hidden c ≡ none → nat_eq (code c) b'\\' ≡ false
unfolding hidden
hidden-plain c h = ground arith

unescape-plain :
    (c : Char) (s : String) → nat_eq (code c) b'\\' ≡ false → unescape (c ∷ s) ≡ keep c (unescape s)
unfolding unescape keep
unescape-plain c String.[] h = rw h
unescape-plain c (d ∷ s) h = ground (arith, h)

write-read :
    (c : Char) (o : Option Char) (s : String)
    → hidden c ≡ o
    → unescape (write c o s) ≡ keep c (unescape s)
unfolding write
write-read c none s h = unescape-plain c s (hidden-plain c h)
write-read c (some d) s h = unfold unescape keep_revealed in rw (hidden-revealed c d h)

-- A text written with escape sequences between double quotes is read back as it was.
pub unescape-escape : (s : String) → unescape (escape s) ≡ ok s
unfolding escape
unescape-escape String.[] = unfold unescape in refl
unescape-escape (c ∷ s) =
    rw (write-read c (hidden c) (escape s) refl, unescape-escape s) (unfold keep in refl)
