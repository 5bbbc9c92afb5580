-- ===== src/Lower/Normalize/Canonical.antt =====
-- Normalized texts (crates/ill-core/src/lower.rs, `normalize`).
use Prim.Native.Char.{Char, code}
use Prim.Native.String.{◌∷◌}
use text.Mathlib.TextLemmas.{cons-append, nil-append}
use i_ll.Prelude.{
  ℕ, String, ◌<>◌, Bool, true, false, not, ◌&&◌, List, map, nat_eq, ◌≡◌, refl, ap, All, arith,
  if◌then◌else◌, ◌++◌,
}
use i_ll.Prelude.Text.{is_empty, trim_end, is_whitespace}
use i_ll.Lower.Normalize.{replace_crlf, replace_cr, in_front, split, expand_tabs, clean, unlines}

-- No character has the code.
unfoldable pub lacks : ℕ → String → Bool
lacks k String.[] = true
lacks k (c ∷ s) = not (nat_eq (code c) k) && lacks k s

-- A line without line breaks, tabs and white space at its end.
unfoldable pub IsClean : String → Type 0
unfolding lacks
IsClean l =
    (lacks b'\n' l ≡ true) × (lacks b'\r' l ≡ true) × (lacks b'\t' l ≡ true) × (trim_end l ≡ l)

pub replace_cr-lacks : (s : String) → lacks b'\r' (replace_cr s) ≡ true
unfolding lacks replace_cr
replace_cr-lacks String.[] = refl
replace_cr-lacks (c ∷ s) = ground (arith, replace_cr-lacks s)

unfoldable pub AllLack : ℕ → List String → Type 0
AllLack k ls = All (λ (l : String). lacks k l ≡ true) ls

in_front-AllLack :
    (k : ℕ) (c : Char) (ls : List String)
    → nat_eq (code c) k ≡ false
    → AllLack k ls
    → AllLack k (in_front c ls)
unfolding AllLack in_front lacks
in_front-AllLack k c List.[] h hs = tt
in_front-AllLack k c (List.◌∷◌ l ls) h (h', hs) = (ground (arith, h, h'), hs)

pub split-newlines : (s : String) → AllLack b'\n' (split s)
unfolding split AllLack lacks
split-newlines String.[] = (refl, tt)
split-newlines (c ∷ s) = ground (arith, split-newlines s, in_front-AllLack b'\n' c (split s))

pub split-AllLack : (k : ℕ) (s : String) → lacks k s ≡ true → AllLack k (split s)
unfolding split AllLack lacks
split-AllLack k String.[] h = (refl, tt)
split-AllLack k (c ∷ s) h = ground (arith, h, split-AllLack k s, in_front-AllLack k c (split s))

expand_tabs-tabs : (l : String) → lacks b'\t' (expand_tabs l) ≡ true
unfolding expand_tabs lacks
expand_tabs-tabs String.[] = refl
expand_tabs-tabs (c ∷ l) = ground (arith, expand_tabs-tabs l)

expand_tabs-lacks :
    (k : ℕ) (l : String) → nat_eq 32 k ≡ false → lacks k l ≡ true → lacks k (expand_tabs l) ≡ true
unfolding expand_tabs lacks
expand_tabs-lacks k String.[] h h' = refl
expand_tabs-lacks k (c ∷ l) h h' = ground (arith, h, h', expand_tabs-lacks k l)

trim_end-lacks : (k : ℕ) (l : String) → lacks k l ≡ true → lacks k (trim_end l) ≡ true
unfolding trim_end lacks
trim_end-lacks k String.[] h = refl
trim_end-lacks k (c ∷ l) h =
    elim (is_empty (trim_end l) && is_whitespace (code c))
      as (λ b. lacks k (if b then "" else c ∷ trim_end l) ≡ true) [
        | true ↦ refl
        | false ↦ ground (arith, h, trim_end-lacks k l)
      ]

trim_again :
    (b : Bool) (c : Char) (t : String)
    → (is_empty t && is_whitespace (code c)) ≡ b
    → trim_end t ≡ t
    → trim_end (if b then "" else c ∷ t) ≡ (if b then "" else c ∷ t)
unfolding trim_end
trim_again true c t h ih = refl
trim_again false c t h ih = rw (ih, h) refl

trim_end_idem : (l : String) → trim_end (trim_end l) ≡ trim_end l
unfolding trim_end
trim_end_idem String.[] = refl
trim_end_idem (c ∷ l) = trim_again _ c (trim_end l) refl (trim_end_idem l)

clean-IsClean : (l : String) → lacks b'\n' l ≡ true → lacks b'\r' l ≡ true → IsClean (clean l)
unfolding IsClean clean
clean-IsClean l h h' = (
  trim_end-lacks b'\n' _ (expand_tabs-lacks b'\n' l refl h),
  trim_end-lacks b'\r' _ (expand_tabs-lacks b'\r' l refl h'),
  trim_end-lacks b'\t' _ (expand_tabs-tabs l),
  trim_end_idem (expand_tabs l),
)

expand_tabs-id : (l : String) → lacks b'\t' l ≡ true → expand_tabs l ≡ l
unfolding expand_tabs lacks
expand_tabs-id String.[] h = refl
expand_tabs-id (c ∷ l) h = ground (arith, h, expand_tabs-id l)

clean-id : (l : String) → IsClean l → clean l ≡ l
unfolding IsClean clean
clean-id l (n, r, t, e) = rw (expand_tabs-id l t) e

unfoldable pub AllClean : List String → Type 0
AllClean ls = All IsClean ls

pub cleaned : (ls : List String) → AllLack b'\n' ls → AllLack b'\r' ls → AllClean (map clean ls)
unfolding AllLack AllClean
cleaned List.[] h h' = tt
cleaned (List.◌∷◌ l ls) (h, hs) (h', hs') = (clean-IsClean l h h', cleaned ls hs hs')

pub map-clean-id : (ls : List String) → AllClean ls → map clean ls ≡ ls
unfolding AllClean
map-clean-id List.[] h = refl
map-clean-id (List.◌∷◌ l ls) (h, hs) = cc (clean-id l h, map-clean-id ls hs)

-- A text without carriage returns keeps its line breaks.
pub replace_cr-id : (s : String) → lacks b'\r' s ≡ true → replace_cr s ≡ s
unfolding replace_cr lacks
replace_cr-id String.[] h = refl
replace_cr-id (c ∷ s) h = ground (arith, h, replace_cr-id s)

pub replace_crlf-id : (s : String) → lacks b'\r' s ≡ true → replace_crlf s ≡ s
unfolding replace_crlf lacks
replace_crlf-id String.[] h = refl
replace_crlf-id (c ∷ String.[]) h = refl
replace_crlf-id (c ∷ d ∷ s) h = ground (arith, h, replace_crlf-id (d ∷ s))

lacks-append :
    (k : ℕ) (s t : String) → lacks k s ≡ true → lacks k t ≡ true → lacks k (s <> t) ≡ true
unfolding lacks
lacks-append k String.[] t h h' = rw (nil-append t) h'
lacks-append k (c ∷ s) t h h' = rw (cons-append c s t) (ground (arith, h, lacks-append k s t))

pub unlines-returns : (ls : List String) → AllClean ls → lacks b'\r' (unlines ls) ≡ true
unfolding AllClean IsClean unlines lacks
unlines-returns List.[] h = refl
unlines-returns (List.◌∷◌ l ls) ((n, r, t, e), hs) =
    lacks-append b'\r' l _ r (ground (arith, unlines-returns ls hs))

-- The first line of a text is split off.
split-line : (l r : String) → lacks b'\n' l ≡ true → split (l <> ("\n" ∷ r)) ≡ List.◌∷◌ l (split r)
unfolding split lacks in_front
split-line String.[] r h = rw (nil-append ("\n" ∷ r)) refl
split-line (c ∷ l) r h = rw (cons-append c l ("\n" ∷ r)) (ground (arith, h, split-line l r))

pub split-unlines :
    (ls : List String) → AllClean ls → split (unlines ls) ≡ ls ++ List.◌∷◌ "" List.[]
unfolding AllClean IsClean unlines split
split-unlines List.[] h = refl
split-unlines (List.◌∷◌ l ls) ((n, r, t, e), hs) =
    rw (split-line l (unlines ls) n) (ap (List.◌∷◌ l) (split-unlines ls hs))
