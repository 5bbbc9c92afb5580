-- ===== src/Lower/Normalize/Stable.antt =====
-- A normalized text is made of clean lines and is normalized again to itself
-- (crates/ill-core/src/lower.rs, `normalize`).
use Prim.Native.Char.{Char}
use Prim.Native.String.{◌∷◌}
use text.Mathlib.TextLemmas.{cons-append, nil-append}
use i_ll.Prelude.{
  String, ◌<>◌, Bool, true, false, List, map, ◌≡◌, refl, ◌∙◌, ap, All, arith, if◌then◌else◌, ◌++◌,
  ◌&&◌,
}
use i_ll.Prelude.Text.{is_empty, trim_end}
use i_ll.Lower.Normalize.{
  replace_crlf, replace_cr, split, in_front, clean, unlines, is_newline, collapse, normalize,
}
use i_ll.Lower.Normalize.Canonical.{
  lacks, IsClean, AllClean, cleaned, split-newlines, split-AllLack, replace_cr-lacks, replace_cr-id,
  replace_crlf-id, unlines-returns, split-unlines, map-clean-id,
}

-- The only line is empty.
is_blank : List String → Bool
is_blank List.[] = false
is_blank (List.◌∷◌ l List.[]) = is_empty l
is_blank (List.◌∷◌ l (List.◌∷◌ m ms)) = false

-- The lines without the empty ones at the end, but never without the first.
unfoldable pub drop_blank : List String → List String
unfolding is_blank
drop_blank List.[] = List.[]
drop_blank (List.◌∷◌ l ls) =
    let rest = drop_blank ls in if is_blank rest then List.◌∷◌ l List.[] else List.◌∷◌ l rest

drop_blank-AllClean : (ls : List String) → AllClean ls → AllClean (drop_blank ls)
unfolding AllClean drop_blank
drop_blank-AllClean List.[] h = tt
drop_blank-AllClean (List.◌∷◌ l ls) (h, hs) =
    elim (is_blank (drop_blank ls))
      as (λ b. All IsClean (if b then List.◌∷◌ l List.[] else List.◌∷◌ l (drop_blank ls))) [
        | true ↦ (h, tt)
        | false ↦ (h, drop_blank-AllClean ls hs)
      ]

newline-blank : (ls : List String) → AllClean ls → is_newline (unlines ls) ≡ is_blank ls
unfolding AllClean IsClean is_newline unlines is_blank lacks
newline-blank List.[] h = refl
newline-blank (List.◌∷◌ String.[] List.[]) h = refl
newline-blank (List.◌∷◌ String.[] (List.◌∷◌ String.[] ms)) h =
    rw (nil-append ("\n" ∷ ("" <> ("\n" ∷ unlines ms))), nil-append ("\n" ∷ unlines ms)) refl
newline-blank (List.◌∷◌ String.[] (List.◌∷◌ (c ∷ m) ms)) h =
    rw (nil-append ("\n" ∷ ((c ∷ m) <> ("\n" ∷ unlines ms))), cons-append c m ("\n" ∷ unlines ms))
      refl
newline-blank (List.◌∷◌ (c ∷ l) List.[]) ((n, r, t, e), hs) =
    rw (cons-append c l ("\n" ∷ "")) (ground (arith, n))
newline-blank (List.◌∷◌ (c ∷ l) (List.◌∷◌ m ms)) ((n, r, t, e), hs) =
    rw (cons-append c l ("\n" ∷ unlines (List.◌∷◌ m ms))) (ground (arith, n))

collapse-line :
    (l t : String) → lacks b'\n' l ≡ true → collapse (l <> ("\n" ∷ t)) ≡ l <> collapse ("\n" ∷ t)
unfolding lacks collapse
collapse-line String.[] t h = rw (nil-append ("\n" ∷ t), nil-append (collapse ("\n" ∷ t))) refl
collapse-line (c ∷ l) t h =
    rw (cons-append c l ("\n" ∷ t), cons-append c l (collapse ("\n" ∷ t)))
      (ground (arith, h, collapse-line l t))

ended :
    (l : String) (d : List String)
    → (l <> (if is_blank d then unlines d else "\n" ∷ unlines d))
      ≡ unlines (if is_blank d then List.◌∷◌ l List.[] else List.◌∷◌ l d)
unfolding is_blank unlines
ended l List.[] = refl
ended l (List.◌∷◌ String.[] List.[]) = refl
ended l (List.◌∷◌ (c ∷ m) List.[]) = refl
ended l (List.◌∷◌ m (List.◌∷◌ n ms)) = refl

collapse-unlines :
    (ls : List String) → AllClean ls → collapse (unlines ls) ≡ unlines (drop_blank ls)
unfolding AllClean IsClean unlines drop_blank collapse
collapse-unlines List.[] h = refl
collapse-unlines (List.◌∷◌ l ls) ((n, r, t, e), hs) =
    rw
      (
        collapse-line l (unlines ls) n,
        collapse-unlines ls hs,
        newline-blank (drop_blank ls) (drop_blank-AllClean ls hs),
      )
      (ended l (drop_blank ls))

-- A text is normal if it is made of one clean line or more, a newline after each, and no empty line at
-- the end follows another line.
unfoldable pub IsNormal : String → Type 0
unfolding AllClean drop_blank
IsNormal t =
    (l : String) × (ls : List String) × (t ≡ unlines (List.◌∷◌ l ls))
    × AllClean (List.◌∷◌ l ls)
    × (drop_blank (List.◌∷◌ l ls) ≡ List.◌∷◌ l ls)

drop_blank-again :
    (b : Bool) (l : String) (d : List String)
    → is_blank d ≡ b
    → drop_blank d ≡ d
    → drop_blank (if b then List.◌∷◌ l List.[] else List.◌∷◌ l d)
      ≡ (if b then List.◌∷◌ l List.[] else List.◌∷◌ l d)
unfolding drop_blank is_blank
drop_blank-again true l d h ih = refl
drop_blank-again false l d h ih = rw (ih, h) refl

drop_blank_idem : (ls : List String) → drop_blank (drop_blank ls) ≡ drop_blank ls
unfolding drop_blank
drop_blank_idem List.[] = refl
drop_blank_idem (List.◌∷◌ l ls) = drop_blank-again _ l (drop_blank ls) refl (drop_blank_idem ls)

-- The lines that a source text is made of, with a tab as two spaces and without white space at the end.
unfoldable pub lines_of : String → List String
lines_of s = map clean (split (replace_cr (replace_crlf s)))

lines_of-AllClean : (s : String) → AllClean (lines_of s)
unfolding lines_of
lines_of-AllClean s =
    cleaned _ (split-newlines _) (split-AllLack b'\r' _ (replace_cr-lacks (replace_crlf s)))

the_lines : (s : String) → normalize s ≡ unlines (drop_blank (lines_of s))
unfolding normalize lines_of
the_lines s = collapse-unlines (lines_of s) (lines_of-AllClean s)

is_cons : List String → Bool
is_cons List.[] = false
is_cons (List.◌∷◌ l ls) = true

in_front-is_cons :
    (c : Char) (ls : List String) → is_cons ls ≡ true → is_cons (in_front c ls) ≡ true
unfolding in_front is_cons
in_front-is_cons c List.[] h = h
in_front-is_cons c (List.◌∷◌ l ls) h = refl

split-is_cons : (s : String) → is_cons (split s) ≡ true
unfolding split is_cons
split-is_cons String.[] = refl
split-is_cons (c ∷ s) = ground (arith, in_front-is_cons c (split s) (split-is_cons s))

drop_blank-is_cons :
    (ls : List String) → is_cons ls ≡ true → is_cons (drop_blank (map clean ls)) ≡ true
unfolding drop_blank is_cons
drop_blank-is_cons List.[] h = h
drop_blank-is_cons (List.◌∷◌ l ls) h = ground arith

unfoldable pub all_empty : List String → Bool
all_empty List.[] = true
all_empty (List.◌∷◌ l ls) = is_empty l && all_empty ls

-- What is dropped are empty lines at the end.
Kept : List String → List String → Type 0
Kept ls d = (blank : List String) × (ls ≡ d ++ blank) × (all_empty blank ≡ true)

drop_blank-end :
    (l : String) (ls : List String)
    → drop_blank (List.◌∷◌ l ls ++ List.◌∷◌ "" List.[]) ≡ drop_blank (List.◌∷◌ l ls)
unfolding drop_blank is_blank
drop_blank-end l List.[] = refl
drop_blank-end l (List.◌∷◌ m ls) = rw (drop_blank-end m ls) refl

AllClean-end : (ls : List String) → AllClean ls → AllClean (ls ++ List.◌∷◌ "" List.[])
unfolding AllClean IsClean lacks trim_end
AllClean-end List.[] h = ((refl, refl, refl, refl), tt)
AllClean-end (List.◌∷◌ l ls) (h, hs) = (h, AllClean-end ls hs)

renormalized :
    (ls : List String)
    → AllClean ls
    → normalize (unlines ls) ≡ unlines (drop_blank (ls ++ List.◌∷◌ "" List.[]))
unfolding normalize
renormalized ls h =
    rw
      (
        replace_crlf-id (unlines ls) (unlines-returns ls h),
        replace_cr-id (unlines ls) (unlines-returns ls h),
        split-unlines ls h,
        map-clean-id (ls ++ List.◌∷◌ "" List.[]) (AllClean-end ls h),
      )
      (collapse-unlines _ (AllClean-end ls h))

-- Normal lines are kept.
normal-fixed :
    (ls : List String)
    → is_cons ls ≡ true
    → AllClean ls
    → drop_blank ls ≡ ls
    → normalize (unlines ls) ≡ unlines ls
normal-fixed List.[] c h settled = unfold is_cons in cc
normal-fixed (List.◌∷◌ l ls) c h settled =
    renormalized (List.◌∷◌ l ls) h ∙ ap unlines (drop_blank-end l ls ∙ settled)

-- Normalizing a normalized text changes nothing.
pub normalize_idem : (s : String) → normalize (normalize s) ≡ normalize s
unfolding lines_of
normalize_idem s =
    let lines = lines_of s in
    let clean_lines = lines_of-AllClean s in
    rw (the_lines s) (
      normal-fixed (drop_blank lines)
        (drop_blank-is_cons (split (replace_cr (replace_crlf s))) (split-is_cons _))
        (drop_blank-AllClean lines clean_lines) (drop_blank_idem lines))
