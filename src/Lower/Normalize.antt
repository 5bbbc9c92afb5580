-- ===== src/Lower/Normalize.antt =====
-- The normalization of a source text (crates/ill-core/src/lower.rs).

pub mod Canonical
pub mod Stable
use Prim.Native.Char.{Char, code}
use Prim.Native.String.{◌∷◌}
use i_ll.Prelude.{
  ℕ, String, ◌<>◌, Bool, true, false, ◌&&◌, List, map, nat_eq, ◌≡◌, refl, if◌then◌else◌,
}
use i_ll.Prelude.Text.{is_empty, trim_end}

-- `replace("\r\n", "\n")`.
unfoldable pub replace_crlf : String → String
replace_crlf String.[] = ""
replace_crlf (c ∷ String.[]) = c ∷ String.[]
replace_crlf (c ∷ d ∷ s) =
    let joined = replace_crlf s in
    let next = replace_crlf (d ∷ s) in
    if nat_eq (code c) b'\r' && nat_eq (code d) b'\n' then "\n" ∷ joined else c ∷ next

-- `replace('\r', "\n")`.
unfoldable pub replace_cr : String → String
replace_cr String.[] = ""
replace_cr (c ∷ s) =
    let rest = replace_cr s in if nat_eq (code c) b'\r' then "\n" ∷ rest else c ∷ rest

-- The character is put in front of the first line.
in_front : Char → List String → List String
in_front c List.[] = List.[]
in_front c (List.◌∷◌ l ls) = List.◌∷◌ (c ∷ l) ls

-- `split('\n')`.
unfoldable pub split : String → List String
unfolding in_front
split String.[] = List.◌∷◌ "" List.[]
split (c ∷ s) =
    let rest = split s in if nat_eq (code c) b'\n' then List.◌∷◌ "" rest else in_front c rest

-- `replace('\t', "  ")`.
unfoldable pub expand_tabs : String → String
expand_tabs String.[] = ""
expand_tabs (c ∷ s) =
    let rest = expand_tabs s in if nat_eq (code c) b'\t' then " " ∷ " " ∷ rest else c ∷ rest

unfoldable pub clean : String → String
unfolding expand_tabs
clean line = trim_end (expand_tabs line)

-- Each line with a newline after it.
unfoldable pub unlines : List String → String
unlines List.[] = ""
unlines (List.◌∷◌ l ls) = l <> ("\n" ∷ unlines ls)

is_newline : String → Bool
is_newline String.[] = false
is_newline (c ∷ s) = nat_eq (code c) b'\n' && is_empty s

-- `while result.ends_with("\n\n") { result.pop(); }`: of the newlines at the end only one stays.
unfoldable pub collapse : String → String
unfolding is_newline
collapse String.[] = ""
collapse (c ∷ s) =
    let rest = collapse s in if nat_eq (code c) b'\n' && is_newline rest then rest else c ∷ rest

unfoldable pub normalize : String → String
unfolding replace_crlf replace_cr split clean unlines collapse
normalize src = collapse (unlines (map clean (split (replace_cr (replace_crlf src)))))

tests : normalize "a\r\n\tb  \rc\n\n\n" ≡ "a\n  b\nc\n"
unfolding normalize trim_end
tests = refl
