-- ===== src/Cli/Files/Collected.antt =====
-- Which files of a directory the command line takes up (crates/ill/src/main.rs, `collect_ill_files`).
use i_ll.Prelude.{
  ℕ, suc, ◌+◌, ◌<>◌, Bool, true, false, ◌&&◌, List, [], ◌∷◌, ◌++◌, ◌≡◌, refl, ◌∙◌, arith,
  if◌then◌else◌,
}
use i_ll.Cli.Files.{
  Dir, Entries, FileSystem, Found, is_ill_file, both, collect_ill_files_inner, collect_entries,
  insert_before, sort, collect_ill_files,
}

-- The order of the paths is total.
unfoldable pub IsTotal : {P : Type 0} → (P → P → Bool) → Type 0
IsTotal {P} le = (p q : P) → le p q ≡ false → le q p ≡ true

module _ (F : FileSystem) where
  -- The number of files named `ill` somewhere below a directory that satisfy a test.
  unfoldable mutual
    pub below : (F.PathBuf → Bool) → Dir F.PathBuf → ℕ
    below t (Dir.cannot_read e) = 0
    below t (Dir.listed es) = among t es

    pub among : (F.PathBuf → Bool) → Entries F.PathBuf → ℕ
    among t Entries.nil = 0
    among t (Entries.unreadable e es) = among t es
    among t (Entries.directory p d es) = below t d + among t es
    among t (Entries.file p es) =
        let rest = among t es in if is_ill_file F p && t p then suc rest else rest

  unfoldable pub count_of : (F.PathBuf → Bool) → List F.PathBuf → ℕ
  count_of t [] = 0
  count_of t (p ∷ ps) = let rest = count_of t ps in if t p then suc rest else rest

  unfoldable pub is_sorted : List F.PathBuf → Bool
  is_sorted [] = true
  is_sorted (p ∷ []) = true
  is_sorted (p ∷ q ∷ ps) = F.le p q && is_sorted (q ∷ ps)

  append-count_of :
      (t : F.PathBuf → Bool) (ps qs : List F.PathBuf)
      → count_of t (ps ++ qs) ≡ count_of t ps + count_of t qs
  unfolding count_of
  append-count_of t [] qs = omega arith
  append-count_of t (p ∷ ps) qs = ground (arith, append-count_of t ps qs)

  both-count_of :
      (t : F.PathBuf → Bool) (a b : Found F)
      → count_of t (both F a b).1 ≡ count_of t a.1 + count_of t b.1
  unfolding both
  both-count_of t a b = append-count_of t a.1 b.1

  file-count_of :
      (t : F.PathBuf → Bool) (p : F.PathBuf) (found : Found F) (n : ℕ)
      → count_of t found.1 ≡ n
      → count_of t (if is_ill_file F p then both F ([], p ∷ []) found else found).1
        ≡ (if is_ill_file F p && t p then suc n else n)
  unfolding both count_of
  file-count_of t p found n h = ground (arith, h)

  mutual
    unfolding collect_ill_files_inner below count_of

    inner-count_of :
        (t : F.PathBuf → Bool) (p : F.PathBuf) (d : Dir F.PathBuf)
        → count_of t (collect_ill_files_inner F p d).1 ≡ below t d
    inner-count_of t p (Dir.cannot_read e) = refl
    inner-count_of t p (Dir.listed es) = entries-count_of t es

    entries-count_of :
        (t : F.PathBuf → Bool) (es : Entries F.PathBuf)
        → count_of t (collect_entries F es).1 ≡ among t es
    entries-count_of t Entries.nil = refl
    entries-count_of t (Entries.unreadable e es) =
        let same : 0 + count_of t (collect_entries F es).1 ≡ among t es =
          omega (arith, entries-count_of t es) in
        both-count_of t (("ill: error reading directory entry: " <> e) ∷ [], [])
          (collect_entries F es)
        ∙ same
    entries-count_of t (Entries.directory p d es) =
        both-count_of t (collect_ill_files_inner F p d) (collect_entries F es)
        ∙ omega (arith, inner-count_of t p d, entries-count_of t es)
    entries-count_of t (Entries.file p es) = file-count_of t p _ _ (entries-count_of t es)

  insert-count_of :
      (t : F.PathBuf → Bool) (p : F.PathBuf) (ps : List F.PathBuf)
      → count_of t (insert_before F p ps) ≡ count_of t (p ∷ ps)
  unfolding insert_before count_of
  insert-count_of t p [] = refl
  insert-count_of t p (q ∷ qs) = ground (arith, insert-count_of t p qs)

  sort-count_of :
      (t : F.PathBuf → Bool) (ps : List F.PathBuf) → count_of t (sort F ps) ≡ count_of t ps
  unfolding sort count_of
  sort-count_of t [] = refl
  sort-count_of t (p ∷ ps) = insert-count_of t p (sort F ps) ∙ ground (arith, sort-count_of t ps)

  insert-is_sorted :
      (p : F.PathBuf) (ps : List F.PathBuf)
      → IsTotal F.le
      → is_sorted ps ≡ true
      → is_sorted (insert_before F p ps) ≡ true
  unfolding insert_before is_sorted IsTotal
  insert-is_sorted p [] le h = refl
  insert-is_sorted p (q ∷ []) le h = ground (arith, le p q)
  insert-is_sorted p (q ∷ r ∷ ps) le h = ground (arith, le p q, insert-is_sorted p (r ∷ ps) le, h)

  sort-is_sorted : (ps : List F.PathBuf) → IsTotal F.le → is_sorted (sort F ps) ≡ true
  unfolding sort
  sort-is_sorted [] le = unfold is_sorted in refl
  sort-is_sorted (p ∷ ps) le = insert-is_sorted p (sort F ps) le (sort-is_sorted ps le)

  -- If the order of the paths is total, the files that are collected from a directory are sorted, and
  -- they are the files named `.ill` that are somewhere below it, each as often as it is there: as many
  -- of the ones as of the others satisfy any test.
  pub collect_ill_files-is_sorted :
      (dir : F.PathBuf) (t : F.PathBuf → Bool)
      → IsTotal F.le
      → (is_sorted (collect_ill_files F dir).1 ≡ true)
        × (count_of t (collect_ill_files F dir).1 ≡ below t (F.read_dir dir))
  unfolding collect_ill_files
  collect_ill_files-is_sorted dir t le = (
    sort-is_sorted (collect_ill_files_inner F dir (F.read_dir dir)).1 le,
    sort-count_of t _ ∙ inner-count_of t dir (F.read_dir dir),
  )
