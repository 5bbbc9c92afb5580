-- ===== src/Cli/Files.antt =====
-- The files that the command line names (crates/ill/src/main.rs).
pub mod Collected
use i_ll.Prelude.{
  String, ◌<>◌, Bool, true, false, Option, none, some, List, [], ◌∷◌, ◌++◌, ◌==◌, Result,
  if◌then◌else◌,
}

-- A directory as `read_dir` shows it, with what is below: it cannot be read, or it has entries, some
-- of which cannot be read. A link to a directory is a directory, so that below a link to one of its own
-- parents the code finds no end.
mutual
  pub data Dir (P : Type 0) : Type 0 where
    cannot_read : String → Dir P
    listed : Entries P → Dir P

  pub data Entries (P : Type 0) : Type 0 where
    nil : Entries P
    unreadable : String → Entries P → Entries P
    directory : P → Dir P → Entries P → Entries P
    file : P → Entries P → Entries P

-- The file system as it is when the program starts, with what `std::path` says of a path: `le` is its
-- order, `current` is `.`, and an error is its text. Both commands find and read all their files before
-- the first test runs, so that nothing that a test does to a file is seen here.
pub record FileSystem : Type 1 where
  pub PathBuf : Type 0
  pub current : PathBuf
  pub display : PathBuf → String
  pub le : PathBuf → PathBuf → Bool
  pub extension : PathBuf → Option String
  pub parent : PathBuf → Option String
  pub is_dir : PathBuf → Bool
  pub read_dir : PathBuf → Dir PathBuf
  pub read_to_string : PathBuf → Result String String

module _ (F : FileSystem) where
  -- What is printed to the standard error, and the files that are found.
  abbrev pub Found : Type 0
  Found = List String × List F.PathBuf

  is_ill : Option String → Bool
  is_ill none = false
  is_ill (some e) = e == "ill"

  unfoldable pub is_ill_file : F.PathBuf → Bool
  unfolding is_ill
  is_ill_file p = is_ill (F.extension p)

  both : Found → Found → Found
  both (a, xs) (b, ys) = (a ++ b, xs ++ ys)

  unfoldable mutual
    unfolding is_ill_file both

    pub collect_ill_files_inner : F.PathBuf → Dir F.PathBuf → Found
    collect_ill_files_inner dir (Dir.cannot_read e) =
        (("ill: cannot read directory " <> (F.display dir <> (": " <> e))) ∷ [], [])
    collect_ill_files_inner dir (Dir.listed es) = collect_entries es

    pub collect_entries : Entries F.PathBuf → Found
    collect_entries Entries.nil = ([], [])
    collect_entries (Entries.unreadable e es) =
        both (("ill: error reading directory entry: " <> e) ∷ [], []) (collect_entries es)
    collect_entries (Entries.directory p d es) =
        both (collect_ill_files_inner p d) (collect_entries es)
    collect_entries (Entries.file p es) =
        let rest = collect_entries es in if is_ill_file p then both ([], p ∷ []) rest else rest

  insert_before : F.PathBuf → List F.PathBuf → List F.PathBuf
  insert_before p [] = p ∷ []
  insert_before p (q ∷ qs) =
      let rest = insert_before p qs in if F.le p q then p ∷ q ∷ qs else q ∷ rest

  -- `Vec::sort`.
  unfoldable pub sort : List F.PathBuf → List F.PathBuf
  unfolding insert_before
  sort [] = []
  sort (p ∷ ps) = insert_before p (sort ps)

  unfoldable pub collect_ill_files : F.PathBuf → Found
  unfolding sort collect_ill_files_inner
  collect_ill_files dir =
      let (printed, out) = collect_ill_files_inner dir (F.read_dir dir) in (printed, sort out)

  skipped : F.PathBuf → Found
  skipped p = (("ill: skipping " <> (F.display p <> ": not a .ill file")) ∷ [], [])

  -- One path of the command line.
  resolve_path : F.PathBuf → Found
  unfolding collect_ill_files is_ill_file skipped
  resolve_path p =
      if F.is_dir p then collect_ill_files p else if is_ill_file p then ([], p ∷ []) else skipped p

  resolve_all : List F.PathBuf → Found
  unfolding resolve_path both
  resolve_all [] = ([], [])
  resolve_all (p ∷ ps) = both (resolve_path p) (resolve_all ps)

  unfoldable pub resolve_files : List F.PathBuf → Found
  unfolding resolve_all collect_ill_files
  resolve_files [] = collect_ill_files F.current
  resolve_files (p ∷ ps) = resolve_all (p ∷ ps)
