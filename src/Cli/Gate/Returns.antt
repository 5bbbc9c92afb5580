-- ===== src/Cli/Gate/Returns.antt =====
-- The command line comes to an end of its own (crates/ill/src/main.rs, `main`).
use mathlib.Core.Option
use mathlib.Core.Path.{subst, sym}
use i_ll.Prelude.{
  ℕ, String, Option, none, some, List, [], ◌∷◌, Result, ok, err, ◌≡◌, refl, ◌∙◌, ap, inl, inr,
  Bool-cases,
}
use i_ll.Prelude.Maps.{Map}
use i_ll.Assertion.{Regex}
use i_ll.Runtime.{ActorRuntime}
use i_ll.Runtime.Waiting.{AsyncRuntime, Returns, as_runtime, Reaches, returns-Keeps}
use i_ll.Harness.Block.Kept.{Keeps}
use i_ll.Lower.Tree.{Node}
use i_ll.Lower.Outcome.{lower_returns}
use i_ll.Cli.Arguments.{parse_cli_args}
use i_ll.Cli.Files.{FileSystem, resolve_files}
use i_ll.Cli.Check.{
  Line, CheckedSuite, check_file, check_source, check_files, check_found, run_check,
}
use i_ll.Cli.{Commands, Run, test_found, said_first, test_checked, run_test, test_with, main}
use i_ll.Cli.Gate.{refuses, test_suite-open, test_suite-closed}
use i_ll.Cli.Gate.Open.{IsParser, files-Runs, Runs}

Some {ℓ} : {A : Type ℓ} → Option A → Type ℓ
Some {A = A} o = (a : A) × (o ≡ some a)

module _ {A B : Type 0} where
  map-Some : (f : A → B) (o : Option A) → Some o → Some (Option.map f o)
  unfolding Some
  map-Some f o (a, h) = (f a, ap (Option.map f) h)

module _ (F : FileSystem) (parse : String → Option Node) (quoted : IsParser parse) where
  file-Some :
      (p : F.PathBuf) (r : Result String String) (rest : Option (CheckedSuite F.PathBuf))
      → Some rest
      → Some (check_file F parse p r rest)
  unfolding check_file check_source IsParser
  file-Some p (err e) rest h = map-Some _ rest h
  file-Some p (ok src) rest h =
      let (root, parsed, q) = quoted src in
      let (l, lowered, reported) = lower_returns parse src root parsed q in
      subst Some (ap (λ o. check_source F parse p src o rest) (sym lowered)) (map-Some _ rest h)

  files-Some : (ps : List F.PathBuf) → Some (check_files F parse ps)
  unfolding check_files
  files-Some [] = unfold Some in (_, refl)
  files-Some (p ∷ ps) = file-Some p (F.read_to_string p) _ (files-Some ps)

  check-Some : (said : List String) (ps : List F.PathBuf) → Some (check_found F parse (said, ps))
  unfolding check_found
  check-Some said [] = unfold Some in (_, refl)
  check-Some said (p ∷ ps) = map-Some _ _ (files-Some (p ∷ ps))

  module _ (R : ActorRuntime) (regex : String → Regex) (P : R.World → Type 0)
      (kept : Keeps R P) where
    -- A run that ends, in a world with the property.
    Ended : Option (Run F parse R regex) → Type 0
    Ended o = (r : Run F parse R regex) × (o ≡ some r) × P r.2

    said-Ended :
        (said : List String) (o : Option (Run F parse R regex))
        → Ended o
        → Ended (said_first F parse R regex said o)
    unfolding Ended said_first
    said-Ended said o (r, e, h) = (_, ap (said_first F parse R regex said) e, h)

    checked-Ended :
        (ps : List F.PathBuf) (w : R.World) (o : Option (CheckedSuite F.PathBuf))
        → check_files F parse ps ≡ o
        → Some o
        → P w
        → Ended (test_checked F parse R regex w o)
    unfolding test_checked Some Runs Ended
    checked-Ended ps w none found h holds = let e = h.1 in absurd (cc e)
    checked-Ended ps w (some s) found h holds = elim (Bool-cases (refuses F parse s)) [
      | inl shut ↦
          let (lines, done) = test_suite-closed F parse R regex s w shut in (_, done, holds)
      | inr clear ↦
          let (r, lines, each, all, still) =
            files-Runs F parse R regex (λ v. F.read_to_string) P kept (λ v k p. refl) ps s 0 0 w
              quoted found clear holds in
          (_, test_suite-open F parse R regex s w clear ∙ all, still)
    ]

    test-Ended :
        (said : List String) (ps : List F.PathBuf) (w : R.World)
        → P w
        → Ended (test_found F parse R regex (said, ps) w)
    unfolding test_found
    test-Ended said [] w h = unfold Ended in (_, refl, h)
    test-Ended said (p ∷ ps) w h =
        said-Ended said _ (checked-Ended (p ∷ ps) w _ refl (files-Some (p ∷ ps)) h)

    module _ (set_cli_args : Map String → R.World → R.World)
        (sets : (m : Map String) (w : R.World) → P w → P (set_cli_args m w)) where
      with-Ended :
          (paths : List F.PathBuf) (args : Result String (Map String)) (w : R.World)
          → P w
          → Ended (test_with F parse R regex paths set_cli_args args w)
      unfolding test_with run_test
      with-Ended paths (err msg) w h = unfold Ended in (_, refl, h)
      with-Ended paths (ok args) w h =
          test-Ended (resolve_files F paths).0 (resolve_files F paths).1 (set_cli_args args w)
            (sets args w h)

      main-Ended :
          (c : Commands F.PathBuf) (w : R.World)
          → P w
          → Ended (main F parse R regex set_cli_args c w)
      unfolding main run_check Ended Some
      main-Ended (Commands.test paths args) w h = with-Ended paths (parse_cli_args args) w h
      main-Ended (Commands.check paths) w h =
          let (r, e) = check-Some (resolve_files F paths).0 (resolve_files F paths).1 in
          (_, ap (Option.map (λ r. (r.0, r.1, w))) e, h)

-- What `set_cli_args` makes of the world that is reached.
abbrev pub set_from :
    (Q : AsyncRuntime)
    → (Map String → Q.World → Q.World)
    → Map String
    → Option Q.World
    → Option Q.World
set_from Q set_cli_args m none = none
set_from Q set_cli_args m (some w) = some (set_cli_args m w)

set-Reaches :
    (Q : AsyncRuntime) (S : Q.World → Type 0) (set_cli_args : Map String → Q.World → Q.World)
    → ((m : Map String) (v : Q.World) → S v → S (set_cli_args m v))
    → (m : Map String) (w : Option Q.World) → Reaches Q S w
    → Reaches Q S (set_from Q set_cli_args m w)
unfolding Reaches
set-Reaches Q S set_cli_args sets m none h = h
set-Reaches Q S set_cli_args sets m (some w) h = sets m w h

reached-in :
    (Q : AsyncRuntime) (S : Q.World → Type 0) (w : Option Q.World)
    → Reaches Q S w
    → (v : Q.World) × (w ≡ some v) × S v
unfolding Reaches
reached-in Q S none h = absurd h
reached-in Q S (some v) h = (v, refl, h)

-- Each command of the program ends with an exit code and without a panic, also where the code takes it
-- that a file without errors has a syntax tree, if every operation of an actor returns and if the
-- parser gives a tree of every source, in which single-quoted strings have their quotes. It is enough
-- that the operations return from the worlds with a property that the program starts with, that
-- they keep, and that setting the arguments keeps; the program ends in such a world.
pub main_returns :
    (F : FileSystem) (parse : String → Option Node) (Q : AsyncRuntime) (regex : String → Regex)
    (S : Q.World → Type 0) (set_cli_args : Map String → Q.World → Q.World) (c : Commands F.PathBuf)
    (w : Q.World)
    → IsParser parse
    → Returns Q S
    → ((m : Map String) (v : Q.World) → S v → S (set_cli_args m v))
    → S w
    → (lines : List (Line F.PathBuf)) × (code : ℕ) × (w' : Q.World) × (main F parse
          (as_runtime Q)
          regex
          (set_from Q set_cli_args)
          c
          (some w)
        ≡ some (lines, code, some w'))
      × S w'
unfolding Ended
main_returns F parse Q regex S set_cli_args c w quoted returns sets h =
    let (r, done, so) =
      main-Ended F parse quoted (as_runtime Q) regex (Reaches Q S) (returns-Keeps Q S returns)
        (set_from Q set_cli_args) (set-Reaches Q S set_cli_args sets) c (some w)
        (unfold Reaches in h) in
    let (w', ended, holds) = reached-in Q S r.2 so in
    (r.0, r.1, w', done ∙ ap (λ v. some (r.0, r.1, v)) ended, holds)
