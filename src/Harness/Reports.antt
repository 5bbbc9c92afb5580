-- ===== src/Harness/Reports.antt =====
-- What a report says of a run (`execute` and `run_test_file` of
-- crates/ill-core/src/runtime/harness.rs).
use mathlib.Core.List.{append-nil, append_assoc}
use i_ll.Prelude.{
  sym, String, true, Option, none, some, List, [], ◌∷◌, ◌++◌, length, map, Result, ok, err, ◌≡◌,
  refl, ◌∙◌, ap, ◌↔◌, ◌≤◌, arith,
}
use i_ll.Ast.{TopLevel, ActorDeclaration, SourceFile}
use i_ll.Assertion.{Regex}
use i_ll.Runtime.{ActorRuntime}
use i_ll.Harness.Actors.{Live, push}
use i_ll.Harness.Actors.Teardown.{teardown_all-names, later_first, teardown_all-later_first}
use i_ll.Harness.Block.{StatementReport, run_as_block}
use i_ll.Harness.Block.Names.{run_as_block-names}
use i_ll.Harness.{construct_actor, Walk, after_construct, after_block, walk, none_failed, execute}

-- The names of the actors that the items declare.
unfoldable pub declared : List TopLevel → List String
declared [] = []
declared (TopLevel.actor_declaration decl ∷ items) = decl.name.name ∷ declared items
declared (TopLevel.as_block block ∷ items) = declared items

module _ (R : ActorRuntime) (regex : String → Regex) where
  names : Live R × R.World → List String
  names m = map (λ a. a.0) m.0

  -- A walk that ends in `r`, from actors named `before`, over items that declare `todo`.
  record Walked (before todo : List String) (r : Walk R regex) : Type 0 where
    missing : List String
    covers : names r.1 ++ missing ≡ before ++ todo
    complete : r.0 ≡ [] → missing ≡ []
    one_failure : length r.0 ≤ 1

  push-names :
      (name : String) (inst : R.Instance) (actors : Live R)
      → map (λ a. a.0) (push R name inst actors) ≡ map (λ a. a.0) actors ++ name ∷ []
  unfolding push
  push-names name inst [] = refl
  push-names name inst ((n, i) ∷ actors) = ap (λ l. n ∷ l) (push-names name inst actors)

  failed :
      (before todo : List String) (report : StatementReport) (m : Live R × R.World)
      → names m ≡ before
      → Walked before todo (report ∷ [], m)
  unfolding names
  failed before todo report m same = record {
    missing = todo;
    covers = ap (λ l. l ++ todo) same;
    complete = λ h. cc;
    one_failure = omega arith;
  }

  renamed :
      {b c t u : List String} {r : Walk R regex} → b ++ t ≡ c ++ u → Walked b t r → Walked c u r
  renamed same w = record {
    missing = w.missing;
    covers = w.covers ∙ same;
    complete = w.complete;
    one_failure = w.one_failure;
  }

  made :
      (decl : ActorDeclaration) (items : List TopLevel) (c : Result String R.Instance × R.World)
      (actors : Live R) (k : Live R × R.World → Walk R regex)
      → ((m : Live R × R.World) → Walked (names m) (declared items) (k m))
      → Walked
          (map (λ a. a.0) actors)
          (decl.name.name ∷ declared items)
          (after_construct R regex decl c actors k)
  unfolding after_construct names
  made decl items (ok inst, w) actors k walked =
      renamed
        (ap (λ l. l ++ declared items) (push-names decl.name.name inst actors)
          ∙ append_assoc _ (decl.name.name ∷ []) (declared items))
        (walked (push R decl.name.name inst actors, w))
  made decl items (err msg, w) actors k walked = failed _ _ _ (actors, w) refl

  ran :
      (items : List TopLevel) (before : List String)
      (r : Option StatementReport × (Live R × R.World)) (k : Live R × R.World → Walk R regex)
      → ((m : Live R × R.World) → Walked (names m) (declared items) (k m))
      → names r.1 ≡ before
      → Walked before (declared items) (after_block R regex r k)
  unfolding after_block
  ran items before (none, m) k walked same = renamed (ap (λ l. l ++ declared items) same) (walked m)
  ran items before (some report, m) k walked same = failed _ _ report m same

  walk-Walked :
      (source_dir : String) (items : List TopLevel) (m : Live R × R.World)
      → Walked (names m) (declared items) (walk R regex source_dir items m)
  unfolding walk declared names
  walk-Walked source_dir [] m = record {
    missing = [];
    covers = refl;
    complete = λ h. refl;
    one_failure = omega arith;
  }
  walk-Walked source_dir (TopLevel.actor_declaration decl ∷ items) (actors, w) =
      made decl items (construct_actor R regex decl source_dir w) actors
        (walk R regex source_dir items) (walk-Walked source_dir items)
  walk-Walked source_dir (TopLevel.as_block block ∷ items) m =
      ran items _ (run_as_block R regex block m) (walk R regex source_dir items)
        (walk-Walked source_dir items) (run_as_block-names R regex block m)

  walk_report :
      (source_dir : String) (items : List TopLevel) (w : R.World)
      → Walked [] (declared items) (walk R regex source_dir items ([], w))
  unfolding names
  walk_report source_dir items w = walk-Walked source_dir items ([], w)

  none_failed_iff : (rs : List StatementReport) → (none_failed R regex rs ≡ true) ↔ (rs ≡ [])
  unfolding none_failed
  none_failed_iff [] = (λ h. refl, λ h. refl)
  none_failed_iff (r ∷ rs) = (λ h. cc, λ h. cc)

  -- A run reports one failed statement at most, and has passed exactly if it reports none.
  pub execute-passed :
      (path : String) (source : SourceFile) (source_dir : String) (w : R.World)
      → (length (execute R regex path source source_dir w).0.statements ≤ 1)
        × (((execute R regex path source source_dir w).0.passed ≡ true)
            ↔ ((execute R regex path source source_dir w).0.statements ≡ []))
  unfolding execute
  execute-passed path source source_dir w =
      ((walk_report source_dir source.items w).one_failure, none_failed_iff _)

  -- The teardown reports name every actor that is live when the walk over the items ends, whether the
  -- walk failed or not, in the order of the declarations: the declared actors up to some declaration.
  pub execute-teardown :
      (path : String) (source : SourceFile) (source_dir : String) (w : R.World)
      → (map (λ r. r.actor) (execute R regex path source source_dir w).0.teardown
          ≡ map (λ a. a.0) (walk R regex source_dir source.items ([], w)).1.0)
        × ((missing : List String) × (map
                  (λ r. r.actor)
                  (execute R regex path source source_dir w).0.teardown
                ++ missing
              ≡ declared source.items))
  unfolding execute names
  execute-teardown path source source_dir w =
      let walked = walk_report source_dir source.items w in
      let same = teardown_all-names R _ _ in
      (same, (walked.missing, ap (λ l. l ++ walked.missing) same ∙ walked.covers))

  -- A run that has passed tears every declared actor down: the actors that are live after the walk
  -- over the items are the declared ones, in their order, and the reports and the world of the run are
  -- those of the teardown of each of them, the later constructed before the earlier, each in the world
  -- that the one before it leaves.
  pub passed-teardown :
      (path : String) (source : SourceFile) (source_dir : String) (w : R.World)
      → (execute R regex path source source_dir w).0.passed ≡ true
      → let live : Live R × R.World = (walk R regex source_dir source.items ([], w)).1 in
        (map (λ a. a.0) live.0 ≡ declared source.items)
        × ((
          (execute R regex path source source_dir w).0.teardown,
          (execute R regex path source source_dir w).1,
        )
            ≡ later_first R live.0 live.1)
  unfolding execute names
  passed-teardown path source source_dir w h =
      let walked = walk_report source_dir source.items w in
      let none_missing = walked.complete ((none_failed_iff _).0 h) in
      (
        sym (append-nil _)
            ∙ ap (λ l. map (λ a. a.0) (walk R regex source_dir source.items ([], w)).1.0 ++ l)
                (sym none_missing)
            ∙ walked.covers,
        teardown_all-later_first R _ _,
      )
