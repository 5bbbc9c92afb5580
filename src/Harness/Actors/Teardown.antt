-- ===== src/Harness/Actors/Teardown.antt =====
-- The order of teardowns (`teardown_all` of crates/ill-core/src/runtime/harness.rs).
use mathlib.Core.List.{reverse, reverse_aux, reverse-cons, reverse-reverse, reverse-append}
use i_ll.Prelude.{String, List, [], ◌∷◌, ◌++◌, map, ◌≡◌, refl, ◌∙◌, ap, sym, arith}
use i_ll.Runtime.{ActorRuntime}
use i_ll.Harness.Actors.{
  TeardownReport, Live, push, set_actor, outcome_of, teardown_popped, teardown_all,
}

map-reverse_aux :
    {A B : Type 0} (f : A → B) (xs ys : List A)
    → map f (reverse_aux xs ys) ≡ reverse_aux (map f xs) (map f ys)
map-reverse_aux f [] ys = refl
map-reverse_aux f (x ∷ xs) ys = map-reverse_aux f xs (x ∷ ys)

module _ (R : ActorRuntime) where
  -- The reports of the teardown of `actors`, then that of an actor torn down before.
  abbrev pub and_then :
      TeardownReport → List TeardownReport × R.World → List TeardownReport × R.World
  and_then report (reports, w) = (reports ++ report ∷ [], w)

  -- The actor that was constructed last is torn down first, and reported last, with what became of
  -- its teardown; the others follow in the world that it leaves, whatever became of it.
  pub teardown_all-push :
      (name : String) (inst : R.Instance) (actors : Live R) (w : R.World)
      → teardown_all R (push R name inst actors) w
        ≡ and_then
            (record { actor = name; outcome = outcome_of (R.teardown inst w).0 })
            (teardown_all R actors (R.teardown inst w).1)
  unfolding teardown_all push teardown_popped
  teardown_all-push name inst actors w = rw (reverse-append actors ((name, inst) ∷ [])) (
      ap (λ l. (l, (teardown_popped R (reverse actors) (R.teardown inst w).1).1))
        (reverse-cons _ (teardown_popped R (reverse actors) (R.teardown inst w).1).0))

  -- The teardown of live actors as a recursion on their construction: what was constructed later goes
  -- first, each actor in the world that those after it leave.
  unfoldable pub later_first : Live R → R.World → List TeardownReport × R.World
  later_first [] w = ([], w)
  later_first ((name, inst) ∷ actors) w =
      let (reports, w') = later_first actors w in
      (
        record { actor = name; outcome = outcome_of (R.teardown inst w').0 } ∷ reports,
        (R.teardown inst w').1,
      )

  popped-snoc :
      (name : String) (inst : R.Instance) (actors : Live R) (w : R.World)
      → teardown_popped R (actors ++ (name, inst) ∷ []) w
        ≡ and_then
            (record {
              actor = name;
              outcome = outcome_of (R.teardown inst (teardown_popped R actors w).1).0;
            })
            ((teardown_popped R actors w).0, (R.teardown inst (teardown_popped R actors w).1).1)
  unfolding teardown_popped
  popped-snoc name inst [] w = refl
  popped-snoc name inst ((n, i) ∷ actors) w =
      ap (λ r. (record { actor = n; outcome = outcome_of (R.teardown i w).0 } ∷ r.0, r.1))
        (popped-snoc name inst actors (R.teardown i w).1)

  pub teardown_all-later_first :
      (actors : Live R) (w : R.World) → teardown_all R actors w ≡ later_first actors w
  unfolding teardown_all later_first teardown_popped
  teardown_all-later_first [] w = refl
  teardown_all-later_first ((name, inst) ∷ actors) w =
      let ih = teardown_all-later_first actors w in
      rw (reverse-cons (name, inst) actors, popped-snoc name inst (reverse actors) w)
        (rw (reverse-append (teardown_popped R (reverse actors) w).0 (_ ∷ []), sym ih) refl)

  popped-names :
      (actors : Live R) (w : R.World)
      → map (λ r. r.actor) (teardown_popped R actors w).0 ≡ map (λ a. a.0) actors
  unfolding teardown_popped
  popped-names [] w = refl
  popped-names ((name, inst) ∷ actors) w =
      ap (λ l. name ∷ l) (popped-names actors (R.teardown inst w).1)

  -- The reports name the actors, each once for each construction, in the order of construction.
  pub teardown_all-names :
      (actors : Live R) (w : R.World)
      → map (λ r. r.actor) (teardown_all R actors w).0 ≡ map (λ a. a.0) actors
  unfolding teardown_all
  teardown_all-names actors w =
      map-reverse_aux _ (teardown_popped R (reverse actors) w).0 []
      ∙ ap reverse (popped-names (reverse actors) w)
      ∙ sym (map-reverse_aux _ (reverse actors) [])
      ∙ ap (map (λ a. a.0)) (reverse-reverse actors)

  -- What a mutation leaves has the same names.
  pub set_actor-names :
      (name : String) (inst : R.Instance) (actors : Live R)
      → map (λ a. a.0) (set_actor R name inst actors) ≡ map (λ a. a.0) actors
  unfolding set_actor
  set_actor-names name inst [] = refl
  set_actor-names name inst ((n, old) ∷ actors) = ground (arith, set_actor-names name inst actors)
