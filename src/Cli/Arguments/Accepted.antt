-- ===== src/Cli/Arguments/Accepted.antt =====
-- Which entries the command line accepts, and what becomes of them (crates/ill/src/main.rs,
-- `parse_cli_args`).
use i_ll.Prelude.{
  String, Bool, true, false, not, ◌&&◌, ◌||◌, Option, none, some, List, Result, ok, err, ◌≡◌, refl,
  ◌∙◌, sym, ap, any, >>=-eq-ok, ◌>>=◌, ◌<>◌, arith, ◌==◌, eq_iff, if◌then◌else◌,
}
use i_ll.Prelude.Text.{trim, is_empty}
use i_ll.Prelude.Maps.{Map, lookup}
use i_ll.Prelude.Maps.Sorted.{insert, lookup-insert, is_ascending, insert-is_ascending}
use i_ll.Cli.Arguments.{split_once, insert_new, insert_pair, insert_all, parse_cli_args}

-- The key of an entry, without the blanks around it.
key_in : Option (String × String) → Option String
key_in none = none
key_in (some (k, v)) = some (trim k)

unfoldable pub key_of : String → Option String
unfolding key_in
key_of item = key_in (split_once item)

abbrev pub has_key : String → String → Bool
has_key key item = elim (key_of item) [ none ↦ false | some k ↦ k == key ]

-- The entry names a key, which is not blank and none of `others`.
abbrev pub is_new : String → List String → Bool
is_new item others = elim (key_of item) [
  | none ↦ false
  | some k ↦ not (is_empty k) && not (any (has_key k) others)
]

-- Every entry has the form KEY=VALUE with a key that no later entry has.
unfoldable pub well_formed : List String → Bool
well_formed List.[] = true
well_formed (List.◌∷◌ item raw) = is_new item raw && well_formed raw

-- What the first entry with the key gives it.
unfoldable pub given : String → List String → Option String
given key List.[] = none
given key (List.◌∷◌ item raw) =
    let later = given key raw in
    elim (split_once item) [ none ↦ later | some p ↦ if trim p.0 == key then some p.1 else later ]

abbrev pub is_ok : Result String (Map String) → Bool
is_ok (ok m) = true
is_ok (err e) = false

or_else : Option String → Option String → Option String
or_else none o = o
or_else (some v) o = some v

new_only :
    (key v : String) (o : Option String) (out m : Map String)
    → insert_new key v o out ≡ ok m
    → (o ≡ none) × (m ≡ insert key v out)
unfolding insert_new
new_only key v none out m h = (refl, cc h)
new_only key v (some old) out m h = absurd (cc h)

-- The map after one entry that is accepted.
inserted :
    (item : String) (o : Option (String × String)) (out m : Map String)
    → insert_pair item o out ≡ ok m
    → (p : String × String) × (o ≡ some p)
      × (lookup (trim p.0) out ≡ none)
      × (m ≡ insert (trim p.0) p.1 out)
unfolding insert_pair
inserted item none out m h = absurd (cc h)
inserted item (some (k, v)) out m h =
    elim (is_empty (trim k))
        as (λ b.
          (if b
              then err ("--arg `" <> (item <> "` has an empty key"))
              else insert_new (trim k) v (lookup (trim k) out) out)
            ≡ ok m
          → (p : String × String) × (some (k, v) ≡ some p)
            × (lookup (trim p.0) out ≡ none)
            × (m ≡ insert (trim p.0) p.1 out)) [
              | true ↦ λ e. absurd (cc e)
              | false ↦
                  λ e. let found = new_only (trim k) v _ out m e in ((k, v), refl, found.0, found.1)
            ]
      h

or_else-none : (o : Option String) → or_else o none ≡ o
unfolding or_else
or_else-none none = refl
or_else-none (some v) = refl

first_wins :
    (b : Bool) (v : String) (o later : Option String)
    → (b ≡ true → o ≡ none)
    → or_else (if b then some v else o) later ≡ or_else o (if b then some v else later)
unfolding or_else
first_wins true v o later h = rw (h refl) refl
first_wins false v o later h = refl

one_more :
    (item : String) (raw : List String) (key : String) (p : String × String) (out : Map String)
    → split_once item ≡ some p
    → lookup (trim p.0) out ≡ none
    → or_else (lookup key (insert (trim p.0) p.1 out)) (given key raw)
      ≡ or_else (lookup key out) (given key (List.◌∷◌ item raw))
unfolding given
one_more item raw key p out split free =
    rw (lookup-insert key (trim p.0) p.1 out, given, split)
      (first_wins (trim p.0 == key) p.1 (lookup key out) (given key raw)
        (λ e. ap (λ k. lookup k out) (sym ((eq_iff (trim p.0) key).0 e)) ∙ free))

all-lookup :
    (raw : List String) (out m : Map String) (key : String)
    → insert_all raw out ≡ ok m
    → is_ascending out ≡ true
    → (is_ascending m ≡ true) × (lookup key m ≡ or_else (lookup key out) (given key raw))
unfolding insert_all or_else given
all-lookup List.[] out m key h up =
    (cc, let same : m ≡ out = cc h in ap (lookup key) same ∙ sym (or_else-none _))
all-lookup (List.◌∷◌ item raw) out m key h up =
    let (next, later, step) = >>=-eq-ok _ (insert_pair item (split_once item) out) h in
    let (p, split, free, same) = inserted item (split_once item) out next step in
    let (up', found) =
      all-lookup raw next m key later
        (ap is_ascending same ∙ insert-is_ascending (trim p.0) p.1 out up) in
    (
      up',
      found
          ∙ ap (λ n. or_else (lookup key n) (given key raw)) same
          ∙ one_more item raw key p out split free,
    )

-- If the entries of the command line are accepted, the keys of the map ascend, and what the map gives
-- for a key is what stands behind the first `=` of the first entry whose key is that key when the
-- blanks around it are taken away.
pub parse_cli_args-given :
    (raw : List String) (m : Map String) (key : String)
    → parse_cli_args raw ≡ ok m
    → (is_ascending m ≡ true) × (lookup key m ≡ given key raw)
unfolding parse_cli_args or_else
parse_cli_args-given raw m key h =
    let (up, found) = all-lookup raw List.[] m key h (unfold is_ascending in refl) in
    (up, unfold lookup in found)

-- No entry has a key of the map.
none_taken : List String → Map String → Bool
none_taken List.[] out = true
none_taken (List.◌∷◌ item raw) out = elim (key_of item) [
  | none ↦ none_taken raw out
  | some k ↦ elim (lookup k out) [ none ↦ none_taken raw out | some v ↦ false ]
]

taken_step :
    (o : Option String) (raw : List String) (k v : String) (out : Map String)
    → none_taken raw (insert k v out) ≡ (not (any (has_key k) raw) && none_taken raw out)
    → elim o [
      | none ↦ none_taken raw (insert k v out)
      | some j ↦ elim (lookup j (insert k v out)) [
        | none ↦ none_taken raw (insert k v out)
        | some w ↦ false
      ]
    ]
      ≡ (not (elim o [ none ↦ false | some j ↦ j == k ] || any (has_key k) raw) && elim o [
        | none ↦ none_taken raw out
        | some j ↦ elim (lookup j out) [ none ↦ none_taken raw out | some w ↦ false ]
      ])
taken_step none raw k v out h = h
taken_step (some j) raw k v out h = ground (arith, lookup-insert j k v out, eq_iff j k, eq_iff k j)

none_taken-insert :
    (raw : List String) (k v : String) (out : Map String)
    → none_taken raw (insert k v out) ≡ (not (any (has_key k) raw) && none_taken raw out)
unfolding none_taken
none_taken-insert List.[] k v out = refl
none_taken-insert (List.◌∷◌ item raw) k v out =
    taken_step (key_of item) raw k v out (none_taken-insert raw k v out)

-- One entry, for what splitting it gives.
pair-is_ok :
    (item : String) (o : Option (String × String)) (raw : List String) (out : Map String)
    → ((m : Map String) → is_ok (insert_all raw m) ≡ (well_formed raw && none_taken raw m))
    → is_ok (insert_pair item o out >>= insert_all raw) ≡ (
        elim (key_in o) [ none ↦ false | some k ↦ not (is_empty k) && not (any (has_key k) raw) ]
        && well_formed raw
        && elim (key_in o) [
          | none ↦ none_taken raw out
          | some k ↦ elim (lookup k out) [ none ↦ none_taken raw out | some w ↦ false ]
        ])
unfolding insert_pair insert_new key_in
pair-is_ok item none raw out rest = refl
pair-is_ok item (some (k, v)) raw out rest =
    ground (arith, rest (insert (trim k) v out), none_taken-insert raw (trim k) v out)

all-is_ok :
    (raw : List String) (out : Map String)
    → is_ok (insert_all raw out) ≡ (well_formed raw && none_taken raw out)
unfolding insert_all well_formed none_taken key_of
all-is_ok List.[] out = refl
all-is_ok (List.◌∷◌ item raw) out = pair-is_ok item (split_once item) raw out (all-is_ok raw)

and_true : (b : Bool) → (b && true) ≡ b
and_true true = refl
and_true false = refl

none_taken-nil : (raw : List String) → none_taken raw List.[] ≡ true
unfolding none_taken lookup
none_taken-nil List.[] = refl
none_taken-nil (List.◌∷◌ item raw) = ground (arith, none_taken-nil raw)

-- The command line accepts its entries exactly if each has an `=` with something other than blanks
-- before it, and no two keys are the same when the blanks around them are taken away.
pub parse_cli_args-is_ok : (raw : List String) → is_ok (parse_cli_args raw) ≡ well_formed raw
unfolding parse_cli_args
parse_cli_args-is_ok raw =
    rw (all-is_ok raw List.[], none_taken-nil raw) (and_true (well_formed raw))
