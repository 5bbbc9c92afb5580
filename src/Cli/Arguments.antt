-- ===== src/Cli/Arguments.antt =====
-- The entries `--arg KEY=VALUE` of the command line (crates/ill/src/main.rs, `parse_cli_args`).
pub mod Accepted
use Prim.Native.Char.{code}
use Prim.Native.String.{◌∷◌}
use i_ll.Prelude.{
  String, ◌<>◌, Option, none, some, List, Result, ok, err, ◌>>=◌, nat_eq, if◌then◌else◌,
}
use i_ll.Prelude.Text.{trim, is_empty}
use i_ll.Prelude.Maps.{Map, lookup}
use i_ll.Prelude.Maps.Sorted.{insert}

in_front : String → Option (String × String) → Option (String × String)
in_front c none = none
in_front c (some (k, v)) = some (c <> k, v)

-- `str::split_once('=')`: before and after the first `=`.
unfoldable pub split_once : String → Option (String × String)
unfolding in_front
split_once String.[] = none
split_once (c ∷ s) =
    let rest = split_once s in if nat_eq (code c) b'=' then some ("", s) else in_front (c ∷ "") rest

insert_new : String → String → Option String → Map String → Result String (Map String)
unfolding insert
insert_new key value none out = ok (insert key value out)
insert_new key value (some old) out = err ("--arg `" <> (key <> "` specified more than once"))

insert_pair : String → Option (String × String) → Map String → Result String (Map String)
unfolding insert_new trim lookup
insert_pair item none out = err ("--arg `" <> (item <> "` must be in the form KEY=VALUE"))
insert_pair item (some (k, v)) out =
    let key = trim k in
    if is_empty key
    then err ("--arg `" <> (item <> "` has an empty key"))
    else insert_new key v (lookup key out) out

insert_all : List String → Map String → Result String (Map String)
unfolding insert_pair split_once
insert_all List.[] out = ok out
insert_all (List.◌∷◌ item raw) out = insert_pair item (split_once item) out >>= insert_all raw

unfoldable pub parse_cli_args : List String → Result String (Map String)
unfolding insert_all
parse_cli_args raw = insert_all raw List.[]
