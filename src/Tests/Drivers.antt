-- ===== src/Tests/Drivers.antt =====
-- Example runs of the `container` and `pg_client` actors over small worlds.
use i_ll.Prelude.{
  ℕ, ◌+◌, String, ◌<>◌, true, false, ◌||◌, none, some, List, [], ◌∷◌, ok, err, ◌≡◌, refl, inl, inr,
  arith, if◌then◌else◌, ◌==◌,
}
use i_ll.Prelude.Int.{pos}
use i_ll.Value.{Value, Dict}
use i_ll.Actor.Command.{same_mode}
use i_ll.Actor.Process.{container_stop}
use i_ll.Actor.Client.{pg_connect}
use i_ll.Runtime.{CommandArgs}
use i_ll.Exec.Modes.{succeeded, target_or}
use i_ll.Exec.Outcomes.{conforms}
use i_ll.Container
use i_ll.Container.{ContainerInstance, ContainerMode}
use i_ll.Container.Daemon.{Docker, Removed}
use i_ll.Container.Declared.{execute-declared}
use i_ll.Pg
use i_ll.Pg.{PgMode, Step}
use i_ll.Pg.Server.{Driver, Timed, IoKind}
use i_ll.Pg.Declared.{is_limit, execute-returns}
use i_ll.Value.{get}
use i_ll.Runtime.{kw}
use i_ll.Pg.Server.{millis_of}
use i_ll.Pg.Rows.{
  Row, Cell, cell_to_value, columns, build_result_dict, col_dict, push_rows, push_row, values_of,
}
use i_ll.Value.Dicts.{get_value?}
use i_ll.Pg.Rows.Transposed.{AreDistinct, at_row, at_col, build_result_dict-transposed}
use i_ll.Prelude.{nat_eq}

-- A daemon whose world is the log of what it did; removing a container times out.
abbrev daemon : Docker
daemon = record {
  World = List String;
  Live = String;
  is_file = λ path w. true;
  hash_path = λ path. "0123456789abcdef";
  pull = λ name tag w. (none, ("pull " <> name) ∷ w);
  build = λ name tag path w. (none, ("build " <> path) ∷ w);
  start = λ request w. (ok "c1", ("start " <> request.image_name) ∷ w);
  id = λ live. live;
  rm = λ live w. (Removed.rm_timed_out, w);
}

abbrev database : ContainerInstance daemon
database = record {
  image_name = "postgres";
  image_tag = "18";
  internal_port = some 5432;
  mode = ContainerMode.running "c1";
  members = [];
}

abbrev no_args : CommandArgs
no_args = record { positional = []; keyword = Dict.empty }

execute-declared_example :
    (conforms container_stop (Container.execute daemon database container_stop.name no_args []).0
      ≡ true)
    × (Container.mode_of daemon
          (Container.execute daemon database container_stop.name no_args []).1.mode
        ≡ (if succeeded (Container.execute daemon database container_stop.name no_args []).0
              || container_stop.name == "stop"
            then target_or container_stop.transitions_to (Container.mode_of daemon database.mode)
            else Container.mode_of daemon database.mode))
execute-declared_example = execute-declared daemon database container_stop no_args [] (inr refl)

-- A server that refuses every connection; its world is the clock, and an attempt takes no time.
abbrev refusing : Driver
refusing = record {
  World = ℕ;
  Client = String;
  now = λ w. w;
  sleep = λ d w. w + d;
  connect = λ cfg d w. (
    Timed.returned (
        err (record {
          db = none;
          sources = some IoKind.connection_refused ∷ [];
          is_closed = false;
          rendered = "connection refused";
        })),
    w,
  );
  query = λ client sql w. some (ok [], w);
  query_within = λ client sql d w. (Timed.expired, w + d);
  close = λ client w. w;
  to_lowercase = λ s. s;
  widen = λ x. x;
}

abbrev credentials : CommandArgs
credentials = record {
  positional = [];
  keyword = Dict.entry "user" (Value.string "ada") (
      Dict.entry "database" (Value.string "test")
        (Dict.entry "timeout" (Value.number (pos 500)) Dict.empty));
}

execute-returns_example :
    (s : Step refusing) × (Pg.execute refusing PgMode.disconnected pg_connect.name credentials 0
      ≡ some s)
    × (conforms pg_connect s.1 ≡ true)
    × (Pg.mode_of refusing s.0 ≡ (
        if succeeded s.1
        then target_or pg_connect.transitions_to (Pg.mode_of refusing PgMode.disconnected)
        else Pg.mode_of refusing PgMode.disconnected))
execute-returns_example =
    execute-returns refusing (λ cfg d w. omega arith) (λ d w. omega arith) PgMode.disconnected
      pg_connect credentials 0 (inl refl) (unfold Pg.mode_of pg_connect same_mode in refl)
      (λ e. inl (unfold is_limit millis_of kw get in refl))

abbrev ada : Row
ada = record {
  names = "id" ∷ "name" ∷ [];
  cell = λ i. if nat_eq i 0 then Cell.int (some (pos 1)) else Cell.text (some "ada");
}

abbrev no_name : Row
no_name = record ada { cell = λ i. if nat_eq i 0 then Cell.int (some (pos 2)) else Cell.text none }

build_result_dict-transposed_example :
    (at_row (build_result_dict (λ x. x) (ada ∷ no_name ∷ [])) 1 1
      ≡ some (cell_to_value (λ x. x) (no_name.cell 1)))
    × (at_col (build_result_dict (λ x. x) (ada ∷ no_name ∷ [])) "name" 1
        ≡ some (cell_to_value (λ x. x) (no_name.cell 1)))
build_result_dict-transposed_example =
    build_result_dict-transposed (λ x. x) (ada ∷ no_name ∷ []) 1 1 no_name "name"
      (unfold AreDistinct columns in (refl, (refl, tt))) refl (unfold columns in refl)

-- Of two columns with one name only the last is found under it.
abbrev twins : Row
twins = record { names = "a" ∷ "a" ∷ []; cell = λ i. Cell.int (some (pos i)) }

twins-at_col : at_col (build_result_dict (λ x. x) (twins ∷ [])) "a" 0 ≡ some (Value.number (pos 1))
unfolding at_col build_result_dict col_dict push_rows push_row get_value? values_of
twins-at_col = refl
