-- ===== src/Value/Display.antt =====
-- `Display` of a value (crates/ill-core/src/runtime/value.rs). `debug` is `Debug` of a text, which
-- puts it in quotes with its escapes, and `show_float` is `Display` of an `f64`.
use i_ll.Prelude.{String, ◌<>◌, true, false, length}
use i_ll.Prelude.Int.{show_ℕ, show_ℤ}
use i_ll.Prelude.{ℕ}
use i_ll.Value.{Value, Values, Dict}

module _ (debug : String → String) (show_float : ℕ → String) where
  unfoldable mutual
    unfolding show_ℕ show_ℤ

    pub show_value : Value → String
    show_value (Value.string s) = debug s
    show_value (Value.number n) = show_ℤ n
    show_value (Value.float x) = show_float x
    show_value (Value.bool true) = "true"
    show_value (Value.bool false) = "false"
    show_value (Value.atom a) = ":" <> a
    show_value (Value.bytes b) = "<" <> (show_ℕ (length b) <> " bytes>")
    show_value (Value.array vs) = "[" <> (show_values vs <> "]")
    show_value (Value.dict d) = "{" <> (show_entries d <> "}")
    show_value Value.null = "null"

    -- With commas in between.
    pub show_values : Values → String
    show_values Values.nil = ""
    show_values (Values.cons v vs) = show_value v <> more_values vs

    pub more_values : Values → String
    more_values Values.nil = ""
    more_values (Values.cons v vs) = ", " <> (show_value v <> more_values vs)

    pub show_entries : Dict → String
    show_entries Dict.empty = ""
    show_entries (Dict.entry k v d) = k <> (": " <> (show_value v <> more_entries d))

    pub more_entries : Dict → String
    more_entries Dict.empty = ""
    more_entries (Dict.entry k v d) = ", " <> (k <> (": " <> (show_value v <> more_entries d)))
