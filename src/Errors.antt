-- ===== src/Errors.antt =====
-- Runtime errors and outcomes (crates/ill-core/src/runtime/mod.rs).
use i_ll.Prelude.{String, ◌<>◌}

pub data RuntimeError : Type 0 where
  actor_not_implemented : String → RuntimeError
  missing_kwarg : String → RuntimeError
  type_mismatch : String → String → String → RuntimeError
  construct : String → RuntimeError
  eval : String → RuntimeError

-- `Display` of an error.
unfoldable pub show_error : RuntimeError → String
show_error (actor_not_implemented name) =
    "actor type `" <> (name <> "` has no runtime implementation yet")
show_error (missing_kwarg name) = "missing required keyword arg `" <> (name <> "`")
show_error (type_mismatch expected got context) =
    "type mismatch in " <> (context <> (": expected " <> (expected <> (", got " <> got))))
show_error (construct msg) = "construct failed: " <> msg
show_error (eval msg) = msg
