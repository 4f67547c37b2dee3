-- ===== src/Examples/Connections.antt =====
-- A connection that gets two busy handlers and is released twice.
use rsqlite.Prelude.{
  ◌≡◌, refl, pos, false, true, some, none, List, [], ◌∷◌, codes, ◌==◌, if◌then◌else◌,
}
use rsqlite.Connection.{
  DbConnection, OpenV2, Arguments, function, millis, opened, connect, destroy, set_busy_handler,
  keep, release_callback_data, release_data,
}
use rsqlite.Connection.Handling.{IsHandled, handler_of_last}
use rsqlite.Connection.Lifetime.{Call, set, release, run, destroy-run}

-- A SQLite that opens with these flags only, read and write, create, and URI, and its own VFS.
abbrev pub plain_open : OpenV2
plain_open path flags vfs = if flags == 0x46 then elim vfs [ none ↦ 0 | some name ↦ 1 ] else 21

abbrev pub plain_arguments : Arguments
plain_arguments = record {
  path = codes ":memory:";
  allow_ext = true;
  flags = 0x6;
  vfs = [];
  with_alt_types = false;
}

abbrev pub plain_connection : DbConnection
plain_connection = opened plain_arguments

abbrev calls : List Call
calls =
    set (some (function 1)) ∷ set (some (millis (pos 5))) ∷ release 2 ∷ set none ∷ release 1 ∷ []

destroy-run_example :
    ((destroy (run calls plain_connection)).closed ≡ 1)
    × ((destroy (run calls plain_connection)).preserved ≡ 0)
destroy-run_example =
    destroy-run plain_open plain_arguments plain_connection calls (unfold connect in refl)

-- A number replaces the function, and is the handler in the end.
abbrev replaced : List Call
replaced = set (some (function 1)) ∷ set (some (millis (pos 5))) ∷ []

replaced_valid : (run replaced plain_connection).handle ≡ true
unfolding run set_busy_handler keep release_callback_data release_data
replaced_valid = refl

handler_of_last_example : IsHandled (some (some (millis (pos 5)))) (run replaced plain_connection)
handler_of_last_example =
    handler_of_last plain_open plain_arguments plain_connection replaced (unfold connect in refl)
      replaced_valid
