-- ===== src/Tests/Failure.antt =====
-- A log whose next entry the table applicator refuses.
use relos.Prelude.{false, some, [], ◌∷◌}
use relos.Core.{RelosError, invalid_operation, coded, failed}
use relos.Log.MemoryLoglet
use relos.Log.MemoryLoglet.{MemoryLoglet}
use relos.Engine.Base.{BaseEngine}
use relos.Store.Memory
use relos.Store.Memory.{MemoryWriteTx}
use relos.Table.Command.{Codecs, put}
use relos.Table.Applicator.{no_such_column, apply_entry}
use relos.Table.Applicator.Isolation.{KeepsCursor, apply_entry-cursor_key}
use relos.Tests.Table.{table, row_of_7, with_table, with_table-IsSorted, keyed_by, with_schemas}

-- Every payload is the put of a row whose table names a key column that it does not have.
abbrev putting : Codecs
putting = record (with_schemas (keyed_by (106 ∷ []))) {
  commands = record { serialize = λ m. failed []; deserialize = λ b. coded (put table row_of_7) };
}

abbrev one_put : BaseEngine MemoryLoglet (Unit {0})
one_put = record {
  loglet = record {
    entries = some (record { headers = []; payload = [] }) ∷ [];
    is_sealed = false;
    trim_pos = 1;
  };
  local_store = record { contents = with_table.working; poisoned = false };
  app = tt;
  cursor = 1;
}

abbrev no_key : RelosError
no_key = invalid_operation (no_such_column (106 ∷ []))

apply_entry-cursor_key_example :
    KeepsCursor with_table
      (apply_entry putting (record { headers = []; payload = [] }) with_table).1
apply_entry-cursor_key_example =
    apply_entry-cursor_key putting (record { headers = []; payload = [] }) with_table
      with_table-IsSorted
