-- ===== src/Table/Applicator/Isolation.antt =====
-- The tables and the engine share one store: no command touches the engine's cursor.
use relos.Prelude.{
  ◌≡◌, ◌≢◌, refl, ap, sym, ◌∙◌, Option, none, some, List, arith, Bool-cases, Option-cases, inl, inr,
  length, ◌==◌,
}
use relos.Prelude.Bytes.{Bytes, Text, bytes_eq_iff, starts_with}
use relos.Core.{Entry, Result, ok, err, panic, Exec, lift, ◌>>=◌, ◌>>◌, or_serialization_error}
use relos.Store.Map
use relos.Store.Map.Laws.{IsSorted, insert-IsSorted, remove-IsSorted, get-insert_ne, get-remove}
use relos.Store.Memory
use relos.Store.Memory.{MemoryWriteTx}
use relos.Engine.Base.{cursor_key}
use relos.Table.Schema.{TableSchema, Row, Value}
use relos.Table.Command.{
  Codecs, TableCommand, create_table, drop_table, put, delete, command_from_bytes,
}
use relos.Table.Keys.{
  schema_key, row_key, row_prefix, row_key-prefix, schema_key-ne-cursor_key, cursor_key-not_row,
}
use relos.Table.Applicator.{
  apply_create_table, apply_drop_table, apply_put, apply_delete, apply_command, apply_entry,
  extract_pk, load_schema, put_with, delete_with, created,
}
use relos.Table.Applicator.Keyspace.{apply_drop_table_lem}

-- The transaction's order and the value under the cursor key are kept.
abbrev pub KeepsCursor : MemoryWriteTx → MemoryWriteTx → Type 0
KeepsCursor t t' =
    IsSorted t'.working × (Map.get cursor_key t'.working ≡ Map.get cursor_key t.working)

abbrev Keeps : {A : Type 0} → Exec MemoryWriteTx A → Type 0
Keeps m = (t : MemoryWriteTx) → IsSorted t.working → KeepsCursor t (m t).1

Keeps-lift : {A : Type 0} (r : Result A) → Keeps (lift r)
Keeps-lift r t so = (so, refl)

Keeps-after_lift :
    {A B : Type 0} (r : Result A) (f : A → Exec MemoryWriteTx B)
    → ((a : A) → r ≡ ok a → Keeps (f a))
    → Keeps (lift r >>= f)
Keeps-after_lift (ok a) f h t so = h a refl t so
Keeps-after_lift (err e) f h t so = (so, refl)
Keeps-after_lift (panic m) f h t so = (so, refl)

Keeps-put :
    {A : Type 0} (key value : Bytes) (r : Result A)
    → key ≢ cursor_key
    → Keeps (Memory.put key value >> lift r)
unfolding Memory.put
Keeps-put key value r ne t so = (
  insert-IsSorted key value t.working so,
  get-insert_ne key cursor_key value t.working (λ e. ne (sym e)),
)

Keeps-delete :
    {A : Type 0} (key : Bytes) (r : Result A)
    → key ≢ cursor_key
    → Keeps (Memory.delete key >> lift r)
unfolding Memory.delete
Keeps-delete key r ne t so = (
  remove-IsSorted key t.working so,
  ground (arith, get-remove key cursor_key t.working so, bytes_eq_iff key cursor_key, ne),
)

row_key-ne-cursor_key :
    (c : Codecs) (table : Text) (vs : List Value) (key : Bytes)
    → row_key c table vs ≡ ok key
    → key ≢ cursor_key
row_key-ne-cursor_key c table vs key h e =
    let under = row_key-prefix c table vs key h in
    let outside = cursor_key-not_row table in
    cc (ap (λ k. starts_with k (row_prefix table)) e, under, outside)

module _ (c : Codecs) where
  Keeps-created : (schema : TableSchema) (o : Option Bytes) → Keeps (created c schema o)
  Keeps-created schema (some b) t so = (so, refl)
  Keeps-created schema none t so =
      Keeps-after_lift (or_serialization_error (c.schemas.serialize schema)) _
        (λ value e.
          Keeps-put (schema_key schema.name) value _ (schema_key-ne-cursor_key schema.name))
        t so

  Keeps-put_with :
      (table : Text) (row : Row) (o : Option TableSchema) → Keeps (put_with c table row o)
  Keeps-put_with table row none t so = (so, refl)
  Keeps-put_with table row (some schema) t so =
      elim (Bool-cases (length row.values == length schema.columns)) [
        | inr other ↦ rw other (so, refl)
        | inl same ↦ rw same (
            Keeps-after_lift (extract_pk schema row) _
              (λ vs e. Keeps-after_lift (row_key c table vs) _ (λ key k.
                Keeps-after_lift (or_serialization_error (c.rows.serialize row)) _
                  (λ value w. Keeps-put key value _ (row_key-ne-cursor_key c table vs key k))))
              t so)
      ]

  Keeps-delete_with :
      (table : Text) (vs : List Value) (o : Option TableSchema) → Keeps (delete_with c table vs o)
  Keeps-delete_with table vs none t so = (so, refl)
  Keeps-delete_with table vs (some schema) t so =
      Keeps-after_lift (row_key c table vs) _
        (λ key k. Keeps-delete key _ (row_key-ne-cursor_key c table vs key k)) t so

  Keeps-drop_table : (table : Text) → Keeps (apply_drop_table c table)
  Keeps-drop_table table t so = elim (Option-cases (Map.get (schema_key table) t.working)) [
    | inl missing ↦ unfold apply_drop_table Memory.get in rw missing (so, refl)
    | inr (b, found) ↦
        let h = apply_drop_table_lem c table b t so found in
        (
          h.1,
          h.2 cursor_key
              ∙ ground (
                arith,
                cursor_key-not_row table,
                schema_key-ne-cursor_key table,
                bytes_eq_iff (schema_key table) cursor_key,
              ),
        )
  ]

  Keeps-apply_command : (cmd : TableCommand) → Keeps (apply_command c cmd)
  unfolding apply_command apply_create_table apply_put apply_delete
  Keeps-apply_command (create_table schema) t so =
      Keeps-after_lift (Memory.get (schema_key schema.name) t) (created c schema)
        (λ o e. Keeps-created schema o) t so
  Keeps-apply_command (drop_table table) t so = Keeps-drop_table table t so
  Keeps-apply_command (put table row) t so =
      Keeps-after_lift (load_schema c table t) (put_with c table row)
        (λ o e. Keeps-put_with table row o) t so
  Keeps-apply_command (delete table vs) t so =
      Keeps-after_lift (load_schema c table t) (delete_with c table vs)
        (λ o e. Keeps-delete_with table vs o) t so

  -- Whatever the entry, and whether it is applied, refused or fails half-way, a store in key order
  -- stays in key order and the value under the engine's cursor key is as it was: no table name and
  -- no key reaches it.
  pub apply_entry-cursor_key :
      (e : Entry) (t : MemoryWriteTx) → IsSorted t.working → KeepsCursor t (apply_entry c e t).1
  unfolding apply_entry
  apply_entry-cursor_key e t so =
      Keeps-after_lift (command_from_bytes c e.payload) (apply_command c)
        (λ cmd h. Keeps-apply_command cmd) t so
