-- ===== src/Conformance/Store.antt =====
-- The tests of crates/relos-store/src/memory.rs.
use relos.Prelude.{Bool, false, Option, none, some, ◌≡◌, refl, ◌==◌, ◌&&◌, length, get_elem?}
use relos.Prelude.Bytes.{Bytes, text, bytes_eq, bytes_lt, starts_with}
use relos.Core.{Result, ok, and_then, Exec, ◌>>=◌, ◌>>◌}
use relos.Store.Map
use relos.Store.Map.{range_from, take_prefixed, scan_prefix}
use relos.Store.Memory
use relos.Store.Memory.{
  MemoryStore, MemoryWriteTx, begin_write_txn, begin_read_txn, put, delete, commit, rollback, get,
  read_get, prefix_scan, read_prefix_scan, flush,
}
use relos.Conformance.{run_on, unwrapped, unwrap, look, assert_that, is_none, is_value}

-- A write transaction is begun, and these calls are made on it.
abbrev write_txn : Exec MemoryWriteTx (Unit {0}) → Exec MemoryStore MemoryWriteTx
write_txn calls = look λ s.
    and_then (begin_write_txn s)
      λ txn. let (r, txn') = calls txn in and_then (unwrapped r) λ _. ok txn'

abbrev entry_is : Bytes → Bytes → Option (Bytes × Bytes) → Bool
entry_is key value none = false
entry_is key value (some e) = bytes_eq e.0 key && bytes_eq e.1 value

abbrev key_is : Bytes → Option (Bytes × Bytes) → Bool
key_is key none = false
key_is key (some e) = bytes_eq e.0 key

abbrev pub test_put_and_get : Result (Unit {0})
test_put_and_get = run_on (ok Memory.new) do
  txn ← write_txn (put (text "key1") (text "value1") >> put (text "key2") (text "value2"))
  unwrap (commit txn)
  ro ← look begin_read_txn
  v1 ← look (λ s. read_get (text "key1") ro)
  assert_that (is_value (text "value1") v1)
  v2 ← look (λ s. read_get (text "key2") ro)
  assert_that (is_value (text "value2") v2)
  v3 ← look (λ s. read_get (text "missing") ro)
  assert_that (is_none v3)

abbrev pub test_put_overwrites : Result (Unit {0})
test_put_overwrites = run_on (ok Memory.new) do
  txn ← write_txn (put (text "k") (text "v1"))
  unwrap (commit txn)
  txn ← write_txn (put (text "k") (text "v2"))
  unwrap (commit txn)
  ro ← look begin_read_txn
  v4 ← look (λ s. read_get (text "k") ro)
  assert_that (is_value (text "v2") v4)

abbrev pub test_delete : Result (Unit {0})
test_delete = run_on (ok Memory.new) do
  txn ← write_txn (put (text "key1") (text "value1"))
  unwrap (commit txn)
  txn ← write_txn (delete (text "key1"))
  v5 ← look (λ s. get (text "key1") txn)
  assert_that (is_none v5)
  unwrap (commit txn)
  ro ← look begin_read_txn
  v6 ← look (λ s. read_get (text "key1") ro)
  assert_that (is_none v6)

abbrev pub test_delete_nonexistent_key : Result (Unit {0})
test_delete_nonexistent_key =
    run_on (ok Memory.new) do txn ← write_txn (delete (text "nope")); unwrap (commit txn)

abbrev pub test_commit : Result (Unit {0})
test_commit = run_on (ok Memory.new) do
  txn ← write_txn (put (text "a") (text "1"))
  unwrap (commit txn)
  ro ← look begin_read_txn
  v7 ← look (λ s. read_get (text "a") ro)
  assert_that (is_value (text "1") v7)

abbrev pub test_rollback : Result (Unit {0})
test_rollback = run_on (ok Memory.new) do
  txn ← write_txn (put (text "key1") (text "value1"))
  unwrap (rollback txn)
  ro ← look begin_read_txn
  v8 ← look (λ s. read_get (text "key1") ro)
  assert_that (is_none v8)

abbrev pub test_rollback_preserves_existing_data : Result (Unit {0})
test_rollback_preserves_existing_data = run_on (ok Memory.new) do
  txn ← write_txn (put (text "keep") (text "me"))
  unwrap (commit txn)
  txn ← write_txn (put (text "new") (text "data") >> delete (text "keep"))
  unwrap (rollback txn)
  ro ← look begin_read_txn
  v9 ← look (λ s. read_get (text "keep") ro)
  assert_that (is_value (text "me") v9)
  v10 ← look (λ s. read_get (text "new") ro)
  assert_that (is_none v10)

abbrev pub test_prefix_scan : Result (Unit {0})
test_prefix_scan = run_on (ok Memory.new) do
  txn ← write_txn (
      put (text "users/1") (text "alice")
      >> put (text "users/2") (text "bob")
      >> put (text "users/3") (text "carol")
      >> put (text "orders/1") (text "order1")
      >> put (text "orders/2") (text "order2"))
  unwrap (commit txn)
  ro ← look begin_read_txn
  users ← look (λ s. read_prefix_scan (text "users/") ro)
  assert_that (length users == 3)
  assert_that (entry_is (text "users/1") (text "alice") (get_elem? users 0))
  assert_that (entry_is (text "users/2") (text "bob") (get_elem? users 1))
  assert_that (entry_is (text "users/3") (text "carol") (get_elem? users 2))
  orders ← look (λ s. read_prefix_scan (text "orders/") ro)
  assert_that (length orders == 2)
  empty ← look (λ s. read_prefix_scan (text "nonexistent/") ro)
  assert_that (length empty == 0)

abbrev pub test_prefix_scan_within_write_txn : Result (Unit {0})
test_prefix_scan_within_write_txn = run_on (ok Memory.new) do
  txn ←
      write_txn (
        put (text "a/1") (text "v1")
        >> put (text "a/2") (text "v2")
        >> put (text "b/1") (text "v3"))
  results ← look (λ s. prefix_scan (text "a/") txn)
  assert_that (length results == 2)
  assert_that (key_is (text "a/1") (get_elem? results 0))
  assert_that (key_is (text "a/2") (get_elem? results 1))
  unwrap (rollback txn)

abbrev pub test_snapshot_isolation : Result (Unit {0})
test_snapshot_isolation = run_on (ok Memory.new) do
  txn ← write_txn (put (text "key1") (text "value1"))
  unwrap (commit txn)
  snapshot ← look begin_read_txn
  txn ← write_txn (put (text "key2") (text "value2") >> put (text "key1") (text "updated"))
  unwrap (commit txn)
  v11 ← look (λ s. read_get (text "key1") snapshot)
  assert_that (is_value (text "value1") v11)
  v12 ← look (λ s. read_get (text "key2") snapshot)
  assert_that (is_none v12)
  fresh ← look begin_read_txn
  v13 ← look (λ s. read_get (text "key1") fresh)
  assert_that (is_value (text "updated") v13)
  v14 ← look (λ s. read_get (text "key2") fresh)
  assert_that (is_value (text "value2") v14)

abbrev pub test_write_txn_isolation_from_concurrent_reads : Result (Unit {0})
test_write_txn_isolation_from_concurrent_reads = run_on (ok Memory.new) do
  txn ← write_txn (put (text "k") (text "v"))
  ro ← look begin_read_txn
  v15 ← look (λ s. read_get (text "k") ro)
  assert_that (is_none v15)
  unwrap (commit txn)
  ro2 ← look begin_read_txn
  v16 ← look (λ s. read_get (text "k") ro2)
  assert_that (is_value (text "v") v16)

abbrev pub test_flush_is_noop : Result (Unit {0})
test_flush_is_noop = run_on (ok Memory.new) do unwrap flush

abbrev pub test_empty_prefix_scan_returns_all : Result (Unit {0})
test_empty_prefix_scan_returns_all = run_on (ok Memory.new) do
  txn ←
      write_txn
        (put (text "a") (text "1") >> put (text "b") (text "2") >> put (text "c") (text "3"))
  unwrap (commit txn)
  ro ← look begin_read_txn
  all ← look (λ s. read_prefix_scan (text "") ro)
  assert_that (length all == 3)

abbrev pub test_multiple_commits : Result (Unit {0})
test_multiple_commits = run_on (ok Memory.new) do
  txn ← write_txn (put (text "k1") (text "v1"))
  unwrap (commit txn)
  txn ← write_txn (put (text "k2") (text "v2"))
  unwrap (commit txn)
  txn ← write_txn (put (text "k3") (text "v3"))
  unwrap (commit txn)
  ro ← look begin_read_txn
  v17 ← look (λ s. read_get (text "k1") ro)
  assert_that (is_value (text "v1") v17)
  v18 ← look (λ s. read_get (text "k2") ro)
  assert_that (is_value (text "v2") v18)
  v19 ← look (λ s. read_get (text "k3") ro)
  assert_that (is_value (text "v3") v19)

tests_pass :
    (test_put_and_get ≡ ok tt)
    × (test_put_overwrites ≡ ok tt)
    × (test_delete ≡ ok tt)
    × (test_delete_nonexistent_key ≡ ok tt)
    × (test_commit ≡ ok tt)
    × (test_rollback ≡ ok tt)
    × (test_rollback_preserves_existing_data ≡ ok tt)
    × (test_prefix_scan ≡ ok tt)
    × (test_prefix_scan_within_write_txn ≡ ok tt)
    × (test_snapshot_isolation ≡ ok tt)
    × (test_write_txn_isolation_from_concurrent_reads ≡ ok tt)
    × (test_flush_is_noop ≡ ok tt)
    × (test_empty_prefix_scan_returns_all ≡ ok tt)
    × (test_multiple_commits ≡ ok tt)
unfolding begin_write_txn begin_read_txn put delete commit rollback get read_get prefix_scan
    read_prefix_scan flush Map.get Map.insert Map.remove range_from take_prefixed scan_prefix text
    bytes_eq bytes_lt starts_with
tests_pass = (refl, refl, refl, refl, refl, refl, refl, refl, refl, refl, refl, refl, refl, refl)
