-- ===== src/Log/MetaStore.antt =====
-- crates/relos-log/src/metastore.rs: the versioned register for the chain.
use relos.Prelude.{
  ℕ, ◌≡◌, ◌≢◌, refl, Bool, true, false, List, [], ◌∷◌, arith, ◌==◌, ◌<◌, ◌+◌, ◌^◌, if◌then◌else◌,
}
use relos.Prelude.Words.{add64}
use relos.Core.{Result, ok, Exec}
use relos.Log.Chain.{LogChain}

-- `MemoryMetaStore`: the pair under the lock
pub record MetaStore : Type 0 where
  pub chain : LogChain
  pub version : ℕ

-- `MemoryMetaStore::new`
unfoldable pub new : LogChain → MetaStore
new initial_chain = record { chain = initial_chain; version = 0 }

unfoldable pub read : MetaStore → Result (LogChain × ℕ)
read m = ok (m.chain, m.version)

unfoldable pub write : LogChain → ℕ → Exec MetaStore Bool
write chain expected_version m =
    if m.version == expected_version
    then (ok true, record { chain = chain; version = add64 m.version 1 })
    else (ok false, m)

-- How many of a sequence of writes that all expect one version succeed, and the store after them.
abbrev count_true : Result Bool → ℕ
count_true (ok true) = 1
count_true _ = 0

unfoldable pub writes : ℕ → List LogChain → MetaStore → ℕ × MetaStore
writes v [] m = (0, m)
writes v (c ∷ cs) m =
    let (won, m') = write c v m in let (more, m'') = writes v cs m' in (count_true won + more, m'')

writes_lost : (v : ℕ) (cs : List LogChain) (m : MetaStore) → m.version ≢ v → writes v cs m ≡ (0, m)
unfolding writes write
writes_lost v [] m ne = refl
writes_lost v (c ∷ cs) m ne = ground (arith, writes_lost v cs m ne)

add64-ne : (v : ℕ) → v < 2 ^ 64 → add64 v 1 ≢ v
unfolding add64
add64-ne v h = omega arith

-- Of any number of clients that race from the version that the store holds, exactly the first
-- wins: its chain is stored, the version is the next one, and no other write takes effect. (The version fits in a word.)
pub writes_one_winner :
    (c : LogChain) (cs : List LogChain) (m : MetaStore)
    → m.version < 2 ^ 64
    → writes m.version (c ∷ cs) m ≡ (1, record { chain = c; version = add64 m.version 1 })
unfolding writes write
writes_one_winner c cs m h = ground (
  arith,
  writes_lost m.version cs (record { chain = c; version = add64 m.version 1 })
      (add64-ne m.version h),
)
