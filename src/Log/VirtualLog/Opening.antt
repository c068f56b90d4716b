-- ===== src/Log/VirtualLog/Opening.antt =====
-- `VirtualLog::new` on the register of a new log.
use relos.Prelude.{ℕ, ◌≤◌, ◌≡◌, ◌≢◌, refl, [], arith}
use relos.Prelude.Bytes.{Text}
use relos.Prelude.Dict.{insert, lookup-insert_self}
use relos.Core.{log_pos_begin, Result, ok}
use relos.Log.Loglet.{Loglet, LogletLaws}
use relos.Log.Chain
use relos.Log.MetaStore
use relos.Log.VirtualLog.{VirtualLog, new, create_all, loglet_name}
use relos.Log.VirtualLog.Backing.{active_of}
use relos.Log.VirtualLog.Consistency.{IsConsistent, IsNew, active, global_tail}

module _ {L : Type 0} {ops : Loglet L} (laws : LogletLaws ops) (factory : Text → Result L) where
  -- The virtual log of a chain of one segment, backed by this loglet.
  abbrev opened : Text → L → VirtualLog L
  opened name l = record {
    meta_store = MetaStore.new (Chain.new name);
    chain = Chain.new name;
    chain_version = 0;
    loglets = insert name l [];
  }

  opened-IsConsistent :
      (name : Text) (l : L)
      → ((k : ℕ) → 1 ≤ k → name ≢ loglet_name k)
      → IsNew laws factory l
      → IsConsistent laws factory (opened name l)
  unfolding MetaStore.new Chain.new
  opened-IsConsistent name l free n = record {
    chain_stored = refl;
    version_stored = refl;
    backed = (
      refl,
      refl,
      (
        l,
        record {
          found = lookup-insert_self name l [];
          valid = n.valid;
          bound = omega (arith, n.empty);
        },
        omega (arith, n.empty, n.untrimmed),
      ),
    );
    names_free = λ k more. (free k more, tt);
  }

  -- On a register that holds a new chain of one segment, `VirtualLog::new` returns a virtual log
  -- that satisfies its invariant and whose tail is the first position, if the factory returns a
  -- new loglet for the segment's name and this is not a name that `reconfigure` will give.
  pub new-IsConsistent :
      (name : Text) (l : L)
      → ((k : ℕ) → 1 ≤ k → name ≢ loglet_name k)
      → factory name ≡ ok l
      → IsNew laws factory l
      → (v : VirtualLog L) × (new ops factory (MetaStore.new (Chain.new name)) ≡ ok v)
        × ((c : IsConsistent laws factory v) × (global_tail laws factory v c ≡ log_pos_begin))
  unfolding new MetaStore.new MetaStore.read Chain.new global_tail active active_of create_all
      opened-IsConsistent
  new-IsConsistent name l free made n =
      (opened name l, rw made refl, (opened-IsConsistent name l free n, rw n.empty refl))
