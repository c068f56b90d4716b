-- ===== src/Tests/Log.antt =====
-- The log's theorems at concrete inputs: a chain of two segments, a loglet with two entries, and a
-- virtual log over one empty loglet.
use relos.Prelude.{
  ℕ, zero, suc, ◌+◌, ◌<◌, ◌^◌, ◌≡◌, refl, true, false, none, some, [], ◌∷◌, arith, get_elem?, ltb,
  if◌then◌else◌,
}
use relos.Prelude.Bytes.{Text}
use relos.Prelude.Words.{add64}
use relos.Core.{Entry, Result, ok, err, trimmed}
use relos.Log.Chain.{LogChain, ChainSegment, find_segment, extend, contains, open_segment}
use relos.Log.Chain.Routing.{IsWellFormed, find_segment_unique, holders}
use relos.Log.Chain.Extension.{find_segment-extend, target}
use relos.Log.MetaStore.{MetaStore, writes, writes_one_winner}
use relos.Log.MemoryLoglet
use relos.Log.MemoryLoglet.{MemoryLoglet, memory_loglet, tail_of}
use relos.Log.MemoryLoglet.Invariant.{IsValid, new-IsValid}
use relos.Log.MemoryLoglet.Laws.{memory_laws}
use relos.Log.MemoryLoglet.Trimming.{read-trim}
use relos.Log.VirtualLog.{VirtualLog, reconfigure, append}
use relos.Log.VirtualLog.Consistency.{
  IsConsistent, IsNew, active, global_tail, loglet_name-injective,
}
use relos.Log.VirtualLog.Backing.{active_of}
use relos.Log.VirtualLog.Race.{HasLoglets, lost_race_lem}
use relos.Log.VirtualLog.Reconfiguration.{Reconfigured, reconfigure_lem}
use relos.Log.VirtualLog.Appending.{Appended, append_total}
use relos.Log.VirtualLog.{install, loglet_name}
use relos.Prelude.Dict.{Dict, insert, lookup-insert_self}

abbrev two_segments : LogChain
two_segments = record {
  segments =
      record { loglet_id = 1 ∷ []; start_pos = 1; end_pos = some 5 }
      ∷ record { loglet_id = 2 ∷ []; start_pos = 5; end_pos = none }
      ∷ [];
}

two_segments-IsWellFormed : IsWellFormed two_segments
two_segments-IsWellFormed = (refl, (5, refl, omega arith, (refl, refl)))

find_segment_unique_example :
    (holders two_segments.segments 7 ≡ 1)
    × ((s : ChainSegment) × (find_segment two_segments 7 ≡ some s) × (contains s 7 ≡ true))
find_segment_unique_example =
    find_segment_unique two_segments 7 two_segments-IsWellFormed (omega arith)

find_segment-extend_example :
    target (find_segment (extend two_segments 9 (3 ∷ [])) 7)
    ≡ (if ltb 7 9 then target (find_segment two_segments 7) else some (3 ∷ [], 9))
find_segment-extend_example =
    find_segment-extend two_segments 9 7 (3 ∷ []) two_segments-IsWellFormed (omega arith)

abbrev store_at_4 : MetaStore
store_at_4 = record { chain = two_segments; version = 4 }

writes_one_winner_example :
    writes 4 (two_segments ∷ two_segments ∷ []) store_at_4
    ≡ (1, record { chain = two_segments; version = add64 4 1 })
writes_one_winner_example =
    writes_one_winner two_segments (two_segments ∷ []) store_at_4 (omega arith)

abbrev entry : ℕ → Entry
entry n = record { headers = []; payload = n ∷ [] }

abbrev two_entries : MemoryLoglet
two_entries = record {
  entries = some (entry 10) ∷ some (entry 20) ∷ [];
  is_sealed = false;
  trim_pos = 1;
}

two_entries-IsValid : IsValid two_entries
two_entries-IsValid = record {
  fits = omega arith;
  trim_pos_pos = omega arith;
  kept = λ i from below. kept_at i below;
}
  where
    kept_at : (i : ℕ) → i < 2 → (e : Entry) × (get_elem? two_entries.entries i ≡ some (some e))
    kept_at zero below = (entry 10, refl)
    kept_at (suc zero) below = (entry 20, refl)
    kept_at (suc (suc i)) below = absurd (omega arith)

read-trim_example :
    MemoryLoglet.read 2 (MemoryLoglet.trim 2 two_entries).1
    ≡ (if ltb 2 2 then err (trimmed 2) else MemoryLoglet.read 2 two_entries)
read-trim_example = read-trim 2 2 two_entries two_entries-IsValid

-- The factory of main.rs's single-server default: a new memory loglet for any name.
abbrev pub factory : Text → Result MemoryLoglet
factory id = ok MemoryLoglet.new

pub factory-IsNew : IsNew memory_laws factory MemoryLoglet.new
unfolding memory_laws add64
factory-IsNew = record { valid = new-IsValid; empty = refl; opened = refl; untrimmed = refl }

pub factory-fresh :
    (id : Text) → (l : MemoryLoglet) × (factory id ≡ ok l) × IsNew memory_laws factory l
factory-fresh id = (MemoryLoglet.new, refl, factory-IsNew)

abbrev first_chain : LogChain
first_chain = record { segments = open_segment 1 (loglet_name 0) ∷ [] }

abbrev pub one_loglet : VirtualLog MemoryLoglet
one_loglet = record {
  meta_store = record { chain = first_chain; version = 0 };
  chain = first_chain;
  chain_version = 0;
  loglets = insert (loglet_name 0) MemoryLoglet.new [];
}

pub one_loglet-IsConsistent : IsConsistent memory_laws factory one_loglet
unfolding memory_laws add64
one_loglet-IsConsistent = record {
  chain_stored = refl;
  version_stored = refl;
  backed = (
    refl,
    refl,
    (
      MemoryLoglet.new,
      record {
        found = lookup-insert_self (loglet_name 0) MemoryLoglet.new [];
        valid = new-IsValid;
        bound = omega arith;
      },
      omega arith,
    ),
  );
  names_free = λ k more. ((λ e. absurd (omega (arith, loglet_name-injective 0 k e))), tt);
}

pub one_loglet-tail : global_tail memory_laws factory one_loglet one_loglet-IsConsistent ≡ 1
unfolding global_tail active active_of memory_laws one_loglet-IsConsistent add64
one_loglet-tail = refl

pub one_loglet-room :
    global_tail memory_laws factory one_loglet one_loglet-IsConsistent + 2 < 2 ^ 64
one_loglet-room = omega (arith, one_loglet-tail)

append_total_example :
    (v' : VirtualLog MemoryLoglet) × (append memory_loglet factory 2 (entry 7) one_loglet
      ≡ some (ok (global_tail memory_laws factory one_loglet one_loglet-IsConsistent), v'))
    × Appended memory_laws factory (entry 7) one_loglet one_loglet-IsConsistent v'
append_total_example =
    append_total memory_laws factory factory-fresh one_loglet one_loglet-IsConsistent (entry 7)
      one_loglet-room

reconfigure_lem_example :
    (v' : VirtualLog MemoryLoglet) × (reconfigure memory_loglet factory one_loglet ≡ (ok tt, v'))
    × Reconfigured memory_laws factory one_loglet one_loglet-IsConsistent v'
reconfigure_lem_example =
    reconfigure_lem memory_laws factory factory-fresh one_loglet one_loglet-IsConsistent
      (omega (arith, one_loglet-tail))

-- Another client has stored a chain of two segments meanwhile.
abbrev overtaken : VirtualLog MemoryLoglet
overtaken = record one_loglet { meta_store = record { chain = two_segments; version = 1 } }

lost_race_lem_example :
    (m : Dict MemoryLoglet) × (install memory_loglet factory 9 overtaken
      ≡ (ok tt, record overtaken { chain = two_segments; chain_version = 1; loglets = m }))
    × HasLoglets memory_loglet factory two_segments.segments overtaken.loglets m
lost_race_lem_example =
    lost_race_lem memory_loglet factory (λ id. (MemoryLoglet.new, refl)) overtaken 9
      (λ e. absurd (omega (arith, e)))
