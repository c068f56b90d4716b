-- ===== src/Log/VirtualLog.antt =====
-- crates/relos-log/src/virtual_log.rs: one log over a chain of loglets.
-- The loglets are owned by the state, one for each identifier; `factory` is `LogletFactory::create`.
pub mod Opening
pub mod Race
pub mod Backing
pub mod Reading
pub mod Consistency
pub mod Stability
pub mod Rounds
pub mod Reconfiguration
pub mod Visibility
pub mod Appending
use relos.Prelude.{
  ℕ, zero, suc, ◌+◌, ◌≡◌, Bool, true, false, Option, none, some, List, [], ◌∷◌, ◌++◌, leb, ltb,
  length, if◌then◌else◌, min,
}
use relos.Prelude.Words.{add64, sub64, u64_max}
use relos.Prelude.Bytes.{Text, text}
use relos.Prelude.Dict.{Dict, lookup, insert}
use relos.Core.{
  LogPos, Entry, Result, RelosError, ok, err, panic, sealed, internal, and_then, ok_or, Exec, pure,
  lift, gets, modify, continue, ◌>>=◌, ◌>>◌,
}
use relos.Log.Chain.{LogChain, ChainSegment, active_segment, find_segment, extend}
use relos.Log.Decimal.{decimal}
use relos.Log.MetaStore
use relos.Log.MetaStore.{MetaStore}
use relos.Log.Loglet.{Loglet}

pub record VirtualLog (L : Type 0) : Type 0 where
  pub meta_store : MetaStore
  pub chain : LogChain
  pub chain_version : ℕ
  pub loglets : Dict L

-- `local_to_global`
unfoldable pub local_to_global : LogPos → LogPos → LogPos
local_to_global segment_start local_pos = sub64 (add64 segment_start local_pos) 1

-- `global_to_local`
unfoldable pub global_to_local : LogPos → LogPos → LogPos
global_to_local segment_start global_pos = add64 (sub64 global_pos segment_start) 1

-- `format!("loglet-{}", n)`
unfoldable pub loglet_name : ℕ → Text
loglet_name n = text "loglet-" ++ decimal n

unfoldable pub generate_loglet_id : LogChain → Text
generate_loglet_id c = loglet_name (length c.segments)

pub no_segment : LogPos → RelosError
no_segment p = internal (text "no segment found for position " ++ decimal p)

pub no_loglet : Text → RelosError
no_loglet id = internal (text "loglet " ++ id ++ text " not found")

pub no_active_segment : RelosError
no_active_segment = internal (text "no active segment in chain")

pub no_active_loglet : Text → RelosError
no_active_loglet id = internal (text "active loglet " ++ id ++ text " not found")

module _ {L : Type 0} (ops : Loglet L) (factory : Text → Result L) where
  -- The loop of `VirtualLog::new`
  unfoldable pub create_all : List ChainSegment → Dict L → Result (Dict L)
  create_all [] m = ok m
  create_all (s ∷ ss) m = and_then (factory s.loglet_id) λ l. create_all ss (insert s.loglet_id l m)

  -- `VirtualLog::new`
  unfoldable pub new : MetaStore → Result (VirtualLog L)
  unfolding create_all
  new meta = and_then (MetaStore.read meta) λ read.
      and_then (create_all read.0.segments []) λ loglets.
        ok (record { meta_store = meta; chain = read.0; chain_version = read.1; loglets = loglets })

  -- The identifier stands for the shared reference: what is done to the loglet is written back.
  unfoldable pub get_active_loglet : VirtualLog L → Result (Text × L × LogPos)
  get_active_loglet v = and_then (ok_or (active_segment v.chain) no_active_segment) λ s.
      and_then (ok_or (lookup s.loglet_id v.loglets) (no_active_loglet s.loglet_id))
        λ l. ok (s.loglet_id, l, s.start_pos)

  unfoldable pub on_loglet : {A : Type 0} → Text → Exec L A → L → Exec (VirtualLog L) A
  on_loglet id m l v = let (r, l') = m l in (r, record v { loglets = insert id l' v.loglets })

  abbrev pub meta_write : LogChain → ℕ → Exec (VirtualLog L) Bool
  meta_write chain version v =
      let (r, m) = MetaStore.write chain version v.meta_store in (r, record v { meta_store = m })

  -- The loop of `sync_chain`: what was created before a failure stays
  pub create_missing : List ChainSegment → Exec (VirtualLog L) (Unit {0})
  create_missing [] v = (ok tt, v)
  create_missing (s ∷ ss) v = elim (lookup s.loglet_id v.loglets) [
    | some l ↦ create_missing ss v
    | none ↦ elim (factory s.loglet_id) [
      | ok l ↦ create_missing ss (record v { loglets = insert s.loglet_id l v.loglets })
      | err e ↦ (err e, v)
      | panic m ↦ (panic m, v)
    ]
  ]

  pub sync_chain : Exec (VirtualLog L) (Unit {0})
  unfolding create_missing
  sync_chain = do
    read ← (λ v. (MetaStore.read v.meta_store, v))
    create_missing read.0.segments
    modify (λ v. record v { chain = read.0; chain_version = read.1 })

  -- After a compare-and-swap that succeeded: create the new loglet and adopt the new chain
  unfoldable pub adopt : LogChain → Text → ℕ → Exec (VirtualLog L) (Unit {0})
  adopt new_chain new_loglet_id version = do
    new_loglet ← lift (factory new_loglet_id)
    modify (λ v. record v {
      loglets = insert new_loglet_id new_loglet v.loglets;
      chain = new_chain;
      chain_version = add64 version 1;
    })

  -- Steps 2 and 3 of `reconfigure`, with the position at which the active loglet was sealed
  unfoldable pub install : LogPos → Exec (VirtualLog L) (Unit {0})
  install global_seal_pos v =
      let new_loglet_id = generate_loglet_id v.chain in
      let new_chain = extend v.chain global_seal_pos new_loglet_id in
      let version = v.chain_version in
      (meta_write new_chain version >>= λ success.
      if success then adopt new_chain new_loglet_id version else sync_chain)
        v

  unfoldable pub reconfigure : Exec (VirtualLog L) (Unit {0})
  unfolding on_loglet
  reconfigure = do
    active ← (λ v. (get_active_loglet v, v))
    local_tail ← on_loglet active.0 ops.seal active.1
    install (local_to_global active.2 local_tail)

  -- The arms of the `match` in `append`: a position, or `none` to go round again
  unfoldable pub after_append : LogPos → Result LogPos → Exec (VirtualLog L) (Option LogPos)
  after_append start_pos (ok local_pos) v = (ok (some (local_to_global start_pos local_pos)), v)
  after_append start_pos (panic m) v = (panic m, v)
  after_append start_pos (err (sealed _)) v = (reconfigure >>= λ _. pure none) v
  after_append start_pos (err other) v = (err other, v)

  -- One round of the loop of `append`
  unfoldable pub append_round : Entry → Exec (VirtualLog L) (Option LogPos)
  unfolding on_loglet after_append
  append_round e v =
      continue (get_active_loglet v)
        (λ active v₁.
          let (r, v') = on_loglet active.0 (ops.append e) active.1 v₁ in after_append active.2 r v')
        v

  -- How the loop of `append` goes on after a round
  abbrev pub next_round :
      (VirtualLog L → Option (Result LogPos × VirtualLog L))
      → Result (Option LogPos)
      → VirtualLog L
      → Option (Result LogPos × VirtualLog L)
  next_round again (ok none) v = again v
  next_round again (ok (some p)) v = some (ok p, v)
  next_round again (err x) v = some (err x, v)
  next_round again (panic m) v = some (panic m, v)

  -- `VirtualLog::append`, with fuel for the loop; `none` means that it is still going round
  unfoldable pub append : ℕ → Entry → VirtualLog L → Option (Result LogPos × VirtualLog L)
  append zero e v = none
  append (suc fuel) e v = let (r, v') = append_round e v in next_round (λ v₂. append fuel e v₂) r v'

  unfoldable pub check_tail : VirtualLog L → Result LogPos
  check_tail v = and_then (get_active_loglet v) λ active.
      and_then (ops.check_tail active.1) λ local_tail. ok (local_to_global active.2 local_tail)

  unfoldable pub read : LogPos → VirtualLog L → Result (Option Entry)
  read global_pos v =
      and_then (ok_or (find_segment v.chain global_pos) (no_segment global_pos)) λ s.
        and_then (ok_or (lookup s.loglet_id v.loglets) (no_loglet s.loglet_id))
          λ l. ops.read (global_to_local s.start_pos global_pos) l

  -- `segment.end_pos.unwrap_or(LogPos::MAX)`
  abbrev pub end_or_max : Option LogPos → LogPos
  end_or_max none = u64_max
  end_or_max (some e) = e

  -- One round of the loop of `trim`
  unfoldable pub trim_segment : LogPos → ChainSegment → Exec (VirtualLog L) (Unit {0})
  unfolding on_loglet
  trim_segment global_pos s v =
      if ltb s.start_pos global_pos
      then elim (lookup s.loglet_id v.loglets) [
        | none ↦ (ok tt, v)
        | some l ↦
            on_loglet s.loglet_id
              (ops.trim (global_to_local s.start_pos (min global_pos (end_or_max s.end_pos)))) l v
      ]
      else (ok tt, v)

  unfoldable pub trim_segments : LogPos → List ChainSegment → Exec (VirtualLog L) (Unit {0})
  trim_segments global_pos [] = pure tt
  trim_segments global_pos (s ∷ ss) =
      let rest = trim_segments global_pos ss in trim_segment global_pos s >> rest

  unfoldable pub trim : LogPos → Exec (VirtualLog L) (Unit {0})
  unfolding trim_segments
  trim global_pos v = trim_segments global_pos v.chain.segments v

  -- `Loglet::seal` of the virtual log
  unfoldable pub seal : Exec (VirtualLog L) LogPos
  unfolding on_loglet
  seal = do
    active ← (λ v. (get_active_loglet v, v))
    local_tail ← on_loglet active.0 ops.seal active.1
    pure (local_to_global active.2 local_tail)

  -- `impl Loglet for VirtualLog`. Two rounds of the loop of `append` are given; if it were still
  -- going round, the call would not have returned.
  pub still_appending : Result LogPos
  still_appending = panic (text "append is still going round")

  abbrev pub returned :
      VirtualLog L → Option (Result LogPos × VirtualLog L) → Result LogPos × VirtualLog L
  returned v none = (still_appending, v)
  returned v (some x) = x

  abbrev pub virtual_loglet : Loglet (VirtualLog L)
  virtual_loglet = record {
    append = λ e v. returned v (append 2 e v);
    check_tail = check_tail;
    read = read;
    trim = trim;
    seal = seal;
  }
