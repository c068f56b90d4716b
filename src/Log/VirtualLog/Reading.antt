-- ===== src/Log/VirtualLog/Reading.antt =====
-- Where a position of the virtual log is read.
use relos.Prelude.{
  ◌+◌, ◌-◌, ◌<◌, ◌≤◌, ◌^◌, ◌≡◌, ◌≢◌, ◌∙◌, false, Option, none, some, List, [], ◌∷◌, arith, ltb,
  Bool-cases, Option-cases, inl, inr,
}
use relos.Prelude.Words.{add64, sub64}
use relos.Prelude.Bytes.{Text}
use relos.Prelude.Dict.{Dict, lookup, insert, lookup-insert_ne}
use relos.Core.{LogPos, Entry, Result, err, and_then, ok_or}
use relos.Log.Loglet.{Loglet, LogletLaws}
use relos.Log.Chain.{ChainSegment, find_in, find_segment, contains}
use relos.Log.Chain.Routing.{EndToEnd}
use relos.Log.Chain.Extension.{last_start, target, start-le-last_start}
use relos.Log.VirtualLog.{VirtualLog, local_to_global, global_to_local, read, no_segment, no_loglet}
use relos.Log.VirtualLog.Backing.{Absent, Backed, last_id, Absent-last_id}

pub global_to_local-eq :
    (start p : LogPos)
    → 1 ≤ start
    → start ≤ p
    → p < 2 ^ 64
    → global_to_local start p ≡ p - start + 1
unfolding global_to_local add64 sub64
global_to_local-eq start p one h b = omega arith

pub local_to_global-eq :
    (start p : LogPos) → 1 ≤ p → start + p < 2 ^ 64 → local_to_global start p ≡ start + p - 1
unfolding local_to_global add64 sub64
local_to_global-eq start p h b = omega arith

-- A position of the log not before a segment's start, below the last word, is translated to a
-- local position from 1 on, which is translated back to it.
pub local_to_global-global_to_local :
    (start p : LogPos)
    → 1 ≤ start
    → start ≤ p
    → p + 1 < 2 ^ 64
    → (local_to_global start (global_to_local start p) ≡ p) × (1 ≤ global_to_local start p)
local_to_global-global_to_local start p one h b =
    rw (global_to_local-eq start p one h (omega arith)) (
      local_to_global-eq start (p - start + 1) (omega arith) (omega arith) ∙ omega arith,
      omega arith,
    )

target-find_in_last :
    (start q : LogPos) (ss : List ChainSegment)
    → EndToEnd start ss
    → last_start ss ≤ q
    → target (find_in ss q) ≡ some (last_id ss, last_start ss)
unfolding find_in
target-find_in_last start q [] h le = absurd h
target-find_in_last start q (s ∷ []) h le = ground arith
target-find_in_last start q (s ∷ t ∷ ss) h le =
    ground (
      arith,
      start-le-last_start h.1.0 (t ∷ ss) h.1.3,
      target-find_in_last h.1.0 q (t ∷ ss) h.1.3 le,
    )

module _ {L : Type 0} {ops : Loglet L} (laws : LogletLaws ops) where
  find_in-earlier :
      (start q : LogPos) (ss : List ChainSegment) (m : Dict L)
      → Backed laws start ss m
      → start ≤ q
      → q < last_start ss
      → (x : Text × LogPos) × (target (find_in ss q) ≡ some x) × (x.0 ≢ last_id ss)
  unfolding find_in
  find_in-earlier start q [] m h le lt = absurd h
  find_in-earlier start q (s ∷ []) m h le lt = absurd (omega arith)
  find_in-earlier start q (s ∷ t ∷ ss) m h le lt = elim (Bool-cases (ltb q h.1.0)) [
    | inl here ↦
        ((s.loglet_id, s.start_pos), ground arith, Absent-last_id laws s.loglet_id t ss h.1.3)
    | inr later ↦
        let (x, eq, ne) = find_in-earlier h.1.0 q (t ∷ ss) m h.1.4 (ground arith) lt in
        (x, skip q h.1.0 s (t ∷ ss) h.1.1 later ∙ eq, ne)
  ]
    where
      skip :
          (q e : LogPos) (s : ChainSegment) (ss : List ChainSegment)
          → s.end_pos ≡ some e
          → ltb q e ≡ false
          → target (find_in (s ∷ ss) q) ≡ target (find_in ss q)
      skip q e s ss end late = ground arith

  find_in-present :
      (id : Text) (q : LogPos) (ss : List ChainSegment)
      → Absent id ss
      → (x : Text × LogPos) → target (find_in ss q) ≡ some x
      → x.0 ≢ id
  unfolding find_in
  find_in-present id q [] h x e = cc
  find_in-present id q (s ∷ ss) h x e = elim (Bool-cases (contains s q)) [
    | inl held ↦ λ eq. h.0 (ground arith)
    | inr skipped ↦ find_in-present id q ss h.1 x (ground arith)
  ]

  -- A read, by the loglet and the segment start to which the position is routed.
  abbrev pub read_at : Option (Text × LogPos) → LogPos → Dict L → Result (Option Entry)
  read_at none q m = err (no_segment q)
  read_at (some x) q m =
      and_then (ok_or (lookup x.0 m) (no_loglet x.0)) λ l. ops.read (global_to_local x.1 q) l

  pub read-eq-read_at :
      (factory : Text → Result L) (q : LogPos) (v : VirtualLog L)
      → read ops factory q v ≡ read_at (target (find_segment v.chain q)) q v.loglets
  unfolding read
  read-eq-read_at factory q v = elim (Option-cases (find_segment v.chain q)) [
    | inl nowhere ↦ rw nowhere
    | inr (s, found) ↦ rw found
  ]

  pub read_at-insert_ne :
      (x : Text × LogPos) (q : LogPos) (id : Text) (l : L) (m : Dict L)
      → x.0 ≢ id
      → read_at (some x) q (insert id l m) ≡ read_at (some x) q m
  read_at-insert_ne x q id l m ne = rw (lookup-insert_ne id x.0 l m ne)

  pub read_at-found :
      (x : Text × LogPos) (q : LogPos) (l : L) (m : Dict L)
      → lookup x.0 m ≡ some l
      → read_at (some x) q m ≡ ops.read (global_to_local x.1 q) l
  read_at-found x q l m found = rw found

  -- Replacing the last loglet changes no read of the earlier segments.
  pub read_in-insert_last :
      (start q : LogPos) (ss : List ChainSegment) (m : Dict L) (l' : L)
      → Backed laws start ss m
      → start ≤ q
      → q < last_start ss
      → read_at (target (find_in ss q)) q (insert (last_id ss) l' m)
        ≡ read_at (target (find_in ss q)) q m
  read_in-insert_last start q ss m l' h le lt =
      let (x, eq, ne) = find_in-earlier start q ss m h le lt in
      rw eq (read_at-insert_ne x q (last_id ss) l' m ne)

  -- A position from the start of the last segment on is read from its loglet.
  pub read_in_last :
      (start q : LogPos) (ss : List ChainSegment) (m : Dict L) (l : L)
      → EndToEnd start ss
      → last_start ss ≤ q
      → lookup (last_id ss) m ≡ some l
      → read_at (target (find_in ss q)) q m ≡ ops.read (global_to_local (last_start ss) q) l
  read_in_last start q ss m l h le found =
      rw (target-find_in_last start q ss h le)
        (read_at-found (last_id ss, last_start ss) q l m found)

  -- Adding a loglet under a new name changes no read.
  pub read_in-insert_new :
      (id : Text) (q : LogPos) (ss : List ChainSegment) (m : Dict L) (l' : L)
      → Absent id ss
      → read_at (target (find_in ss q)) q (insert id l' m) ≡ read_at (target (find_in ss q)) q m
  read_in-insert_new id q ss m l' ab = elim (Option-cases (target (find_in ss q))) [
    | inl nowhere ↦ rw nowhere
    | inr (x, found) ↦ rw found (read_at-insert_ne x q id l' m (find_in-present id q ss ab x found))
  ]
