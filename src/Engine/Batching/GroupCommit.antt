-- ===== src/Engine/Batching/GroupCommit.antt =====
-- Both halves of the group commit together: a flush over the base engine, which appends the entry
-- of the batch and applies it through the batching applicator.
use relos.Prelude.{
  ℕ, ◌+◌, ◌<◌, ◌≤◌, ◌^◌, suc, ◌≡◌, refl, ap, sym, ◌∙◌, false, Option, none, some, List, [], ◌∷◌,
  ◌++◌, map, length, arith,
}
use relos.Prelude.Bytes.{Bytes, text}
use relos.Core
use relos.Core.{LogPos, Entry, Result, ok, err, panic, coded, RoundTrips, with_header, continue}
use relos.Log.Loglet.{Loglet, LogletLaws}
use relos.Store.Memory.{MemoryWriteTx}
use relos.Engine.Interface.{ReturnValue, success, Applicator, Engine}
use relos.Engine.Base.{BaseEngine, base_engine}
use relos.Engine.Base.Playback.{committed, replay-applied, machine_of, with_machine}
use relos.Engine.Base.Playback.Proposing.{handle_propose-replay}
use relos.Engine.Batching.{
  BatchCodecs, PendingPropose, Flusher, send_all, flush, flush_batch, apply_payloads, apply_batched,
  batching_applicator, batching_header,
}
use relos.Engine.Batching.Unbatching.{apply_batched_lem}

abbrev pub payloads_of : List PendingPropose → List Bytes
payloads_of batch = map (λ q. q.payload) batch

length-payloads_of : (batch : List PendingPropose) → length (payloads_of batch) ≡ length batch
length-payloads_of [] = refl
length-payloads_of (p ∷ ps) = ap suc (length-payloads_of ps)

payloads_of-append :
    (qs : List PendingPropose) (q : PendingPropose)
    → payloads_of (qs ++ q ∷ []) ≡ payloads_of qs ++ q.payload ∷ []
payloads_of-append [] q = refl
payloads_of-append (p ∷ qs) q = ap (λ l. p.payload ∷ l) (payloads_of-append qs q)

module _ {A : Type 0} (inner : Applicator A) (pos : LogPos) where
  apply_payloads-last :
      (bs : List Bytes) (b : Bytes) (rv₀ rv' rv : ReturnValue) (s s' t : MemoryWriteTx × A)
      → apply_payloads inner pos rv₀ bs s ≡ (ok rv', s')
      → inner.apply (Core.new b) pos s' ≡ (ok rv, t)
      → apply_payloads inner pos rv₀ (bs ++ b ∷ []) s ≡ (ok rv, t)
  unfolding apply_payloads
  apply_payloads-last [] b rv₀ rv' rv s s' t earlier last =
      let same : s ≡ s' = ap (λ (p : Result ReturnValue × (MemoryWriteTx × A)). p.1) earlier in
      let last' : inner.apply (Core.new b) pos s ≡ (ok rv, t) =
        ap (λ u. inner.apply (Core.new b) pos u) same ∙ last in
      rw last' refl
  apply_payloads-last (x ∷ bs) b rv₀ rv' rv s s' t earlier last =
      go (inner.apply (Core.new x) pos s).0 (inner.apply (Core.new x) pos s).1 earlier
        (λ y u e. apply_payloads-last bs b y rv' rv u s' t e last)
    where
      go :
          (r : Result ReturnValue) (u : MemoryWriteTx × A)
          → continue r (λ y. apply_payloads inner pos y bs) u ≡ (ok rv', s')
          → ((y : ReturnValue) (v : MemoryWriteTx × A)
              → apply_payloads inner pos y bs v ≡ (ok rv', s')
              → apply_payloads inner pos y (bs ++ b ∷ []) v ≡ (ok rv, t))
          → continue r (λ y. apply_payloads inner pos y (bs ++ b ∷ [])) u ≡ (ok rv, t)
      go (ok y) u e rest = rest y u e
      go (err x) u e rest = cc
      go (panic m) u e rest = cc

-- The entry that a flush proposes.
abbrev pub batch_entry : Bytes → Bytes → Entry
batch_entry b header = with_header (Core.new b) batching_header header

-- A flush of some proposals, by what the engine below returns for their entry.
flushed :
    {S : Type 0} (c : BatchCodecs) (engine : Engine S) (p : PendingPropose)
    (ps : List PendingPropose) (b header : Bytes) (s : Flusher S) (rv : ReturnValue) (d : S)
    → c.payloads.serialize (payloads_of (p ∷ ps)) ≡ coded b
    → c.metadata.serialize (record { count = length (p ∷ ps) }) ≡ coded header
    → engine.propose (batch_entry b header) s.downstream ≡ (ok rv, d)
    → flush c engine (p ∷ ps) s
      ≡ (ok tt, record s { downstream = d; answers = s.answers ++ send_all (p ∷ ps) (ok rv) })
flushed c engine p ps b header s rv d sp sm proposed = rw (sp, sm) (rw proposed refl)

flush-last :
    {S : Type 0} (c : BatchCodecs) (engine : Engine S) (qs : List PendingPropose)
    (q : PendingPropose) (b header : Bytes) (s : Flusher S) (rv : ReturnValue) (d : S)
    → c.payloads.serialize (payloads_of (qs ++ q ∷ [])) ≡ coded b
    → c.metadata.serialize (record { count = length (qs ++ q ∷ []) }) ≡ coded header
    → engine.propose (batch_entry b header) s.downstream ≡ (ok rv, d)
    → flush c engine (qs ++ q ∷ []) s
      ≡ (ok tt, record s { downstream = d; answers = s.answers ++ send_all (qs ++ q ∷ []) (ok rv) })
flush-last c engine [] q = flushed c engine q []
flush-last c engine (p ∷ qs) q = flushed c engine p (qs ++ q ∷ [])

module _ {L A : Type 0} {log : Loglet L} (laws : LogletLaws log) (inner : Applicator A)
    (c : BatchCodecs) (fuel : ℕ) where
  -- The base engine whose applicator takes batches apart.
  abbrev pub batched_engine : Engine (BaseEngine L A)
  batched_engine = base_engine log (batching_applicator c inner) fuel

  abbrev pub transaction : BaseEngine L A → MemoryWriteTx × A
  transaction d = (record { working = d.local_store.contents; committed = false }, d.app)

  -- The engine once it has appended an entry and applied it with this result.
  abbrev pub moved_on : Entry → MemoryWriteTx × A → BaseEngine L A → BaseEngine L A
  moved_on e t d =
      with_machine log (batching_applicator c inner)
        (record d { loglet = (log.append e d.loglet).1 })
        (committed log (batching_applicator c inner) d.cursor t) (d.cursor + 1)

  proposed :
      (e : Entry) (d : BaseEngine L A) (rv : ReturnValue) (t : MemoryWriteTx × A)
      → 1 < fuel
      → d.local_store.poisoned ≡ false
      → laws.Valid d.loglet
      → laws.is_sealed d.loglet ≡ false
      → laws.tail d.loglet ≡ d.cursor
      → laws.horizon d.loglet ≤ d.cursor
      → d.cursor + 1 < 2 ^ 64
      → apply_batched inner c e d.cursor (transaction d) ≡ (ok rv, t)
      → batched_engine.propose e d ≡ (ok rv, moved_on e t d)
  proposed e d rv t enough fine valid opened at low room applied =
      let fits : laws.tail d.loglet + 1 < 2 ^ 64 = omega (arith, at, room) in
      let l = (log.append e d.loglet).1 in
      let appended : log.append e d.loglet ≡ (ok d.cursor, l) =
        ap (λ r. (r, l)) (laws.append_pos d.loglet e valid opened fits ∙ ap (λ p. ok p) at) in
      let shown : log.read d.cursor l ≡ ok (some e) =
        ap (λ p. log.read p l) (sym at)
        ∙ laws.read-append_self d.loglet e valid opened fits (omega (arith, at, low)) in
      ap
        (λ (o : Option (Result ReturnValue × BaseEngine L A)). elim o [
          | none ↦ (panic (text "still going round"), d)
          | some x ↦ x
        ])
        (handle_propose-replay log (batching_applicator c inner) e e [] fuel d.cursor l d rv
          (committed log (batching_applicator c inner) d.cursor t) enough fine appended
          (omega arith) room (shown, tt)
          (replay-applied log (batching_applicator c inner) e d.cursor success rv
            (machine_of log (batching_applicator c inner) d) t applied))

  -- A flush of waiting proposals over a base engine that has caught up with its log: they are one
  -- entry of the log, whose payloads are applied one after the other in one transaction, and every
  -- caller that waits for one of them is answered with the result of the last, also those whose own
  -- payload was given another result. (The log keeps the promises of the trait and is open at the
  -- engine's cursor, with nothing trimmed there; the payloads before the last are applied with
  -- success; what the codecs write they read back; the store's lock is not poisoned, the next
  -- position fits in a word, and the engine has two rounds.)
  pub group_commit_lem :
      RoundTrips c.payloads
      → RoundTrips c.metadata
      → (qs : List PendingPropose) (q : PendingPropose) (b header : Bytes)
        (s : Flusher (BaseEngine L A)) (rv' rv : ReturnValue) (s' t : MemoryWriteTx × A)
      → s.pending ≡ qs ++ q ∷ []
      → c.payloads.serialize (payloads_of (qs ++ q ∷ [])) ≡ coded b
      → c.metadata.serialize (record { count = length (qs ++ q ∷ []) }) ≡ coded header
      → 1 < fuel
      → s.downstream.local_store.poisoned ≡ false
      → laws.Valid s.downstream.loglet
      → laws.is_sealed s.downstream.loglet ≡ false
      → laws.tail s.downstream.loglet ≡ s.downstream.cursor
      → laws.horizon s.downstream.loglet ≤ s.downstream.cursor
      → s.downstream.cursor + 1 < 2 ^ 64
      → apply_payloads inner s.downstream.cursor success (payloads_of qs) (transaction s.downstream)
        ≡ (ok rv', s')
      → inner.apply (Core.new q.payload) s.downstream.cursor s' ≡ (ok rv, t)
      → flush_batch c batched_engine s ≡ (
        ok tt,
        record {
          pending = [];
          downstream = moved_on (batch_entry b header) t s.downstream;
          answers = s.answers ++ send_all (qs ++ q ∷ []) (ok rv);
        },
      )
  unfolding flush_batch
  group_commit_lem rp rm qs q b header s rv' rv s' t is sp sm enough fine valid opened at low room
        earlier last =
      let d = s.downstream in
      let all = qs ++ q ∷ [] in
      let run =
        ap (λ l. apply_payloads inner d.cursor success l (transaction d)) (payloads_of-append qs q)
        ∙ apply_payloads-last inner d.cursor (payloads_of qs) q.payload success rv' rv
            (transaction d) s' t earlier last in
      let counted : c.metadata.serialize (record { count = length (payloads_of all) })
          ≡ coded header =
        ap (λ n. c.metadata.serialize (record { count = n })) (length-payloads_of all) ∙ sm in
      let applied =
        (apply_batched_lem inner c rp rm (payloads_of all) b header d.cursor (transaction d) sp
          counted).0
        ∙ run in
      rw is (
        flush-last c batched_engine qs q b header (record s { pending = [] }) rv
          (moved_on (batch_entry b header) t d) sp sm
          (proposed (batch_entry b header) d rv t enough fine valid opened at low room applied))
