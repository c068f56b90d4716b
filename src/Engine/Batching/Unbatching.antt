-- ===== src/Engine/Batching/Unbatching.antt =====
-- What was batched is applied one by one.
use relos.Prelude.{◌≡◌, refl, ◌∙◌, true, none, some, List, length, arith, ◌==◌}
use relos.Prelude.Bytes.{Bytes, bytes_eq_refl}
use relos.Core
use relos.Core.{
  LogPos, Result, ok, Coded, coded, RoundTrips, with_header, get_header, get_header-with_header,
  or_serialization_error, Entry, payload-with_header,
}
use relos.Store.Memory.{MemoryWriteTx}
use relos.Engine.Interface.{success, Applicator}
use relos.Engine.Batching.{BatchCodecs, batching_header, apply_payloads, apply_batched}

-- The entry that a flush proposes for these payloads is applied as the payloads one after the
-- other, in one transaction and at one position: each as an entry of its own, up to the first that
-- fails, and the result is that of the last. An entry without the header is applied as it is. (What
-- the codecs write they read back.)
pub apply_batched_lem :
    {A : Type 0} (inner : Applicator A) (c : BatchCodecs)
    → RoundTrips c.payloads
    → RoundTrips c.metadata
    → (payloads : List Bytes) (b header : Bytes) (pos : LogPos) (s : MemoryWriteTx × A)
    → c.payloads.serialize payloads ≡ coded b
    → c.metadata.serialize (record { count = length payloads }) ≡ coded header
    → (apply_batched inner c (with_header (Core.new b) batching_header header) pos s
        ≡ apply_payloads inner pos success payloads s)
      × ((e : Entry)
          → get_header e batching_header ≡ none
          → apply_batched inner c e pos s ≡ inner.apply e pos s)
unfolding apply_batched
apply_batched_lem inner c round_p round_m payloads b header pos s sp sm = (
  let found : get_header (with_header (Core.new b) batching_header header) batching_header
          ≡ some header =
        get_header-with_header (Core.new b) batching_header batching_header header
        ∙ rw (bytes_eq_refl batching_header) refl in
      let counted : (length payloads == length payloads) ≡ true = ground arith in
      rw found (
        rw (round_m (record { count = length payloads }) header sm) (
          let same : c.payloads.deserialize
                (with_header (Core.new b) batching_header header).payload
              ≡ coded payloads =
            rw (payload-with_header (Core.new b) batching_header header) (round_p payloads b sp) in
          rw same (rw counted refl))),
  λ e missing. rw missing refl,
)
