-- ===== src/Engine/ViewTracking/Trimming.antt =====
-- The views, and what the trim prefix says about them.
use relos.Prelude.{
  ◌≤◌, ◌≡◌, refl, ◌∙◌, false, none, some, List, [], ◌∷◌, arith, ◌==◌, Option-cases, inl, inr,
  if◌then◌else◌,
}
use relos.Prelude.Bytes.{Bytes, bytes_eq_refl}
use relos.Core.{
  Entry, LogPos, ServerId, coded, Codec, RoundTrips, with_header, get_header,
  get_header-with_header,
}
use relos.Store.Memory.{MemoryWriteTx}
use relos.Engine.Interface.{Applicator}
use relos.Engine.ViewTracking.{
  ViewTrackingMetadata, Views, view_of, set_view, least, trim_prefix, view_tracking_header,
  record_view, apply,
}

view_of-set_view :
    (i j : ServerId) (p : LogPos) (m : List (ServerId × LogPos))
    → view_of j (set_view i p m) ≡ (if i == j then some p else view_of j m)
unfolding view_of set_view
view_of-set_view i j p [] = refl
view_of-set_view i j p (e ∷ m) = ground (arith, view_of-set_view i j p m)

least-none : (m : List (ServerId × LogPos)) (i : ServerId) → least m ≡ none → view_of i m ≡ none
unfolding least view_of
least-none [] i h = refl
least-none (e ∷ m) i h = cc

least-le :
    (m : List (ServerId × LogPos)) (p : LogPos) (i : ServerId) (q : LogPos)
    → least m ≡ some p
    → view_of i m ≡ some q
    → p ≤ q
unfolding least view_of
least-le [] p i q h found = cc
least-le (e ∷ m) p i q h found = elim (Option-cases (least m)) [
  | inl missing ↦
      let none_there = least-none m i missing in
      let h' = simp missing at h in ground (arith, none_there, h', found)
  | inr (r, there) ↦
      let le = least-le m r i q there in let h' = simp there at h in ground (arith, le, h', found)
]

-- The trim prefix is not above the view of any server.
pub trim_prefix-least :
    (v : Views) (p : LogPos) (i : ServerId) (q : LogPos)
    → trim_prefix v ≡ some p
    → view_of i v.positions ≡ some q
    → p ≤ q
unfolding trim_prefix
trim_prefix-least v p i q h found = least-le v.positions p i q h found

-- An entry that the engine of a server sent, applied while the lock of the view map is free, sets
-- the view of that server to the position of the entry, whatever cursor the server put in the
-- header, keeps the other views, and is handed to the inner applicator as it is. (The codec reads back what
-- it writes.)
pub apply_lem :
    {A : Type 0} (c : Codec ViewTrackingMetadata) (inner : Applicator A)
    → RoundTrips c
    → (e : Entry) (metadata : ViewTrackingMetadata) (header : Bytes) (pos : LogPos)
      (t : MemoryWriteTx) (v : Views) (a : A)
    → c.serialize metadata ≡ coded header
    → v.locked ≡ false
    → let sent = with_header e view_tracking_header header in
      let after = apply c inner sent pos (t, (v, a)) in
      (after.0 ≡ (inner.apply sent pos (t, a)).0)
      × (after.1.0 ≡ (inner.apply sent pos (t, a)).1.0)
      × (after.1.1.1 ≡ (inner.apply sent pos (t, a)).1.1)
      × ((j : ServerId)
          → view_of j after.1.1.0.positions
            ≡ (if metadata.server_id == j then some pos else view_of j v.positions))
unfolding apply record_view
apply_lem c inner round e metadata header pos t v a ser free =
    let found : get_header (with_header e view_tracking_header header) view_tracking_header
        ≡ some header =
      get_header-with_header e view_tracking_header view_tracking_header header
      ∙ rw (bytes_eq_refl view_tracking_header) refl in
    rw found (
      rw (round metadata header ser)
        (rw free (refl, refl, refl, λ j. view_of-set_view metadata.server_id j pos v.positions)))
