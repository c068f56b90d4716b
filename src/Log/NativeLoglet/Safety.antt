-- ===== src/Log/NativeLoglet/Safety.antt =====
-- The safety of the native loglet under any interleaving of its tasks.
use relos.Prelude.{ℕ, ◌≡◌, some, arith, ◌==◌, Bool-cases, inl, inr}
use relos.Core.{LogPos, Entry}
use relos.Log.NativeLoglet.{LogServerRequest, entry_at}
use relos.Log.NativeLoglet.WriteOnce.{Kept, serve-Kept}
use relos.Log.NativeLoglet.Cluster.{
  Cluster, start, served, Step, next_pos, seal_sequencer, store, seal, trim, Reach, here, next,
}
use relos.Log.NativeLoglet.Agreement.{IsFaithful, Reach-IsFaithful, Step-IsFaithful, noted-sent}

-- In every state that the tasks can reach, two log servers that hold something at one position
-- hold the same entry, and it is the one whose append was assigned that position.
pub servers_agree :
    (s : Cluster) (i j : ℕ) (p : LogPos) (e x : Entry)
    → Reach start s
    → entry_at p (s.servers i).entries ≡ some e
    → entry_at p (s.servers j).entries ≡ some x
    → (e ≡ x) × (s.sent p ≡ some e)
servers_agree s i j p e x r here_e here_x =
    let f = Reach-IsFaithful r in
    let sent_e = f.holds_sent i p e here_e in let sent_x = f.holds_sent j p x here_x in (cc, sent_e)

Step-sent :
    {s t : Cluster} (p : LogPos) (e : Entry)
    → Step s t
    → IsFaithful s
    → s.sent p ≡ some e
    → t.sent p ≡ some e
Step-sent {s} p e (next_pos x b is) f h = rw is (noted-sent x s p e b f h)
Step-sent p e (seal_sequencer is) f h = rw is h
Step-sent p e (store i q x sent is) f h = rw is h
Step-sent p e (seal i is) f h = rw is h
Step-sent p e (trim i q is) f h = rw is h

served-Kept :
    (i j : ℕ) (q : LogServerRequest) (p : LogPos) (e : Entry) (s : Cluster)
    → Kept p e (s.servers j)
    → Kept p e ((served i q s).servers j)
served-Kept i j q p e s h = elim (Bool-cases (i == j)) [
  | inl same ↦ let at : i ≡ j = ground arith in rw same (serve-Kept q p e (s.servers i) (rw at h))
  | inr other ↦ rw other h
]

Step-Kept :
    {s t : Cluster} (j : ℕ) (p : LogPos) (e : Entry)
    → Step s t
    → Kept p e (s.servers j)
    → Kept p e (t.servers j)
Step-Kept j p e (next_pos x b is) h = rw is h
Step-Kept j p e (seal_sequencer is) h = rw is h
Step-Kept {s} j p e (store i q x sent is) h = rw is (served-Kept i j _ p e s h)
Step-Kept {s} j p e (seal i is) h = rw is (served-Kept i j _ p e s h)
Step-Kept {s} j p e (trim i q is) h = rw is (served-Kept i j _ p e s h)

-- What is true of a position for ever, once its entry was acknowledged by a server.
pub record Acknowledged (j : ℕ) (p : LogPos) (e : Entry) (s : Cluster) : Type 0 where
  pub faithful : IsFaithful s
  pub sent : s.sent p ≡ some e
  pub kept : Kept p e (s.servers j)

pub Reach-Acknowledged :
    {s t : Cluster} (j : ℕ) (p : LogPos) (e : Entry)
    → Reach s t
    → Acknowledged j p e s
    → Acknowledged j p e t
Reach-Acknowledged j p e here a = a
Reach-Acknowledged j p e (next r st) a =
    let b = Reach-Acknowledged j p e r a in
    record {
      faithful = Step-IsFaithful st b.faithful;
      sent = Step-sent p e st b.faithful b.sent;
      kept = Step-Kept j p e st b.kept;
    }
