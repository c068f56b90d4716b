-- ===== src/Log/Chain/Extension.antt =====
-- `extend`: the chain stays well formed, and no position below the seal is routed anew.
use relos.Prelude.{
  ◌≤◌, ◌≡◌, refl, Option, none, some, List, [], ◌∷◌, ◌++◌, arith, ltb, last?-append, if◌then◌else◌,
}
use relos.Prelude.Bytes.{Text}
use relos.Core.{LogPos, log_pos_begin}
use relos.Log.Chain.{
  ChainSegment, LogChain, find_in, find_segment, active_segment, extend, seal_last, open_segment,
}
use relos.Log.Chain.Routing.{EndToEnd, IsWellFormed}

-- Where the last segment begins.
abbrev pub last_start : List ChainSegment → LogPos
last_start [] = 0
last_start (s ∷ []) = s.start_pos
last_start (s ∷ t ∷ ss) = last_start (t ∷ ss)

-- The loglet and the segment start to which a position is routed.
abbrev pub target : Option ChainSegment → Option (Text × LogPos)
target none = none
target (some s) = some (s.loglet_id, s.start_pos)

extend-EndToEnd :
    (start p : LogPos) (id : Text) (ss : List ChainSegment)
    → EndToEnd start ss
    → last_start ss ≤ p
    → EndToEnd start (seal_last p ss ++ open_segment p id ∷ [])
unfolding seal_last
extend-EndToEnd start p id [] h le = absurd h
extend-EndToEnd start p id (s ∷ []) h le =
    (ground arith, (p, ground arith, omega arith, (refl, refl)))
extend-EndToEnd start p id (s ∷ t ∷ []) h le =
    (h.0, (h.1.0, h.1.1, h.1.2, extend-EndToEnd h.1.0 p id (t ∷ []) h.1.3 le))
extend-EndToEnd start p id (s ∷ t ∷ u ∷ ss) h le =
    (h.0, (h.1.0, h.1.1, h.1.2, extend-EndToEnd h.1.0 p id (t ∷ u ∷ ss) h.1.3 le))

pub start-le-last_start :
    (start : LogPos) (ss : List ChainSegment) → EndToEnd start ss → start ≤ last_start ss
start-le-last_start start [] h = absurd h
start-le-last_start start (s ∷ []) h = omega arith
start-le-last_start start (s ∷ t ∷ ss) h = omega (arith, start-le-last_start h.1.0 (t ∷ ss) h.1.3)

pub target-find_in-extend :
    (start p q : LogPos) (id : Text) (ss : List ChainSegment)
    → EndToEnd start ss
    → last_start ss ≤ p
    → target (find_in (seal_last p ss ++ open_segment p id ∷ []) q)
      ≡ (if ltb q p then target (find_in ss q) else some (id, p))
unfolding seal_last find_in
target-find_in-extend start p q id [] h le = absurd h
target-find_in-extend start p q id (s ∷ []) h le = ground arith
target-find_in-extend start p q id (s ∷ t ∷ ss) h le = ground (
  arith,
  target-find_in-extend h.1.0 p q id (t ∷ ss) h.1.3 le,
  start-le-last_start h.1.0 (t ∷ ss) h.1.3,
)

-- Sealing a well-formed chain at a position not before its last segment's start gives a
-- well-formed chain whose active segment is the new one, at that position.
pub extend-IsWellFormed :
    (c : LogChain) (p : LogPos) (id : Text)
    → IsWellFormed c
    → last_start c.segments ≤ p
    → IsWellFormed (extend c p id) × (active_segment (extend c p id) ≡ some (open_segment p id))
unfolding extend active_segment
extend-IsWellFormed c p id h le = (
  extend-EndToEnd log_pos_begin p id c.segments h le,
  rw (last?-append (seal_last p c.segments) (open_segment p id)),
)

-- After `extend` of a well-formed chain, sealed at a position not before its last segment's start,
-- the positions below the seal are routed as before, to the same loglet at the same offset, and
-- all others go to the new loglet.
pub find_segment-extend :
    (c : LogChain) (p q : LogPos) (id : Text)
    → IsWellFormed c
    → last_start c.segments ≤ p
    → target (find_segment (extend c p id) q)
      ≡ (if ltb q p then target (find_segment c q) else some (id, p))
unfolding extend find_segment
find_segment-extend c p q id h le = target-find_in-extend log_pos_begin p q id c.segments h le
