-- ===== src/Log/VirtualLog/Backing.antt =====
-- The invariant of the virtual log: the segments lie end to end, each backed by a loglet of its
-- own; the closed ones are sealed at their end.
use relos.Prelude.{
  ◌+◌, ◌<◌, ◌≤◌, ◌^◌, ◌≡◌, ◌≢◌, refl, sym, ◌∙◌, true, none, some, List, [], ◌∷◌, ◌++◌, All, arith,
  last?, if◌then◌else◌,
}
use relos.Prelude.Bytes.{Text}
use relos.Prelude.Dict.{Dict, lookup, insert, lookup-insert_self, lookup-insert_ne}
use relos.Core.{LogPos}
use relos.Log.Loglet.{Loglet, LogletLaws}
use relos.Log.Chain.{ChainSegment, open_segment, seal_last, is_open}
use relos.Log.Chain.Routing.{EndToEnd}
use relos.Log.Chain.Extension.{last_start}

-- The loglet of the last segment.
abbrev pub last_id : List ChainSegment → Text
last_id [] = []
last_id (s ∷ []) = s.loglet_id
last_id (s ∷ t ∷ ss) = last_id (t ∷ ss)

-- No segment is backed by this loglet.
abbrev pub Absent : Text → List ChainSegment → Type 0
Absent id = All (λ s. s.loglet_id ≢ id)

module _ {L : Type 0} {ops : Loglet L} (laws : LogletLaws ops) where
  open laws use {Valid, tail, horizon, is_sealed}

  -- A segment's loglet, valid and with all its positions within a word.
  pub record Backs (m : Dict L) (s : ChainSegment) (l : L) : Type 0 where
    pub found : lookup s.loglet_id m ≡ some l
    pub valid : Valid l
    pub bound : s.start_pos + tail l < 2 ^ 64

  abbrev pub Backed : LogPos → List ChainSegment → Dict L → Type 0
  Backed start [] m = ⊥
  Backed start (s ∷ []) m =
      (s.start_pos ≡ start) × (s.end_pos ≡ none) × ((l : L) × Backs m s l × (horizon l ≤ tail l))
  Backed start (s ∷ t ∷ ss) m =
      (s.start_pos ≡ start)
      × ((e : LogPos) × (s.end_pos ≡ some e)
          × ((l : L) × Backs m s l × (is_sealed l ≡ true) × (start + tail l ≡ e + 1))
          × Absent s.loglet_id (t ∷ ss)
          × Backed e (t ∷ ss) m)

  -- The last segment and its loglet.
  pub record Active (ss : List ChainSegment) (m : Dict L) : Type 0 where
    pub seg : ChainSegment
    pub loglet : L
    pub last : last? ss ≡ some seg
    pub opened : seg.end_pos ≡ none
    pub start : seg.start_pos ≡ last_start ss
    pub id : seg.loglet_id ≡ last_id ss
    pub backs : Backs m seg loglet
    pub readable : horizon loglet ≤ tail loglet

  unfoldable pub active_of :
      (start : LogPos) (ss : List ChainSegment) (m : Dict L) → Backed start ss m → Active ss m
  active_of start [] m h = absurd h
  active_of start (s ∷ []) m h = record {
    seg = s;
    loglet = h.2.0;
    last = refl;
    opened = h.1;
    start = refl;
    id = refl;
    backs = h.2.1;
    readable = h.2.2;
  }
  active_of start (s ∷ t ∷ ss) m h =
      let a = active_of h.1.0 (t ∷ ss) m h.1.4 in
      record {
        seg = a.seg;
        loglet = a.loglet;
        last = a.last;
        opened = a.opened;
        start = a.start;
        id = a.id;
        backs = a.backs;
        readable = a.readable;
      }

  pub Backed-EndToEnd :
      (start : LogPos) (ss : List ChainSegment) (m : Dict L) → Backed start ss m → EndToEnd start ss
  Backed-EndToEnd start [] m h = h
  Backed-EndToEnd start (s ∷ []) m h = (h.0, h.1)
  Backed-EndToEnd start (s ∷ t ∷ ss) m h = (
    h.0,
    (
      h.1.0,
      h.1.1,
      omega (arith, h.1.2.3, laws.tail_pos h.1.2.0 h.1.2.1.valid),
      Backed-EndToEnd h.1.0 (t ∷ ss) m h.1.4,
    ),
  )

  pub Absent-last_id :
      (id : Text) (s : ChainSegment) (ss : List ChainSegment)
      → Absent id (s ∷ ss)
      → id ≢ last_id (s ∷ ss)
  Absent-last_id id s [] h = λ e. h.0 (sym e)
  Absent-last_id id s (t ∷ ss) h = Absent-last_id id t ss h.1

  Backs-insert :
      (m : Dict L) (s : ChainSegment) (l l' : L) (id : Text)
      → Backs m s l
      → s.loglet_id ≢ id
      → Backs (insert id l' m) s l
  Backs-insert m s l l' id b ne = record {
    found = lookup-insert_ne id s.loglet_id l' m ne ∙ b.found;
    valid = b.valid;
    bound = b.bound;
  }

  -- The loglet of the last segment may be replaced.
  pub Backed-insert_last :
      (start : LogPos) (ss : List ChainSegment) (m : Dict L) (l' : L)
      → Backed start ss m
      → Valid l'
      → last_start ss + tail l' < 2 ^ 64
      → horizon l' ≤ tail l'
      → Backed start ss (insert (last_id ss) l' m)
  Backed-insert_last start [] m l' h v b r = absurd h
  Backed-insert_last start (s ∷ []) m l' h v b r = (
    h.0,
    h.1,
    (l', record { found = lookup-insert_self s.loglet_id l' m; valid = v; bound = b }, r),
  )
  Backed-insert_last start (s ∷ t ∷ ss) m l' h v b r = (
    h.0,
    (
      h.1.0,
      h.1.1,
      (
        h.1.2.0,
        Backs-insert m s h.1.2.0 l' (last_id (t ∷ ss)) h.1.2.1
            (Absent-last_id s.loglet_id t ss h.1.3),
        h.1.2.2,
        h.1.2.3,
      ),
      h.1.3,
      Backed-insert_last h.1.0 (t ∷ ss) m l' h.1.4 v b r,
    ),
  )

  sealed_id :
      (p : LogPos) (s : ChainSegment)
      → (if is_open s then record s { end_pos = some p } else s).loglet_id ≡ s.loglet_id
  sealed_id p s = ground arith

  seal_last_one :
      (p : LogPos) (s : ChainSegment)
      → s.end_pos ≡ none
      → seal_last p (s ∷ []) ≡ record s { end_pos = some p } ∷ []
  unfolding seal_last
  seal_last_one p s h = ground arith

  pub Absent-seal_last :
      (id : Text) (p : LogPos) (new_id : Text) (ss : List ChainSegment)
      → Absent id ss
      → id ≢ new_id
      → Absent id (seal_last p ss ++ open_segment p new_id ∷ [])
  unfolding seal_last
  Absent-seal_last id p new_id [] h ne = ((λ e. ne (sym e)), tt)
  Absent-seal_last id p new_id (s ∷ []) h ne =
      ((λ e. h.0 (sym (sealed_id p s) ∙ e)), ((λ e. ne (sym e)), tt))
  Absent-seal_last id p new_id (s ∷ t ∷ ss) h ne =
      (h.0, Absent-seal_last id p new_id (t ∷ ss) h.1 ne)

  -- Once the last loglet is sealed, a new segment may follow it, backed by a new loglet.
  Backed-extend_one :
      (start p : LogPos) (new_id : Text) (s : ChainSegment) (m : Dict L) (l' : L)
      (h : Backed start (s ∷ []) m)
      → s.loglet_id ≢ new_id
      → is_sealed h.2.0 ≡ true
      → s.start_pos + tail h.2.0 ≡ p + 1
      → Valid l'
      → p + tail l' < 2 ^ 64
      → horizon l' ≤ tail l'
      → Backed start (seal_last p (s ∷ []) ++ open_segment p new_id ∷ []) (insert new_id l' m)
  Backed-extend_one start p new_id s m l' h ne c at v b r = rw (seal_last_one p s h.1) (
    h.0,
    (
      p,
      refl,
      (
        h.2.0,
        record {
          found = lookup-insert_ne new_id s.loglet_id l' m ne ∙ h.2.1.found;
          valid = h.2.1.valid;
          bound = h.2.1.bound;
        },
        c,
        omega (arith, h.0),
      ),
      ((λ e. ne (sym e)), tt),
      (
        refl,
        refl,
        (l', record { found = lookup-insert_self new_id l' m; valid = v; bound = b }, r),
      ),
    ),
  )

  pub Backed-extend :
      (start p : LogPos) (new_id : Text) (ss : List ChainSegment) (m : Dict L) (l' : L)
      (h : Backed start ss m)
      → Absent new_id ss
      → is_sealed (active_of start ss m h).loglet ≡ true
      → last_start ss + tail (active_of start ss m h).loglet ≡ p + 1
      → Valid l'
      → p + tail l' < 2 ^ 64
      → horizon l' ≤ tail l'
      → Backed start (seal_last p ss ++ open_segment p new_id ∷ []) (insert new_id l' m)
  unfolding seal_last active_of
  Backed-extend start p new_id [] m l' h ab c at v b r = absurd h
  Backed-extend start p new_id (s ∷ []) m l' h ab c at v b r =
      Backed-extend_one start p new_id s m l' h ab.0 c at v b r
  Backed-extend start p new_id (s ∷ t ∷ []) m l' h ab c at v b r = (
    h.0,
    (
      h.1.0,
      h.1.1,
      (h.1.2.0, Backs-insert m s h.1.2.0 l' new_id h.1.2.1 ab.0, h.1.2.2, h.1.2.3),
      Absent-seal_last s.loglet_id p new_id (t ∷ []) h.1.3 ab.0,
      Backed-extend h.1.0 p new_id (t ∷ []) m l' h.1.4 ab.1 c at v b r,
    ),
  )
  Backed-extend start p new_id (s ∷ t ∷ u ∷ ss) m l' h ab c at v b r = (
    h.0,
    (
      h.1.0,
      h.1.1,
      (h.1.2.0, Backs-insert m s h.1.2.0 l' new_id h.1.2.1 ab.0, h.1.2.2, h.1.2.3),
      Absent-seal_last s.loglet_id p new_id (t ∷ u ∷ ss) h.1.3 ab.0,
      Backed-extend h.1.0 p new_id (t ∷ u ∷ ss) m l' h.1.4 ab.1 c at v b r,
    ),
  )
