-- ===== src/Log/VirtualLog/Race.antt =====
-- A virtual log that has lost the race for a new segment to another client.
use relos.Prelude.{
  ◌≡◌, ◌≢◌, refl, ap, sym, ◌∙◌, false, none, some, List, [], ◌∷◌, All, ◌==◌, Option-cases, inl, inr,
  arith,
}
use relos.Prelude.Bytes.{Text}
use relos.Prelude.Dict.{Dict, lookup, insert, lookup-insert_self, lookup-insert_ne}
use relos.Core.{LogPos, Result, ok}
use relos.Log.Loglet.{Loglet}
use relos.Log.Chain.{ChainSegment}
use relos.Log.MetaStore
use relos.Log.VirtualLog.{VirtualLog, create_missing, sync_chain, install}

module _ {L : Type 0} (ops : Loglet L) (factory : Text → Result L) where
  -- Every one of these segments has a loglet, and the loglets of before are what they were.
  pub record HasLoglets (ss : List ChainSegment) (m m' : Dict L) : Type 0 where
    pub kept : (id : Text) (l : L) → lookup id m ≡ some l → lookup id m' ≡ some l
    pub found : All (λ s. (l : L) × (lookup s.loglet_id m' ≡ some l)) ss

  kept_insert :
      (id new_id : Text) (l new_l : L) (m : Dict L)
      → lookup new_id m ≡ none
      → lookup id m ≡ some l
      → lookup id (insert new_id new_l m) ≡ some l
  kept_insert id new_id l new_l m free there =
      let other : id ≢ new_id = λ e. clash (sym (ap (λ i. lookup i m) e ∙ free) ∙ there) in
      lookup-insert_ne new_id id new_l m other ∙ there
    where
      clash : none ≡ some l → ⊥
      clash e = cc

  abbrev Filled : List ChainSegment → VirtualLog L → Type 0
  Filled ss v =
      (m : Dict L) × (create_missing ops factory ss v ≡ (ok tt, record v { loglets = m }))
      × HasLoglets ss v.loglets m

  create_missing-Filled :
      ((id : Text) → (l : L) × (factory id ≡ ok l))
      → (ss : List ChainSegment) (v : VirtualLog L) → Filled ss v
  unfolding create_missing
  create_missing-Filled total [] v = (v.loglets, refl, record { kept = λ id l h. h; found = tt })
  create_missing-Filled total (s ∷ ss) v = elim (Option-cases (lookup s.loglet_id v.loglets)) [
    | inr (l, there) ↦
        let (m, is, has) = create_missing-Filled total ss v in
        (
          m,
          rw (create_missing, there) is,
          record { kept = has.kept; found = ((l, has.kept s.loglet_id l there), has.found) },
        )
    | inl free ↦
        let (l, made) = total s.loglet_id in
        let v₁ = record v { loglets = insert s.loglet_id l v.loglets } in
        let (m, is, has) = create_missing-Filled total ss v₁ in
        (
          m,
          rw (create_missing, free) (rw made is),
          record {
            kept = λ id x h. has.kept id x (kept_insert id s.loglet_id x l v.loglets free h);
            found = (
              (l, has.kept s.loglet_id l (lookup-insert_self s.loglet_id l v.loglets)),
              has.found,
            );
          },
        )
  ]

  -- When the register holds another version than the one that a virtual log knows, installing a new
  -- segment leaves the register as it is; the virtual log returns without an error, with the chain
  -- and the version of the register, a loglet for every segment of that chain, and all loglets that
  -- it had before. (The factory does not fail.)
  pub lost_race_lem :
      ((id : Text) → (l : L) × (factory id ≡ ok l))
      → (v : VirtualLog L) (p : LogPos) → v.meta_store.version ≢ v.chain_version
      → (m : Dict L) × (install ops factory p v ≡ (
        ok tt,
        record v { chain = v.meta_store.chain; chain_version = v.meta_store.version; loglets = m },
      ))
        × HasLoglets v.meta_store.chain.segments v.loglets m
  unfolding install sync_chain MetaStore.write MetaStore.read
  lost_race_lem total v p ne =
      let (m, is, has) = create_missing-Filled total v.meta_store.chain.segments v in
      let stale : (v.meta_store.version == v.chain_version) ≡ false = ground (arith, ne) in
      (m, rw stale (rw is refl), has)
