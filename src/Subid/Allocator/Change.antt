-- ===== src/Subid/Allocator/Change.antt =====
-- The changes that the allocator makes to the ledger: the lifecycle of a lease.
use shbox.Prelude.{
  ◌≡◌, ◌≢◌, refl, sym, subst, ◌∙◌, ◌⊎◌, inl, inr, List, Option, some, none, arith, All, All-map,
  Bool-cases,
}
use shbox.Prelude.Bytes.{Bytes, bytes_eq, bytes_eq_iff}
use shbox.Subid.Ledger.{
  LeaseRecord, reserved, active, releasing, quarantined, with_state, with_quarantine_reason,
}
use shbox.Subid.Ledger.Records.{
  find, put, drop_id, Unique, Fits, put-Unique, drop_id-Unique, find-Fits, find-put, find-drop_id,
}

-- A new lease shares no sandbox, UID or GID with a lease on record.
pub record IsFresh (r x : LeaseRecord) : Type 0 where
  pub sandbox_ne : r.sandbox_id ≢ x.sandbox_id
  pub uid_ne : r.uid ≢ x.uid
  pub gid_ne : r.gid ≢ x.gid

-- The transitions of a lease record.
pub data Move (r : LeaseRecord) : LeaseRecord → Type 0 where
  activates : r.state ≡ reserved → Move r (with_state r active)
  releases : (r.state ≡ active) ⊎ (r.state ≡ reserved) → Move r (with_state r releasing)
  quarantines : (reason : Bytes) → Move r (with_quarantine_reason r reason)

-- One step of the ledger: nothing, a publication under a new lease ID, a transition, or a removal of
-- a lease that is being released or was never published.
pub data Change (rs : List LeaseRecord) : List LeaseRecord → Type 0 where
  keeps : Change rs rs
  publishes :
      (r : LeaseRecord)
      → r.state ≡ active
      → find r.lease_id rs ≡ none
      → All (IsFresh r) rs
      → Change rs (put r rs)
  moves : (r r' : LeaseRecord) → find r.lease_id rs ≡ some r → Move r r' → Change rs (put r' rs)
  frees :
      (r : LeaseRecord)
      → find r.lease_id rs ≡ some r
      → (r.state ≡ releasing) ⊎ (r.state ≡ reserved)
      → Change rs (drop_id r.lease_id rs)

-- A transition leaves the incarnation, its owner and its IDs as they are.
pub record SameIds (a b : LeaseRecord) : Type 0 where
  pub lease_id : b.lease_id ≡ a.lease_id
  pub sandbox_id : b.sandbox_id ≡ a.sandbox_id
  pub owner : b.owner ≡ a.owner
  pub uid : b.uid ≡ a.uid
  pub gid : b.gid ≡ a.gid

pub Move-SameIds : {r r' : LeaseRecord} → Move r r' → SameIds r r'
unfolding with_state with_quarantine_reason
Move-SameIds (activates s) = record {
  lease_id = refl;
  sandbox_id = refl;
  owner = refl;
  uid = refl;
  gid = refl;
}
Move-SameIds (releases s) = record {
  lease_id = refl;
  sandbox_id = refl;
  owner = refl;
  uid = refl;
  gid = refl;
}
Move-SameIds (quarantines reason) = record {
  lease_id = refl;
  sandbox_id = refl;
  owner = refl;
  uid = refl;
  gid = refl;
}

-- Every step keeps the UIDs, GIDs, sandboxes and lease IDs unique.
pub Change-Unique : {rs rs' : List LeaseRecord} → Change rs rs' → Unique rs → Unique rs'
Change-Unique keeps u = u
Change-Unique {rs} (publishes r is_active new fresh) u =
    put-Unique r rs
      (All-map {P = IsFresh r} {Q = Fits r}
        (λ x f ne. record {
          lease_ne = λ e. ne (sym e);
          sandbox_ne = f.sandbox_ne;
          uid_ne = f.uid_ne;
          gid_ne = f.gid_ne;
        })
        rs fresh)
      u
Change-Unique {rs} (moves r r' e m) u =
    let ids = Move-SameIds m in
    put-Unique r' rs
      (All-map {P = Fits r} {Q = Fits r'}
        (λ x f ne.
          let d = f (λ e'. ne (rw ids.lease_id e')) in
          record {
            lease_ne = λ e'. ne (sym e');
            sandbox_ne = rw ids.sandbox_id d.sandbox_ne;
            uid_ne = rw ids.uid d.uid_ne;
            gid_ne = rw ids.gid d.gid_ne;
          })
        rs (find-Fits r.lease_id rs r u e))
      u
Change-Unique {rs} (frees r e s) u = drop_id-Unique r.lease_id rs u

-- The life of one lease ID, as the specification sees it: absent, or a record.
pub data LifeStep : Option LeaseRecord → Option LeaseRecord → Type 0 where
  stays : {o : Option LeaseRecord} → LifeStep o o
  begins : (r : LeaseRecord) → r.state ≡ active → LifeStep none (some r)
  transits : {r r' : LeaseRecord} → Move r r' → LifeStep (some r) (some r')
  ends : {r : LeaseRecord} → (r.state ≡ releasing) ⊎ (r.state ≡ reserved) → LifeStep (some r) none

-- A step of the ledger is one step in the life of each lease ID.
pub Change-LifeStep :
    {rs rs' : List LeaseRecord} → Change rs rs' → (id : Bytes) → LifeStep (find id rs) (find id rs')
Change-LifeStep keeps id = stays
Change-LifeStep {rs} (publishes r is_active new fresh) id =
    elim (Bool-cases (bytes_eq r.lease_id id)) [
      | inl same ↦
          let e = (bytes_eq_iff r.lease_id id).0 same in
          rw (find-put r id rs, same, ← e, new) (begins r is_active)
      | inr other ↦ rw (find-put r id rs, other) stays
    ]
Change-LifeStep {rs} (moves r r' found m) id =
    let ids = Move-SameIds m in
    elim (Bool-cases (bytes_eq r'.lease_id id)) [
      | inl same ↦
          let e = (bytes_eq_iff r'.lease_id id).0 same in
          let found_here : find id rs ≡ some r =
            subst (λ k. find k rs ≡ some r) (sym ids.lease_id ∙ e) found in
          rw (find-put r' id rs, same, found_here) (transits m)
      | inr other ↦ rw (find-put r' id rs, other) stays
    ]
Change-LifeStep {rs} (frees r found s) id = elim (Bool-cases (bytes_eq r.lease_id id)) [
  | inl same ↦
      let e = (bytes_eq_iff r.lease_id id).0 same in
      rw (find-drop_id r.lease_id id rs, same, ← e, found) (ends s)
  | inr other ↦ rw (find-drop_id r.lease_id id rs, other) stays
]

-- A lease that is on file as quarantined, with these IDs.
pub record IsQuarantined (r : LeaseRecord) (o : Option LeaseRecord) : Type 0 where
  pub now : LeaseRecord
  pub on_file : o ≡ some now
  pub in_quarantine : now.state ≡ quarantined
  pub ids : SameIds r now

pub SameIds-trans : {a b c : LeaseRecord} → SameIds a b → SameIds b c → SameIds a c
SameIds-trans p q = ground (arith, p, q)

Move-quarantined : {r r' : LeaseRecord} → Move r r' → r.state ≡ quarantined → r'.state ≡ quarantined
unfolding with_state with_quarantine_reason
Move-quarantined (activates s) q = ground arith
Move-quarantined (releases s) q = ground arith
Move-quarantined (quarantines reason) q = refl

-- Quarantine is final: no step of the ledger frees or reactivates a quarantined lease.
pub LifeStep-IsQuarantined :
    {r : LeaseRecord} {o o' : Option LeaseRecord}
    → LifeStep o o'
    → IsQuarantined r o
    → IsQuarantined r o'
LifeStep-IsQuarantined stays q = q
LifeStep-IsQuarantined (begins r a) q = cc (q.on_file)
LifeStep-IsQuarantined (transits {r = x} {r' = x'} m) q =
    let is_now : x ≡ q.now = ground (arith, q.on_file) in
    record {
      now = x';
      on_file = refl;
      in_quarantine = Move-quarantined m (rw is_now q.in_quarantine);
      ids = SameIds-trans (subst (SameIds _) (sym is_now) q.ids) (Move-SameIds m);
    }
LifeStep-IsQuarantined (ends s) q = ground (arith, q.on_file, q.in_quarantine)
