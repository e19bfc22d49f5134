-- ===== src/Subid/Allocator/Claim.antt =====
-- A triple for `load` and for `claim`.
use shbox.Prelude.{
  ℕ, ◌≤◌, ◌≡◌, ◌≢◌, refl, sym, subst, true, not, List, [], ◌∷◌, none, some, arith, any, All,
}
use shbox.Prelude.Bytes.{Bytes, bytes_eq, bytes_eq_iff}
use shbox.Prelude.Dict.{add, insert}
use shbox.Subid.Delegation.{Delegation}
use shbox.Subid.Delegation.Bounds.{IsRange}
use shbox.Subid.Available.{lowest}
use shbox.Subid.Ledger.{LeaseRecord, active}
use shbox.Subid.Ledger.Records.{find, put}
use shbox.Subid.Ledger.Interface.{LeaseStore}
use shbox.Subid.Allocator.Monad.{Allocator, state_conflict, already_holds, exhausted}
use shbox.Subid.Allocator.Pool.{
  uid_kind, gid_kind, id_of, validate_uniqueness, index_of, available, capacity,
}
use shbox.Subid.Allocator.Triple.{
  Triple, bind, weaken, given, pure-Triple, guard-Triple, or_fail-Triple, lift-Triple,
}
use shbox.Subid.Allocator.Steps.{
  At, load-Triple, lock-Triple, remove_stale_temps-Triple, write-Triple, lock_selection-Triple,
  lock_lease_ids-Triple, lock_pending-Triple, modify-Triple,
}
use shbox.Subid.Allocator.Change.{Change, publishes, IsFresh}
use shbox.Subid.Allocator.Effects.{Changed, unchanged, At-Changed, At-Changed_either}
use shbox.Subid.Allocator.Selection.{IsFree, lowest-available, Apart, validate_uniqueness_iff}
use shbox.Subid.Allocator.{load, claim, claimed, publish}

unheld :
    (sandbox : Bytes) (rs : List LeaseRecord)
    → not (any (λ r. bytes_eq r.sandbox_id sandbox) rs) ≡ true
    → All (λ r. r.sandbox_id ≢ sandbox) rs
unheld sandbox [] h = tt
unheld sandbox (r ∷ rs) h =
    ((λ e. ground (arith, bytes_eq_iff r.sandbox_id sandbox)), unheld sandbox rs (ground arith))

-- Unused IDs make a fresh record.
free-IsFresh :
    (r : LeaseRecord) (rs : List LeaseRecord)
    → All (λ x. x.sandbox_id ≢ r.sandbox_id) rs
    → All (λ x. id_of uid_kind x ≢ r.uid) rs
    → All (λ x. id_of gid_kind x ≢ r.gid) rs
    → All (IsFresh r) rs
unfolding id_of
free-IsFresh r [] s u g = tt
free-IsFresh r (x ∷ rs) s u g = (
  record { sandbox_ne = λ e. s.0 (sym e); uid_ne = λ e. u.0 (sym e); gid_ne = λ e. g.0 (sym e) },
  free-IsFresh r rs s.1 u.1 g.1,
)

-- The least free ID of a kind.
pub record IsLeast (P : ℕ → Type 0) (x : ℕ) : Type 0 where
  pub holds : P x
  pub least : (y : ℕ) → P y → x ≤ y

module _ (st : LeaseStore) (rs : List LeaseRecord) where
  open st use {State, records, IsStorable}

  -- The whole ledger is returned, and only if it is unambiguous.
  pub loaded-Triple :
      Triple
        (At st rs)
        (load st)
        (λ loaded a. At st rs a × ((loaded ≡ rs) × Apart rs))
        (Changed st rs)
  unfolding load
  loaded-Triple = bind (weaken (load-Triple st rs) (λ _ a h. h) (unchanged st rs)) λ loaded.
      given λ is_rs. bind (lift-Triple (validate_uniqueness loaded) (unchanged st rs)) λ checked.
        given λ ok_check. bind (lock_lease_ids-Triple st rs (unchanged st rs)) λ _.
          bind (modify-Triple st rs (λ a. record a { lease_ids = index_of loaded }) (λ a. refl))
            λ _.
              pure-Triple loaded
                λ a h. (h, (is_rs, subst Apart is_rs ((validate_uniqueness_iff loaded).0 ok_check)))

  publish-Triple :
      (r : LeaseRecord)
      → r.state ≡ active
      → find r.lease_id rs ≡ none
      → All (IsFresh r) rs
      → IsStorable r
      → Triple (At st rs) (publish st r) (λ x a. At st (put r rs) a × (x ≡ r)) (Changed st rs)
  unfolding publish
  publish-Triple r is_active new fresh storable =
      let change : Change rs (put r rs) = publishes r is_active new fresh in
      let fails = At-Changed st rs change in
      bind (weaken (write-Triple st rs r storable) (λ _ a h. h) (At-Changed_either st rs change))
        λ _. bind (lock_pending-Triple st (put r rs) fails) λ _.
          bind
            (modify-Triple st (put r rs)
              (λ a. record a { pending_activations = add r.lease_id a.pending_activations })
              (λ a. refl))
            λ _. bind (lock_lease_ids-Triple st (put r rs) fails) λ _.
              bind
                (modify-Triple st (put r rs)
                  (λ a. record a { lease_ids = insert r.sandbox_id r.lease_id a.lease_ids })
                  (λ a. refl))
                λ _. pure-Triple r λ a h. (h, refl)

module _ (st : LeaseStore) (rs : List LeaseRecord) (euid egid : ℕ) (token sandbox owner : Bytes)
    (d : Delegation) where
  open st use {State, IsStorable}

  -- What a success of `claim` has done.
  pub record Claimed (r : LeaseRecord) (a : Allocator State) : Type 0 where
    pub is_new : r ≡ claimed st token sandbox owner r.uid r.gid
    pub uid_least : IsLeast (IsFree uid_kind euid d.uid_ranges rs) r.uid
    pub gid_least : IsLeast (IsFree gid_kind egid d.gid_ranges rs) r.gid
    pub fresh : All (IsFresh r) rs
    pub published : At st (put r rs) a

  -- The record of the least free pair.
  abbrev pub IsLeastPair : LeaseRecord → Type 0
  IsLeastPair r =
      (r ≡ claimed st token sandbox owner r.uid r.gid)
      × IsLeast (IsFree uid_kind euid d.uid_ranges rs) r.uid
      × IsLeast (IsFree gid_kind egid d.gid_ranges rs) r.gid

  -- The ledger can store the record of the least free pair.
  abbrev pub LeastStorable : Type 0
  LeastStorable = (r : LeaseRecord) → IsLeastPair r → IsStorable r

  publish-claimed :
      (uid gid : ℕ)
      → find token rs ≡ none
      → All IsRange d.uid_ranges
      → All IsRange d.gid_ranges
      → LeastStorable
      → All (λ r. r.sandbox_id ≢ sandbox) rs
      → lowest (available uid_kind euid d.uid_ranges rs) ≡ some uid
      → lowest (available gid_kind egid d.gid_ranges rs) ≡ some gid
      → Triple
          (At st rs)
          (publish st (claimed st token sandbox owner uid gid))
          Claimed
          (Changed st rs)
  publish-claimed uid gid new uids gids storable other u g =
      let (uid_free, uid_min) = lowest-available uid_kind euid d.uid_ranges rs uids uid u in
      let (gid_free, gid_min) = lowest-available gid_kind egid d.gid_ranges rs gids gid g in
      let least_uid : IsLeast (IsFree uid_kind euid d.uid_ranges rs) uid = record {
        holds = uid_free;
        least = uid_min;
      } in
      let least_gid : IsLeast (IsFree gid_kind egid d.gid_ranges rs) gid = record {
        holds = gid_free;
        least = gid_min;
      } in
      let r = claimed st token sandbox owner uid gid in
      let fresh = free-IsFresh r rs other uid_free.unused gid_free.unused in
      weaken (publish-Triple st rs r refl new fresh (storable r (refl, least_uid, least_gid)))
        (λ x a h.
          subst (λ y. Claimed y a) (sym h.1)
            (record {
              is_new = refl;
              uid_least = least_uid;
              gid_least = least_gid;
              fresh = fresh;
              published = h.0;
            }))
        (λ a h. h)

  pub claim-Triple :
      find token rs ≡ none
      → All IsRange d.uid_ranges
      → All IsRange d.gid_ranges
      → LeastStorable
      → Triple (At st rs) (claim st euid egid token sandbox owner d) Claimed (Changed st rs)
  unfolding claim
  claim-Triple new uids gids storable =
      bind (weaken (lock-Triple st rs) (λ _ a h. h.0) (unchanged st rs)) λ _.
        bind (lock_selection-Triple st rs (unchanged st rs)) λ _.
          bind (weaken (remove_stale_temps-Triple st rs) (λ _ a h. h.0) (unchanged st rs)) λ _.
            bind (loaded-Triple st rs) λ loaded. given λ (is_rs, apart).
              bind
                (guard-Triple (not (any (λ r. bytes_eq r.sandbox_id sandbox) loaded))
                  (state_conflict (already_holds sandbox)) (unchanged st rs))
                λ _. given λ free.
                  let full =
                    exhausted (capacity d.uid_ranges loaded uid_kind)
                      (capacity d.gid_ranges loaded gid_kind) in
                  bind
                    (or_fail-Triple (lowest (available uid_kind euid d.uid_ranges loaded)) full
                      (unchanged st rs))
                    λ uid. given λ uid_is.
                      bind
                        (or_fail-Triple (lowest (available gid_kind egid d.gid_ranges loaded)) full
                          (unchanged st rs))
                        λ gid. given λ gid_is.
                          publish-claimed uid gid new uids gids storable
                            (unheld sandbox rs (
                              subst (λ l. not (any (λ r. bytes_eq r.sandbox_id sandbox) l) ≡ true)
                                is_rs free))
                            (subst (λ l. lowest (available uid_kind euid d.uid_ranges l) ≡ some uid)
                              is_rs uid_is)
                            (subst (λ l. lowest (available gid_kind egid d.gid_ranges l) ≡ some gid)
                              is_rs gid_is)
