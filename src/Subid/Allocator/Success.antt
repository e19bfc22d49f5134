-- ===== src/Subid/Allocator/Success.antt =====
-- When `SubidAllocator::claim` of crates/shbox/src/sandbox/subid/mod.rs succeeds: a lease store
-- whose operations succeed in that run, and no mutex that a panic has poisoned.
use shbox.Prelude.{
  ℕ, true, not, any, ◌≡◌, ◌≢◌, ◌↔◌, refl, sym, ap, subst, ◌∙◌, List, [], ◌∷◌, Option, none, some,
  All, arith,
}
use shbox.Prelude.Bytes.{Bytes, bytes_eq, bytes_eq_iff}
use shbox.Subid.Delegation.{Delegation, SubidRange}
use shbox.Subid.Delegation.Bounds.{IsRange}
use shbox.Subid.Available.{lowest}
use shbox.Subid.Ledger.{LeaseRecord, active}
use shbox.Subid.Ledger as Ledger
use shbox.Subid.Ledger.Records.{find}
use shbox.Subid.Ledger.Interface.{LeaseStore}
use shbox.Subid.Allocator.Monad.{Allocator, ok, state_conflict, already_holds, exhausted}
use shbox.Subid.Allocator.Pool.{uid_kind, gid_kind, IdKind, available, capacity}
use shbox.Subid.Allocator.Triple.{run_some, Triple, bind, weaken, given}
use shbox.Subid.Allocator.Selection.{IsFree, Apart, lowest-available, lowest-available-none}
use shbox.Subid.Allocator.Claim.{IsLeast, IsLeastPair, LeastStorable}
use shbox.Subid.Allocator.Outcome.{claim-IsLeast}
use shbox.Subid.Allocator.{claim, claimed}
use shbox.Subid.Allocator.Total.{
  Calm, Never, guard-total, or_fail-total, mutex-total, step-total, loaded-total, publish-total,
}

-- The operations that `claim` makes on the store succeed, each in the state that the one before it
-- left: the lock, the sweep, the load, and the write of any record for which `P` holds.
pub record IsHealthy (st : LeaseStore) (s : st.State) (P : LeaseRecord → Type 0) : Type 0 where
  pub locks : (st.lock s).0 ≡ Ledger.ok tt
  pub sweeps : (st.remove_stale_temps (st.lock s).1).0 ≡ Ledger.ok tt
  pub loads :
      (rs : List LeaseRecord) × ((st.load (st.remove_stale_temps (st.lock s).1).1).0 ≡ Ledger.ok rs)
  pub writes :
      (r : LeaseRecord)
      → P r
      → (st.write r (st.load (st.remove_stale_temps (st.lock s).1).1).1).0 ≡ Ledger.ok tt

no_holder :
    (sandbox : Bytes) (rs : List LeaseRecord)
    → All (λ r. r.sandbox_id ≢ sandbox) rs
    → not (any (λ r. bytes_eq r.sandbox_id sandbox) rs) ≡ true
no_holder sandbox [] h = refl
no_holder sandbox (r ∷ rs) (h, hs) =
    ground (arith, h, bytes_eq_iff r.sandbox_id sandbox, no_holder sandbox rs hs)

lowest-some :
    (kind : IdKind) (own : ℕ) (ranges : List SubidRange) (rs : List LeaseRecord) (x : ℕ)
    → All IsRange ranges
    → IsFree kind own ranges rs x
    → (y : ℕ) × (lowest (available kind own ranges rs) ≡ some y)
lowest-some kind own ranges rs x fine free = found (lowest (available kind own ranges rs)) refl
  where
    found :
        (o : Option ℕ)
        → lowest (available kind own ranges rs) ≡ o
        → (y : ℕ) × (lowest (available kind own ranges rs) ≡ some y)
    found none e = absurd (lowest-available-none kind own ranges rs fine e x free)
    found (some y) e = (y, e)

module _ (st : LeaseStore) (s : st.State) (rs : List LeaseRecord) (euid egid : ℕ)
    (token sandbox owner : Bytes) (d : Delegation) where
  lowest-IsLeast :
      (kind : IdKind) (own : ℕ) (ranges : List SubidRange) (x : ℕ)
      → All IsRange ranges
      → lowest (available kind own ranges rs) ≡ some x
      → IsLeast (IsFree kind own ranges rs) x
  lowest-IsLeast kind own ranges x fine h =
      let (free, least) = lowest-available kind own ranges rs fine x h in
      record { holds = free; least = least }

  claim-total :
      (x y : ℕ)
      → IsHealthy st s (IsLeastPair st rs euid egid token sandbox owner d)
      → st.records s ≡ rs
      → Apart rs
      → All (λ r. r.sandbox_id ≢ sandbox) rs
      → All IsRange d.uid_ranges
      → All IsRange d.gid_ranges
      → IsFree uid_kind euid d.uid_ranges rs x
      → IsFree gid_kind egid d.gid_ranges rs y
      → Triple (Calm st s) (claim st euid egid token sandbox owner d) (λ _ a. Unit {0}) Never
  unfolding claim
  claim-total x y healthy at apart others uids gids free_uid free_gid =
      let s1 = (st.lock s).1 in
      let s2 = (st.remove_stale_temps s1).1 in
      let (loaded_rs, loads) = healthy.loads in
      let all_loaded : loaded_rs ≡ rs =
        st.load_lem s2 loaded_rs loads
        ∙ st.records-remove_stale_temps s1
        ∙ st.records-lock s
        ∙ at in
      let (uid, uid_is) = lowest-some uid_kind euid d.uid_ranges rs x uids free_uid in
      let (gid, gid_is) = lowest-some gid_kind egid d.gid_ranges rs y gids free_gid in
      bind (step-total st st.lock s healthy.locks) λ _.
        bind (mutex-total (λ a. a.selection_is_poisoned) (λ a h. h.selection)) λ _.
          bind (step-total st st.remove_stale_temps s1 healthy.sweeps) λ _.
            bind (loaded-total st s2 rs (loads ∙ ap Ledger.ok all_loaded) apart) λ loaded.
              given λ is_rs.
                let full =
                  exhausted (capacity d.uid_ranges loaded uid_kind)
                    (capacity d.gid_ranges loaded gid_kind) in
                bind
                  (guard-total (not (any (λ r. bytes_eq r.sandbox_id sandbox) loaded))
                    (state_conflict (already_holds sandbox))
                    (no_holder sandbox loaded
                      (subst (All (λ r. r.sandbox_id ≢ sandbox)) (sym is_rs) others)))
                  λ _.
                    bind
                      (or_fail-total (lowest (available uid_kind euid d.uid_ranges loaded)) full uid
                        (subst (λ l. lowest (available uid_kind euid d.uid_ranges l) ≡ some uid)
                          (sym is_rs) uid_is))
                      λ u. given λ u_is.
                        bind
                          (or_fail-total (lowest (available gid_kind egid d.gid_ranges loaded)) full
                            gid
                            (subst (λ l. lowest (available gid_kind egid d.gid_ranges l) ≡ some gid)
                              (sym is_rs) gid_is))
                          λ g. given λ g_is.
                            weaken
                              (publish-total st (st.load s2).1 (claimed st token sandbox owner u g)
                                (healthy.writes (claimed st token sandbox owner u g) (
                                  refl,
                                  lowest-IsLeast uid_kind euid d.uid_ranges u uids (
                                      subst
                                        (λ l.
                                          lowest (available uid_kind euid d.uid_ranges l) ≡ some u)
                                        is_rs u_is),
                                  lowest-IsLeast gid_kind egid d.gid_ranges g gids (
                                      subst
                                        (λ l.
                                          lowest (available gid_kind egid d.gid_ranges l) ≡ some g)
                                        is_rs g_is),
                                )))
                              (λ _ a h. tt) (λ a h. h)

-- With no poisoned mutex and a ledger in which no two records share a UID, a GID or a sandbox and
-- none is of this sandbox, well-formed delegated ranges, a token in no record, and records that can
-- be stored, those on file and the one of the least free pair: where the lock, the sweep, the load
-- and the write of that record that `claim` makes succeed, `claim` succeeds exactly if some
-- delegated UID and some delegated GID are free, which are not 0, not the daemon's own and in no
-- record.
pub claim_iff :
    (st : LeaseStore) (a : Allocator st.State) (euid egid : ℕ) (token sandbox owner : Bytes)
    (d : Delegation)
    → IsHealthy st a.store (IsLeastPair st (st.records a.store) euid egid token sandbox owner d)
    → Calm st a.store a
    → Apart (st.records a.store)
    → All (λ r. r.sandbox_id ≢ sandbox) (st.records a.store)
    → All st.IsStorable (st.records a.store)
    → find token (st.records a.store) ≡ none
    → All IsRange d.uid_ranges
    → All IsRange d.gid_ranges
    → LeastStorable st (st.records a.store) euid egid token sandbox owner d
    → ((r : LeaseRecord) × ((claim st euid egid token sandbox owner d a).0 ≡ ok r)) ↔ (
        ((x : ℕ) × IsFree uid_kind euid d.uid_ranges (st.records a.store) x)
        × ((y : ℕ) × IsFree gid_kind egid d.gid_ranges (st.records a.store) y))
claim_iff st a euid egid token sandbox owner d healthy calm_here apart others sound new uids gids
      storable =
    (
      λ (r, e).
          let (_, uid, gid, _, _) =
            claim-IsLeast st a euid egid token sandbox owner d r sound new uids gids storable e in
          ((r.uid, uid.holds), (r.gid, gid.holds)),
      λ ((x, free_uid), (y, free_gid)).
          run_some
            (claim-total st a.store (st.records a.store) euid egid token sandbox owner d x y healthy
              refl apart others uids gids free_uid free_gid)
            a calm_here,
    )
