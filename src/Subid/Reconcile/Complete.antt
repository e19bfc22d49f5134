-- ===== src/Subid/Reconcile/Complete.antt =====
-- Reconciliation of the whole ledger against its specification.
use shbox.Prelude.{All, ◌≡◌, refl, sym, subst, Bool, List, [], Option, some}
use shbox.Prelude.Bytes.{Bytes}
use shbox.Subid.Ledger.{LeaseRecord}
use shbox.Subid.Ledger.Records.{find, Unique, find-All, find-lease_id}
use shbox.Subid.Ledger.Interface.{LeaseStore}
use shbox.Subid.Allocator.Monad.{Allocator, ok}
use shbox.Subid.Allocator.Pool.{indexed_from}
use shbox.Subid.Allocator.Triple.{Triple, run_ok, bind, weaken, given, pure-Triple}
use shbox.Subid.Allocator.Steps.{At}
use shbox.Subid.Allocator.Claim.{loaded-Triple}
use shbox.Subid.Allocator.{load_indexed}
use shbox.Subid.Reconcile.Index.{All-indexed_from, snapshot-Lone, find-snapshot, OnFile-self}
use shbox.Subid.Reconcile.Loop.{ReasonsReadable, Reconciled, FateIn, reconcile_from-Triple}
use shbox.Subid.Reconcile.Verdict.{Fate}
use shbox.Subid.Reconcile.Promise.{Settles, Fate-Settles}
use shbox.Subid.Reconcile.{
  SandboxView, Looked, found, standing, Reconciliation, reconcile, reconcile_loaded,
}

module _ (st : LeaseStore) (look : Bytes → Looked) (proof : Bool) (rs : List LeaseRecord)
    (unique : Unique rs) (readable : ReasonsReadable st look proof rs) where
  open st use {State, records}

  load_indexed-Triple :
      Triple
        (At st rs)
        (load_indexed st)
        (λ todo a. At st rs a × (todo ≡ indexed_from [] rs))
        (λ _. Unit {0})
  unfolding load_indexed
  load_indexed-Triple = bind (weaken (loaded-Triple st rs) (λ _ a h. h) (λ a h. tt)) λ loaded.
      given λ (is_rs, _).
        pure-Triple (indexed_from [] loaded)
          λ a h. (h, subst (λ l. indexed_from [] loaded ≡ indexed_from [] l) is_rs refl)

  reconcile-Triple :
      Triple
        (At st rs)
        (reconcile st look proof)
        (λ _. Reconciled st look proof rs (indexed_from [] rs))
        (λ _. Unit {0})
  unfolding reconcile reconcile_loaded
  reconcile-Triple = bind load_indexed-Triple λ todo. given λ is_snapshot.
      subst
        (λ l.
          Triple (At st rs) (reconcile_loaded st look proof l)
            (λ _. Reconciled st look proof rs (indexed_from [] rs)) (λ _. Unit {0}))
        (sym is_snapshot)
        (reconcile_from-Triple st look proof rs (indexed_from [] rs) _ (snapshot-Lone rs unique)
          (All-indexed_from (λ r. find r.lease_id rs ≡ some r) rs [] tt (OnFile-self rs unique))
          (All-indexed_from _ rs [] tt readable))

-- Where the scan of the sandboxes found `view` for the sandbox of a lease, a successful
-- reconciliation of an unambiguous ledger has left the lease so: a reservation is active under a
-- sandbox of the same owner, be it active or deleting, and gone without a sandbox; an active lease
-- is as it was under the same owner, and in quarantine without a sandbox; a release is as it was
-- under the same owner, and without a sandbox it is gone under the proof that the runtime is clean
-- and else as it was; a lease that is not in quarantine is in quarantine under a sandbox of another
-- owner or a corrupt one; and a quarantined lease is as it was. The ledger can store each record on
-- file, and every reason that reconciliation may give can be read back.
pub reconcile_fates :
    (st : LeaseStore) (look : Bytes → Looked) (proof : Bool) (a : Allocator st.State)
    (report : Reconciliation) (id : Bytes) (r : LeaseRecord) (view : Option SandboxView)
    → All st.IsStorable (st.records a.store)
    → Unique (st.records a.store)
    → ReasonsReadable st look proof (st.records a.store)
    → (reconcile st look proof a).0 ≡ ok report
    → find id (st.records a.store) ≡ some r
    → look r.sandbox_id ≡ found view
    → Settles proof r view (find id (st.records (reconcile st look proof a).1.store))
reconcile_fates st look proof a report id r view sound unique readable e on_file seen =
    let rs = st.records a.store in
    let done =
      run_ok (reconcile-Triple st look proof rs unique readable) a report (refl, sound) e in
    let fate : FateIn st look proof done.now r =
      find-All (FateIn st look proof done.now) id (indexed_from [] rs) r done.fates
        (find-snapshot rs id r unique on_file) in
    Fate-Settles proof r view _ (
      subst (λ l. Fate proof r.state (standing r view) r (find id l)) (sym done.at_now.0)
        (subst (λ k. Fate proof r.state (standing r view) r (find k done.now))
          (find-lease_id id rs r on_file) (fate view seen)))
