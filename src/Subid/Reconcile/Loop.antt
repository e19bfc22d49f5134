-- ===== src/Subid/Reconcile/Loop.antt =====
-- The loop of reconciliation over a snapshot of the ledger.
use shbox.Prelude.{◌≡◌, ◌≢◌, refl, sym, subst, ◌∙◌, Bool, List, [], ◌∷◌, Option, some, All, All-map}
use shbox.Prelude.Bytes.{Bytes}
use shbox.Subid.Ledger.{LeaseRecord}
use shbox.Subid.Ledger.Records.{find}
use shbox.Subid.Ledger.Interface.{LeaseStore}
use shbox.Subid.Allocator.Monad.{Allocator}
use shbox.Subid.Allocator.Triple.{Triple, bind, weaken, given, pure-Triple, fail-Triple}
use shbox.Subid.Allocator.Steps.{At}
use shbox.Subid.Reconcile.Verdict.{Fate, reconcile_one-Ends}
use shbox.Subid.Reconcile.{
  SandboxView, Looked, found, lookup_error, standing, Reconciliation, reason_for, looked,
  reconcile_from,
}

-- No lease ID stands twice in the snapshot.
abbrev pub Lone : List LeaseRecord → Type 0
Lone [] = Unit {0}
Lone (r ∷ rs) = All (λ (x : LeaseRecord). x.lease_id ≢ r.lease_id) rs × Lone rs

-- Each record of the snapshot is on file as it stands there.
abbrev pub OnFile : List LeaseRecord → List LeaseRecord → Type 0
OnFile rs todo = All (λ (r : LeaseRecord). find r.lease_id rs ≡ some r) todo

module _ (st : LeaseStore) (look : Bytes → Looked) (proof : Bool) where
  open st use {State, records, IsReadable}

  -- The ledger can store every reason that reconciliation may give.
  abbrev pub ReasonsReadable : List LeaseRecord → Type 0
  ReasonsReadable = All λ r.
      (view : Option SandboxView) (reason : Bytes)
      → look r.sandbox_id ≡ found view
      → reason_for r.state (standing r view) ≡ some reason
      → IsReadable reason

  abbrev pub FateIn : List LeaseRecord → LeaseRecord → Type 0
  FateIn now r =
      (view : Option SandboxView)
      → look r.sandbox_id ≡ found view
      → Fate proof r.state (standing r view) r (find r.lease_id now)

  -- After the loop: each record of the snapshot has met its fate, and no other lease was touched.
  pub record Reconciled (rs todo : List LeaseRecord) (a : Allocator State) : Type 0 where
    pub now : List LeaseRecord
    pub at_now : At st now a
    pub fates : All (FateIn now) todo
    pub others :
        (id : Bytes) → All (λ (r : LeaseRecord). id ≢ r.lease_id) todo → find id now ≡ find id rs

  looked-Triple :
      (P : Allocator State → Type 0) (l : Looked)
      → Triple P (looked st look proof l) (λ view a. P a × (l ≡ found view)) (λ _. Unit {0})
  unfolding looked
  looked-Triple P (found view) = pure-Triple view (λ a h. (h, refl))
  looked-Triple P (lookup_error reason) = fail-Triple _ (λ a h. tt)

  OnFile-later :
      (rs now : List LeaseRecord) (r : LeaseRecord) (todo : List LeaseRecord)
      → ((id : Bytes) → id ≢ r.lease_id → find id now ≡ find id rs)
      → All (λ (x : LeaseRecord). x.lease_id ≢ r.lease_id) todo
      → OnFile rs todo
      → OnFile now todo
  OnFile-later rs now r [] same ne h = tt
  OnFile-later rs now r (x ∷ todo) same ne h =
      (same x.lease_id ne.0 ∙ h.0, OnFile-later rs now r todo same ne.1 h.1)

  apart_from :
      (r : LeaseRecord) (todo : List LeaseRecord)
      → All (λ (x : LeaseRecord). x.lease_id ≢ r.lease_id) todo
      → All (λ (x : LeaseRecord). r.lease_id ≢ x.lease_id) todo
  apart_from r todo = All-map (λ x ne e. ne (sym e)) todo

  pub reconcile_from-Triple :
      (rs todo : List LeaseRecord) (report : Reconciliation)
      → Lone todo
      → OnFile rs todo
      → ReasonsReadable todo
      → Triple
          (At st rs)
          (reconcile_from st look proof todo report)
          (λ _. Reconciled rs todo)
          (λ _. Unit {0})
  unfolding reconcile_from
  reconcile_from-Triple rs [] report lone on_file readable =
      pure-Triple report λ a h. record { now = rs; at_now = h; fates = tt; others = λ id ne. refl }
  reconcile_from-Triple rs (r ∷ todo) report lone on_file readable =
      let ih = λ (now : List LeaseRecord) (next : Reconciliation).
        reconcile_from-Triple now todo next lone.1 in
      bind (looked-Triple (At st rs) (look r.sandbox_id)) λ view. given λ is_view.
        bind
          (reconcile_one-Ends st rs r on_file.0 proof r.state (standing r view) report refl
            (λ reason e. readable.0 view reason is_view e))
          λ next. record {
            run = λ a s.
                (weaken
                    (ih s.now next (OnFile-later rs s.now r todo s.others lone.0 on_file.1)
                      readable.1)
                    (λ _ b d. record {
                      now = d.now;
                      at_now = d.at_now;
                      fates = (
                        λ v e. rw (d.others r.lease_id (apart_from r todo lone.0)) (
                            subst (λ w. Fate proof r.state (standing r w) r (find r.lease_id s.now))
                              (same_view view v (sym is_view ∙ e)) s.this),
                        d.fates,
                      );
                      others = λ id ne. d.others id ne.1 ∙ s.others id ne.0;
                    })
                    (λ b h. h)).run
                  a s.at_now;
          }
    where
      same_view : (v w : Option SandboxView) → found v ≡ found w → v ≡ w
      same_view v w e = cc
