-- ===== src/Subid/Reconcile/Index.antt =====
-- The snapshot by sandbox that reconciliation walks holds every record of an unambiguous ledger.
use shbox.Prelude.{
  ◌≡◌, ◌≢◌, sym, ◌⊎◌, inl, inr, List, [], ◌∷◌, some, arith, All, All-map, Bool-cases, true,
}
use shbox.Prelude.Bytes.{Bytes, bytes_eq, bytes_eq_iff}
use shbox.Subid.Ledger.{LeaseRecord}
use shbox.Subid.Ledger.Records.{find, Unique, IsDistinct, IsDistinct-sym}
use shbox.Subid.Allocator.Pool.{indexed_from, index_insert}
use shbox.Subid.Reconcile.Loop.{Lone, OnFile}

All-index_insert {κ} :
    (P : LeaseRecord → Type κ) (r : LeaseRecord) (m : List LeaseRecord)
    → P r
    → All P m
    → All P (index_insert r m)
unfolding index_insert
All-index_insert P r [] p h = (p, tt)
All-index_insert P r (x ∷ m) p h = ground (arith, All-index_insert P r m p h.1)

pub All-indexed_from {κ} :
    (P : LeaseRecord → Type κ) (rs m : List LeaseRecord)
    → All P m
    → All P rs
    → All P (indexed_from m rs)
unfolding indexed_from
All-indexed_from P [] m h k = h
All-indexed_from P (r ∷ rs) m h k =
    All-indexed_from P rs (index_insert r m) (All-index_insert P r m k.0 h) k.1

index_insert-Lone :
    (r : LeaseRecord) (m : List LeaseRecord)
    → All (IsDistinct r) m
    → Lone m
    → Lone (index_insert r m)
unfolding index_insert
index_insert-Lone r [] d l = (tt, tt)
index_insert-Lone r (x ∷ m) d l =
    let ne : x.lease_id ≢ r.lease_id = λ e. d.0.lease_ne (sym e) in
    let ne' : r.lease_id ≢ x.lease_id = d.0.lease_ne in
    let all_ne =
      All-map {P = IsDistinct r} {Q = λ y. y.lease_id ≢ r.lease_id} (λ y q e. q.lease_ne (sym e)) m
        d.1 in
    ground (
      arith,
      index_insert-Lone r m d.1 l.1,
      All-index_insert (λ y. y.lease_id ≢ x.lease_id) r m ne' l.0,
    )

find-index_insert :
    (r : LeaseRecord) (m : List LeaseRecord) (id : Bytes)
    → All (IsDistinct r) m
    → ((x : LeaseRecord) → find id m ≡ some x → find id (index_insert r m) ≡ some x)
      × (bytes_eq r.lease_id id ≡ true → find id (index_insert r m) ≡ some r)
unfolding index_insert find
find-index_insert r [] id d = ((λ x e. cc), (λ e. ground arith))
find-index_insert r (y ∷ m) id d =
    let (keep, new) = find-index_insert r m id d.1 in
    let ne : ¬ (r.lease_id ≡ y.lease_id) = d.0.lease_ne in
    let ne' : ¬ (r.sandbox_id ≡ y.sandbox_id) = d.0.sandbox_ne in
    (
      (λ x e. ground (
        arith,
        keep x,
        bytes_eq_iff r.lease_id id,
        bytes_eq_iff y.lease_id id,
        bytes_eq_iff r.sandbox_id y.sandbox_id,
      )),
      (λ e. ground (
        arith,
        new,
        bytes_eq_iff r.lease_id id,
        bytes_eq_iff y.lease_id id,
        bytes_eq_iff r.sandbox_id y.sandbox_id,
      )),
    )

-- Every record still to come is distinct from every record already in the index.
abbrev Cross : List LeaseRecord → List LeaseRecord → Type 0
Cross m rs = All (λ x. All (IsDistinct x) m) rs

index_insert-Cross :
    (r : LeaseRecord) (m rs : List LeaseRecord)
    → All (IsDistinct r) rs
    → Cross m rs
    → Cross (index_insert r m) rs
index_insert-Cross r m [] d c = tt
index_insert-Cross r m (x ∷ rs) d c = (
  All-index_insert (IsDistinct x) r m (IsDistinct-sym d.0) c.0,
  index_insert-Cross r m rs d.1 c.1,
)

pub indexed_from-Lone :
    (rs m : List LeaseRecord) → Unique rs → Cross m rs → Lone m → Lone (indexed_from m rs)
unfolding indexed_from
indexed_from-Lone [] m u c l = l
indexed_from-Lone (r ∷ rs) m u c l =
    indexed_from-Lone rs (index_insert r m) u.1 (index_insert-Cross r m rs u.0 c.1)
      (index_insert-Lone r m c.0 l)

find-indexed_from :
    (rs m : List LeaseRecord) (id : Bytes) (x : LeaseRecord)
    → Unique rs
    → Cross m rs
    → (find id m ≡ some x) ⊎ (find id rs ≡ some x)
    → find id (indexed_from m rs) ≡ some x
unfolding indexed_from
find-indexed_from [] m id x u c (inl e) = e
find-indexed_from [] m id x u c (inr e) = unfold find in cc
find-indexed_from (r ∷ rs) m id x u c e =
    find-indexed_from rs (index_insert r m) id x u.1 (index_insert-Cross r m rs u.0 c.1) (later e)
  where
    later :
        (find id m ≡ some x) ⊎ (find id (r ∷ rs) ≡ some x)
        → (find id (index_insert r m) ≡ some x) ⊎ (find id rs ≡ some x)
    later (inl h) = inl ((find-index_insert r m id c.0).0 x h)
    later (inr h) = elim (Bool-cases (bytes_eq r.lease_id id)) [
      | inl same ↦ inl (unfold find in ground (arith, (find-index_insert r m id c.0).1 same))
      | inr other ↦ inr (unfold find in ground arith)
    ]

Cross-nil : (rs : List LeaseRecord) → Cross [] rs
Cross-nil [] = tt
Cross-nil (r ∷ rs) = (tt, Cross-nil rs)

pub snapshot-Lone : (rs : List LeaseRecord) → Unique rs → Lone (indexed_from [] rs)
snapshot-Lone rs u = indexed_from-Lone rs [] u (Cross-nil rs) tt

-- No record is lost or replaced in the index.
pub find-snapshot :
    (rs : List LeaseRecord) (id : Bytes) (x : LeaseRecord)
    → Unique rs
    → find id rs ≡ some x
    → find id (indexed_from [] rs) ≡ some x
find-snapshot rs id x u e = find-indexed_from rs [] id x u (Cross-nil rs) (inr e)

OnFile-cons :
    (r : LeaseRecord) (rs todo : List LeaseRecord)
    → All (IsDistinct r) todo
    → OnFile rs todo
    → OnFile (r ∷ rs) todo
OnFile-cons r rs [] d h = tt
OnFile-cons r rs (x ∷ todo) d h = (
  unfold find in ground (arith, bytes_eq_iff r.lease_id x.lease_id, d.0.lease_ne, h.0),
  OnFile-cons r rs todo d.1 h.1,
)

pub OnFile-self : (rs : List LeaseRecord) → Unique rs → OnFile rs rs
OnFile-self [] u = tt
OnFile-self (r ∷ rs) u =
    let ih = OnFile-self rs u.1 in
    (unfold find in ground (arith, bytes_eq_iff r.lease_id r.lease_id), OnFile-cons r rs rs u.0 ih)
