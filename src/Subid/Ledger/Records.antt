-- ===== src/Subid/Ledger/Records.antt =====
-- The ledger as the list of its records in the order of their lease IDs, as `LeaseStore::load`
-- sorts them: lookup, publication and removal by lease ID.
use shbox.Prelude.{
  Bool, true, false, ◌≡◌, ◌≢◌, refl, List, [], ◌∷◌, Option, none, some, ◌==◌, ltb, if◌then◌else◌,
  arith, All, All-map, Bool-cases, inl, inr, sym, subst, ap,
}
use shbox.Prelude.Bytes.{Bytes, bytes_eq, bytes_eq_iff}
use shbox.Subid.Ledger.{LeaseRecord}

-- The order of `String`.
unfoldable pub bytes_lt : Bytes → Bytes → Bool
bytes_lt [] [] = false
bytes_lt [] (y ∷ ys) = true
bytes_lt (x ∷ xs) [] = false
bytes_lt (x ∷ xs) (y ∷ ys) = if x == y then bytes_lt xs ys else ltb x y

unfoldable pub find : Bytes → List LeaseRecord → Option LeaseRecord
find id [] = none
find id (r ∷ rs) = if bytes_eq r.lease_id id then some r else find id rs

unfoldable pub drop_id : Bytes → List LeaseRecord → List LeaseRecord
drop_id id [] = []
drop_id id (r ∷ rs) = if bytes_eq r.lease_id id then drop_id id rs else r ∷ drop_id id rs

-- Where the sort by lease ID puts a record.
unfoldable pub place : LeaseRecord → List LeaseRecord → List LeaseRecord
place r [] = r ∷ []
place r (x ∷ rs) = if bytes_lt r.lease_id x.lease_id then r ∷ x ∷ rs else x ∷ place r rs

-- Publication of a record: the file of its lease ID is replaced, or created.
unfoldable pub put : LeaseRecord → List LeaseRecord → List LeaseRecord
unfolding place drop_id
put r rs = place r (drop_id r.lease_id rs)

pub find-lease_id :
    (id : Bytes) (rs : List LeaseRecord) (r : LeaseRecord) → find id rs ≡ some r → r.lease_id ≡ id
unfolding find
find-lease_id id [] r h = cc
find-lease_id id (x ∷ rs) r h = ground (arith, bytes_eq_iff x.lease_id id, find-lease_id id rs r)

-- Two records that share no ID of any kind.
pub record IsDistinct (a b : LeaseRecord) : Type 0 where
  pub lease_ne : a.lease_id ≢ b.lease_id
  pub sandbox_ne : a.sandbox_id ≢ b.sandbox_id
  pub uid_ne : a.uid ≢ b.uid
  pub gid_ne : a.gid ≢ b.gid

pub IsDistinct-sym : {a b : LeaseRecord} → IsDistinct a b → IsDistinct b a
IsDistinct-sym d = record {
  lease_ne = λ e. d.lease_ne (sym e);
  sandbox_ne = λ e. d.sandbox_ne (sym e);
  uid_ne = λ e. d.uid_ne (sym e);
  gid_ne = λ e. d.gid_ne (sym e);
}

-- No UID, GID, sandbox or lease ID appears twice.
abbrev pub Unique : List LeaseRecord → Type 0
Unique [] = Unit {0}
Unique (r ∷ rs) = All (IsDistinct r) rs × Unique rs

-- `r` is distinct from every record that is not of its own lease ID.
abbrev pub Fits : LeaseRecord → LeaseRecord → Type 0
Fits r x = x.lease_id ≢ r.lease_id → IsDistinct r x

pub All-drop_id {κ} :
    (P : LeaseRecord → Type κ) (id : Bytes) (rs : List LeaseRecord)
    → All P rs
    → All P (drop_id id rs)
unfolding drop_id
All-drop_id P id [] h = tt
All-drop_id P id (x ∷ rs) h = ground (arith, All-drop_id P id rs h.1)

pub drop_id-Unique : (id : Bytes) (rs : List LeaseRecord) → Unique rs → Unique (drop_id id rs)
unfolding drop_id
drop_id-Unique id [] u = tt
drop_id-Unique id (x ∷ rs) u =
    ground (arith, drop_id-Unique id rs u.1, All-drop_id (IsDistinct x) id rs u.0)

All-place {κ} :
    (P : LeaseRecord → Type κ) (r : LeaseRecord) (rs : List LeaseRecord)
    → P r
    → All P rs
    → All P (place r rs)
unfolding place
All-place P r [] p h = (p, tt)
All-place P r (x ∷ rs) p h = ground (arith, All-place P r rs p h.1)

place-Unique :
    (r : LeaseRecord) (rs : List LeaseRecord)
    → All (IsDistinct r) rs
    → Unique rs
    → Unique (place r rs)
unfolding place
place-Unique r [] d u = (tt, tt)
place-Unique r (x ∷ rs) d u =
    let later = All-place (IsDistinct x) r rs (IsDistinct-sym d.0) u.0 in
    ground (arith, later, place-Unique r rs d.1 u.1)

Fits-drop_id :
    (r : LeaseRecord) (rs : List LeaseRecord)
    → All (Fits r) rs
    → All (IsDistinct r) (drop_id r.lease_id rs)
unfolding drop_id
Fits-drop_id r [] f = tt
Fits-drop_id r (x ∷ rs) f = elim (Bool-cases (bytes_eq x.lease_id r.lease_id)) [
  | inl same ↦ rw same (Fits-drop_id r rs f.1)
  | inr other ↦
      let ne : x.lease_id ≢ r.lease_id = λ e. ground (arith, bytes_eq_iff x.lease_id r.lease_id) in
      rw other (f.0 ne, Fits-drop_id r rs f.1)
]

-- Publication keeps the IDs unique where the record shares none with the records of other leases.
pub put-Unique :
    (r : LeaseRecord) (rs : List LeaseRecord) → All (Fits r) rs → Unique rs → Unique (put r rs)
unfolding put
put-Unique r rs f u =
    place-Unique r (drop_id r.lease_id rs) (Fits-drop_id r rs f) (drop_id-Unique r.lease_id rs u)

pub find-drop_id :
    (id j : Bytes) (rs : List LeaseRecord)
    → find j (drop_id id rs) ≡ (if bytes_eq id j then none else find j rs)
unfolding find drop_id
find-drop_id id j [] = ground arith
find-drop_id id j (x ∷ rs) = ground (
  arith,
  bytes_eq_iff x.lease_id id,
  bytes_eq_iff x.lease_id j,
  bytes_eq_iff id j,
  find-drop_id id j rs,
)

pub find-place :
    (r : LeaseRecord) (j : Bytes) (rs : List LeaseRecord)
    → find r.lease_id rs ≡ none
    → find j (place r rs) ≡ (if bytes_eq r.lease_id j then some r else find j rs)
unfolding find place
find-place r j [] h = refl
find-place r j (x ∷ rs) h = ground (
  arith,
  bytes_eq_iff x.lease_id r.lease_id,
  bytes_eq_iff x.lease_id j,
  bytes_eq_iff r.lease_id j,
  find-place r j rs,
)

-- Publication changes what is found under its own lease ID, and nothing else.
pub find-put :
    (r : LeaseRecord) (j : Bytes) (rs : List LeaseRecord)
    → find j (put r rs) ≡ (if bytes_eq r.lease_id j then some r else find j rs)
unfolding put
find-put r j rs = ground (
  arith,
  find-place r j (drop_id r.lease_id rs),
  find-drop_id r.lease_id r.lease_id rs,
  find-drop_id r.lease_id j rs,
  bytes_eq_iff r.lease_id r.lease_id,
)

pub All-put {κ} :
    (P : LeaseRecord → Type κ) (r : LeaseRecord) (rs : List LeaseRecord)
    → P r
    → All P rs
    → All P (put r rs)
unfolding put
All-put P r rs p h = All-place P r (drop_id r.lease_id rs) p (All-drop_id P r.lease_id rs h)

-- What is found satisfies what all records satisfy.
pub find-All {κ} :
    (P : LeaseRecord → Type κ) (id : Bytes) (rs : List LeaseRecord) (r : LeaseRecord)
    → All P rs
    → find id rs ≡ some r
    → P r
unfolding find
find-All P id [] r h e = cc
find-All P id (x ∷ rs) r h e = elim (Bool-cases (bytes_eq x.lease_id id)) [
  | inl same ↦ subst P (ground arith) h.0
  | inr other ↦ find-All P id rs r h.1 (ground arith)
]

-- A record on file is distinct from every record of another lease.
pub find-Fits :
    (id : Bytes) (rs : List LeaseRecord) (r : LeaseRecord)
    → Unique rs
    → find id rs ≡ some r
    → All (Fits r) rs
unfolding find
find-Fits id [] r u e = tt
find-Fits id (x ∷ rs) r u e = elim (Bool-cases (bytes_eq x.lease_id id)) [
  | inl same ↦
      let is_head : x ≡ r = ground arith in
      (
        λ ne. absurd (ne (ap (λ (y : LeaseRecord). y.lease_id) is_head)),
        subst (λ y. All (Fits y) rs) is_head
            (All-map {P = IsDistinct x} {Q = Fits x} (λ y d ne. d) rs u.0),
      )
  | inr other ↦
      let later : find id rs ≡ some r = ground arith in
      (
        λ ne. IsDistinct-sym (find-All (IsDistinct x) id rs r u.0 later),
        find-Fits id rs r u.1 later,
      )
]
