-- ===== src/Subid/Allocator/Selection.antt =====
-- Which ID `claim` selects, and what the uniqueness check accepts.
use shbox.Prelude.{
  ℕ, ◌≤◌, ◌≡◌, ◌≢◌, ◌↔◌, refl, sym, ◌∙◌, true, false, not, ◌&&◌, List, [], ◌∷◌, none, some, ◌==◌,
  arith, any, All,
}
use shbox.Prelude.Bytes.{Bytes, bytes_eq_iff}
use shbox.Subid.Delegation.{SubidRange, contains}
use shbox.Subid.Delegation.Bounds.{IsRange}
use shbox.Subid.Available.{Interval, remove, lowest, from_ranges}
use shbox.Subid.Available.Intervals.{holds, Separated}
use shbox.Subid.Available.Merge.{from_ranges-Separated, holds-from_ranges}
use shbox.Subid.Available.Laws.{remove_exact, lowest-least, lowest-none}
use shbox.Subid.Ledger.{LeaseRecord}
use shbox.Subid.Allocator.Monad.{ok}
use shbox.Subid.Allocator.Change.{IsFresh}
use shbox.Subid.Allocator.Pool.{
  IdKind, id_of, remove_records, available, check_unique, validate_uniqueness, seen, seen_bytes,
}

-- An ID that `claim` may hand out: delegated, not root's, not the daemon's own, in no record.
pub record IsFree (kind : IdKind) (own : ℕ) (ranges : List SubidRange) (rs : List LeaseRecord)
    (x : ℕ) : Type 0 where
  pub delegated : any (λ r. contains r x) ranges ≡ true
  pub not_root : x ≢ 0
  pub not_own : x ≢ own
  pub unused : All (λ r. id_of kind r ≢ x) rs

module _ (kind : IdKind) where
  remove_records-exact :
      (rs : List LeaseRecord) (m : List Interval) (x : ℕ)
      → Separated 0 m
      → Separated 0 (remove_records kind rs m)
        × ((holds x (remove_records kind rs m) ≡ true)
            ↔ ((holds x m ≡ true) × All (λ r. id_of kind r ≢ x) rs))
  unfolding remove_records
  remove_records-exact [] m x s = (s, ((λ h. (h, tt)), (λ h. h.0)))
  remove_records-exact (r ∷ rs) m x s =
      let (s', exact) = remove_exact (id_of kind r) m s in
      let (s'', ih) = remove_records-exact rs (remove (id_of kind r) m) x s' in
      (s'', (λ h. ground (arith, ih.0 h, exact x), λ h. ih.1 (ground (arith, exact x), h.1.1)))

module _ (kind : IdKind) (own : ℕ) (ranges : List SubidRange) (rs : List LeaseRecord)
    (valid : All IsRange ranges) where
  start-Separated : Separated 0 (remove own (remove 0 (from_ranges ranges)))
  start-Separated = (remove_exact own _ (remove_exact 0 _ (from_ranges-Separated ranges valid)).0).0

  available-Separated : Separated 0 (available kind own ranges rs)
  unfolding available
  available-Separated = (remove_records-exact kind rs _ 0 start-Separated).0

  start_holds :
      (x : ℕ)
      → holds x (remove own (remove 0 (from_ranges ranges)))
        ≡ (any (λ r. contains r x) ranges && not (x == 0) && not (x == own))
  start_holds x =
      let first = remove_exact 0 (from_ranges ranges) (from_ranges-Separated ranges valid) in
      rw ((remove_exact own _ first.0).1 x, first.1 x, holds-from_ranges x ranges valid)

  -- The intervals left in `claim` hold exactly the free IDs.
  available_iff :
      (x : ℕ) → (holds x (available kind own ranges rs) ≡ true) ↔ IsFree kind own ranges rs x
  unfolding available
  available_iff x =
      let exact = (remove_records-exact kind rs _ x start-Separated).1 in
      (
        λ h.
            let (p, unused) = exact.0 h in
            let q = sym (start_holds x) ∙ p in
            record {
              delegated = ground arith;
              not_root = λ e. ground arith;
              not_own = λ e. ground arith;
              unused = unused;
            },
        λ f. exact.1 (start_holds x ∙ ground arith, f.unused),
      )

  -- `claim` selects the least free ID of the kind.
  pub lowest-available :
      (l : ℕ)
      → lowest (available kind own ranges rs) ≡ some l
      → IsFree kind own ranges rs l × ((x : ℕ) → IsFree kind own ranges rs x → l ≤ x)
  lowest-available l h =
      let (held, least) = lowest-least (available kind own ranges rs) l available-Separated h in
      ((available_iff l).0 held, λ x f. least x ((available_iff x).1 f))

  -- It reports exhaustion only where no ID of the kind is free.
  pub lowest-available-none :
      lowest (available kind own ranges rs) ≡ none → (x : ℕ) → ¬ IsFree kind own ranges rs x
  lowest-available-none h x f =
      let gone = lowest-none (available kind own ranges rs) h x in
      let held = (available_iff x).1 f in cc

-- The records share no UID, GID or sandbox.
abbrev pub Apart : List LeaseRecord → Type 0
Apart [] = Unit {0}
Apart (r ∷ rs) = All (IsFresh r) rs × Apart rs

-- A record whose IDs are in none of the three sets.
abbrev Unseen : List ℕ → List ℕ → List Bytes → LeaseRecord → Type 0
Unseen us gs ss r =
    (seen us r.uid ≡ false) × (seen gs r.gid ≡ false) × (seen_bytes ss r.sandbox_id ≡ false)

Unseen-split :
    (us gs : List ℕ) (ss : List Bytes) (x r : LeaseRecord)
    → Unseen (x.uid ∷ us) (x.gid ∷ gs) (x.sandbox_id ∷ ss) r ↔ (Unseen us gs ss r × IsFresh x r)
Unseen-split us gs ss x r = (
  λ h. (
    (ground arith, ground arith, ground arith),
    record {
      uid_ne = λ e. ground (arith);
      gid_ne = λ e. ground (arith);
      sandbox_ne = λ e. ground (arith, bytes_eq_iff x.sandbox_id r.sandbox_id);
    },
  ),
  λ h. ground (arith, bytes_eq_iff x.sandbox_id r.sandbox_id),
)

All-Unseen-split :
    (us gs : List ℕ) (ss : List Bytes) (x : LeaseRecord) (rs : List LeaseRecord)
    → All (Unseen (x.uid ∷ us) (x.gid ∷ gs) (x.sandbox_id ∷ ss)) rs
      ↔ (All (Unseen us gs ss) rs × All (IsFresh x) rs)
All-Unseen-split us gs ss x [] = ((λ h. (tt, tt)), (λ h. tt))
All-Unseen-split us gs ss x (r ∷ rs) =
    let (to, from) = Unseen-split us gs ss x r in
    let (all_to, all_from) = All-Unseen-split us gs ss x rs in
    (
      (λ h. (((to h.0).0, (all_to h.1).0), ((to h.0).1, (all_to h.1).1))),
      (λ h. (from (h.0.0, h.1.0), all_from (h.0.1, h.1.1))),
    )

check_unique_iff :
    (us gs : List ℕ) (ss : List Bytes) (rs : List LeaseRecord)
    → (check_unique us gs ss rs ≡ ok tt) ↔ (All (Unseen us gs ss) rs × Apart rs)
unfolding check_unique
check_unique_iff us gs ss [] = ((λ h. (tt, tt)), (λ h. refl))
check_unique_iff us gs ss (r ∷ rs) =
    let (to, from) = All-Unseen-split us gs ss r rs in
    let (rest_to, rest_from) = check_unique_iff (r.uid ∷ us) (r.gid ∷ gs) (r.sandbox_id ∷ ss) rs in
    (
      (λ h.
          let unseen : Unseen us gs ss r = ground arith in
          let rest = rest_to (ground arith) in ((unseen, (to rest.0).0), ((to rest.0).1, rest.1))),
      (λ h.
          let unseen = h.0.0 in let rest = rest_from (from (h.0.1, h.1.0), h.1.1) in ground arith),
    )

Apart-All : (rs : List LeaseRecord) → All (Unseen [] [] []) rs
Apart-All [] = tt
Apart-All (r ∷ rs) = ((refl, refl, refl), Apart-All rs)

-- `validate_uniqueness` accepts exactly the ledgers in which no UID, GID or sandbox stands twice.
pub validate_uniqueness_iff : (rs : List LeaseRecord) → (validate_uniqueness rs ≡ ok tt) ↔ Apart rs
unfolding validate_uniqueness
validate_uniqueness_iff rs =
    let (to, from) = check_unique_iff [] [] [] rs in
    ((λ h. (to h).1), (λ h. from (Apart-All rs, h)))
