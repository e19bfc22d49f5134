-- ===== src/Subid/Allocator/Pool.antt =====
-- crates/shbox/src/sandbox/subid/mod.rs: the pure functions of the allocator, on the loaded records.
use shbox.Prelude.{
  ℕ, ◌+◌, ◌-◌, Bool, true, false, List, [], ◌∷◌, Option, none, some, ◌==◌, if◌then◌else◌, length,
  any,
}
use shbox.Prelude.Bytes.{Bytes, bytes_eq}
use shbox.Subid.Delegation.{SubidRange, ids, contains}
use shbox.Subid.Available.{Interval, from_ranges, remove}
use shbox.Subid.Ledger.{LeaseRecord, LeaseState, reserved, active, releasing, quarantined}
use shbox.Subid.Ledger.Records.{bytes_lt}
use shbox.Subid.Allocator.Monad.{
  PoolCapacity, Result, ok, err, corrupt, uid_twice, gid_twice, sandbox_twice,
}

-- A `HashSet<u32>` as a list.
abbrev pub seen : List ℕ → ℕ → Bool
seen xs x = any (λ y. y == x) xs

abbrev pub seen_bytes : List Bytes → Bytes → Bool
seen_bytes xs x = any (λ y. bytes_eq y x) xs

-- The loop of `validate_uniqueness`, with its three sets.
unfoldable pub check_unique : List ℕ → List ℕ → List Bytes → List LeaseRecord → Result (Unit {0})
check_unique uids gids sandboxes [] = ok tt
check_unique uids gids sandboxes (r ∷ rs) =
    let rest = check_unique (r.uid ∷ uids) (r.gid ∷ gids) (r.sandbox_id ∷ sandboxes) rs in
    if seen uids r.uid
    then err (corrupt (uid_twice r.uid))
    else if seen gids r.gid
    then err (corrupt (gid_twice r.gid))
    else if seen_bytes sandboxes r.sandbox_id
    then err (corrupt (sandbox_twice r.sandbox_id))
    else rest

unfoldable pub validate_uniqueness : List LeaseRecord → Result (Unit {0})
unfolding check_unique
validate_uniqueness rs = check_unique [] [] [] rs

-- The lookup index that `load` rebuilds.
unfoldable pub index_of : List LeaseRecord → List (Bytes × Bytes)
index_of [] = []
index_of (r ∷ rs) = (r.sandbox_id, r.lease_id) ∷ index_of rs

-- `collect` into a `BTreeMap<SandboxId, LeaseRecord>`, as the list of its values in key order.
unfoldable pub index_insert : LeaseRecord → List LeaseRecord → List LeaseRecord
unfolding bytes_lt
index_insert r [] = r ∷ []
index_insert r (x ∷ xs) =
    if bytes_eq r.sandbox_id x.sandbox_id
    then r ∷ xs
    else if bytes_lt r.sandbox_id x.sandbox_id
    then r ∷ x ∷ xs
    else x ∷ index_insert r xs

unfoldable pub indexed_from : List LeaseRecord → List LeaseRecord → List LeaseRecord
unfolding index_insert
indexed_from m [] = m
indexed_from m (r ∷ rs) = indexed_from (index_insert r m) rs

-- `BTreeMap::remove` of a sandbox ID, for its value.
unfoldable pub find_sandbox : Bytes → List LeaseRecord → Option LeaseRecord
find_sandbox id [] = none
find_sandbox id (r ∷ rs) = if bytes_eq r.sandbox_id id then some r else find_sandbox id rs

pub data IdKind : Type 0 where
  uid_kind gid_kind : IdKind

unfoldable pub id_of : IdKind → LeaseRecord → ℕ
id_of uid_kind r = r.uid
id_of gid_kind r = r.gid

-- The removals of `claim`: 0, the daemon's own ID, and the ID of every record.
unfoldable pub remove_records : IdKind → List LeaseRecord → List Interval → List Interval
remove_records kind [] m = m
remove_records kind (r ∷ rs) m = remove_records kind rs (remove (id_of kind r) m)

unfoldable pub available : IdKind → ℕ → List SubidRange → List LeaseRecord → List Interval
unfolding remove_records
available kind own ranges records =
    remove_records kind records (remove own (remove 0 (from_ranges ranges)))

abbrev pub same_state : LeaseState → LeaseState → Bool
same_state reserved reserved = true
same_state active active = true
same_state releasing releasing = true
same_state quarantined quarantined = true
same_state _ _ = false

unfoldable pub count_state : LeaseState → List LeaseRecord → ℕ
count_state st [] = 0
count_state st (r ∷ rs) = (if same_state r.state st then 1 else 0) + count_state st rs

unfoldable pub count_delegated : List SubidRange → ℕ
count_delegated [] = 0
count_delegated (r ∷ rs) = length (ids r) + count_delegated rs

unfoldable pub count_used : IdKind → List SubidRange → List LeaseRecord → ℕ
count_used kind ranges [] = 0
count_used kind ranges (r ∷ rs) =
    (if any (λ range. contains range (id_of kind r)) ranges then 1 else 0)
    + count_used kind ranges rs

unfoldable pub capacity : List SubidRange → List LeaseRecord → IdKind → PoolCapacity
unfolding count_state count_delegated count_used
capacity ranges records kind = record {
  delegated = count_delegated ranges;
  free = count_delegated ranges - count_used kind ranges records;
  reserved = count_state reserved records;
  active = count_state active records;
  releasing = count_state releasing records;
  quarantined = count_state quarantined records;
}
