-- ===== src/Subid/Available.antt =====
-- crates/shbox/src/sandbox/subid/mod.rs: `AvailableIds`, the free intervals of one delegated ID
-- kind. The `BTreeMap<u32, u32>` is the list of its entries in key order.
pub mod Intervals
pub mod Merge
pub mod Laws
use shbox.Prelude.{
  ℕ, ◌+◌, ◌-◌, ◌%◌, Bool, true, false, ◌&&◌, ◌||◌, List, [], ◌∷◌, Option, none, some, map, min, max,
  ◌==◌, ltb, leb, if◌then◌else◌, length, any,
}
use shbox.Subid.Delegation.{SubidRange, ids, u32_max, u32_mod, u64_mod}

abbrev pub Interval : Type 0
Interval = ℕ × ℕ

-- `BTreeMap::insert`
pub insert : ℕ → ℕ → List Interval → List Interval
insert k v [] = (k, v) ∷ []
insert k v ((j, w) ∷ m) =
    if ltb k j then (k, v) ∷ (j, w) ∷ m else if k == j then (k, v) ∷ m else (j, w) ∷ insert k v m

-- `BTreeMap::remove`
pub delete : ℕ → List Interval → List Interval
delete k [] = []
delete k ((j, w) ∷ m) = if k == j then m else (j, w) ∷ delete k m

-- The later of an entry and the last one found behind it.
abbrev pub or_else : Option Interval → Interval → Interval
or_else none e = e
or_else (some f) e = f

-- `BTreeMap::range(..=id).next_back()`: the last entry whose key is at most `id`.
pub floor : ℕ → List Interval → Option Interval
floor id [] = none
floor id ((j, w) ∷ m) = if leb j id then some (or_else (floor id m) (j, w)) else none

-- The order of `(u32, u32)`, by which `sort_unstable` sorts.
abbrev pub before : Interval → Interval → Bool
before (a, b) (c, d) = ltb a c || (a == c && leb b d)

pub sort_insert : Interval → List Interval → List Interval
sort_insert x [] = x ∷ []
sort_insert x (y ∷ ys) = if before x y then x ∷ y ∷ ys else y ∷ sort_insert x ys

pub sort : List Interval → List Interval
unfolding sort_insert
sort [] = []
sort (x ∷ xs) = sort_insert x (sort xs)

-- `u32::saturating_add(1)`
abbrev pub next_saturating : ℕ → ℕ
next_saturating n = min (n + 1) u32_max

-- The interval of a delegated range: `range.start() as u64 + count - 1`, then `as u32`.
pub interval : SubidRange → Interval
interval r =
    let count = length (ids r) in (r.start, (r.start + count + u64_mod - 1) % u64_mod % u32_mod)

-- The loop over the sorted ranges, with `merged.last_mut()` beside the entries already closed.
pub merge_from : Interval → List Interval → List Interval
merge_from last [] = last ∷ []
merge_from (s, e) ((start, end) ∷ rest) =
    let joined = merge_from (s, max e end) rest in
    let apart = (s, e) ∷ merge_from (start, end) rest in
    if leb start (next_saturating e) then joined else apart

pub merge : List Interval → List Interval
unfolding merge_from
merge [] = []
merge (x ∷ xs) = merge_from x xs

-- `merged.into_iter().collect()`
pub collect : List Interval → List Interval → List Interval
unfolding insert
collect [] m = m
collect ((s, e) ∷ xs) m = collect xs (insert s e m)

unfoldable pub from_ranges : List SubidRange → List Interval
unfolding sort merge collect interval
from_ranges ranges = collect (merge (sort (map interval ranges))) []

-- What `remove` does with the interval `[start, end]` that the lookup found.
pub cut_found : ℕ → Option Interval → List Interval → List Interval
unfolding insert delete
cut_found id none m = m
cut_found id (some (start, end)) m =
    if ltb end id
    then m
    else if start == end
    then delete start m
    else if id == start
    then insert (id + 1) end (delete start m)
    else if id == end
    then insert start (end - 1) m
    else insert (id + 1) end (insert start (id - 1) m)

unfoldable pub remove : ℕ → List Interval → List Interval
unfolding cut_found floor
remove id m = cut_found id (floor id m) m

unfoldable pub lowest : List Interval → Option ℕ
lowest [] = none
lowest ((start, end) ∷ m) = some start
