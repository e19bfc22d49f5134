-- ===== src/Subid/Available/Merge.antt =====
-- `from_ranges`: sorting, merging and collecting keep the set of IDs and separate the intervals.
use mathlib.Core.List.{append_assoc, append-nil}
use shbox.Prelude.{
  ℕ, ◌+◌, ◌≤◌, ◌<◌, ◌≡◌, refl, ap₂, ◌∙◌, sym, ◌&&◌, ◌||◌, List, [], ◌∷◌, ◌++◌, map, max, leb, arith,
  any, All,
}
use shbox.Subid.Delegation.{SubidRange, contains, u32_max}
use shbox.Subid.Delegation.Bounds.{IsRange, length-ids}
use shbox.Subid.Available.Intervals.{holds, Separated}
use shbox.Subid.Available.{
  Interval, insert, sort_insert, sort, merge_from, merge, collect, interval, from_ranges,
}

abbrev IsInterval : Interval → Type 0
IsInterval i = (i.0 ≤ i.1) × (i.1 ≤ u32_max)

-- Intervals in the order of their starts.
abbrev Ordered : ℕ → List Interval → Type 0
Ordered lo [] = Unit {0}
Ordered lo ((s, e) ∷ m) = (lo ≤ s) × (s ≤ e) × (e ≤ u32_max) × Ordered s m

Ordered-mono : {a b : ℕ} (m : List Interval) → a ≤ b → Ordered b m → Ordered a m
Ordered-mono [] h p = tt
Ordered-mono ((s, e) ∷ m) h p = (omega arith, p.1, p.2, p.3)

sort_insert-Ordered :
    (lo s e : ℕ) (m : List Interval)
    → lo ≤ s
    → IsInterval (s, e)
    → Ordered lo m
    → Ordered lo (sort_insert (s, e) m)
unfolding sort_insert
sort_insert-Ordered lo s e [] h w p = ground arith
sort_insert-Ordered lo s e ((t, f) ∷ m) h w p =
    ground (arith, sort_insert-Ordered t s e m, p.3, Ordered-mono {a = s} {b = t} m)

sort-Ordered : (m : List Interval) → All IsInterval m → Ordered 0 (sort m)
unfolding sort
sort-Ordered [] w = tt
sort-Ordered ((s, e) ∷ m) w =
    sort_insert-Ordered 0 s e (sort m) (omega arith) w.0 (sort-Ordered m w.1)

holds-sort_insert :
    (x s e : ℕ) (m : List Interval) → holds x (sort_insert (s, e) m) ≡ holds x ((s, e) ∷ m)
unfolding sort_insert
holds-sort_insert x s e [] = refl
holds-sort_insert x s e ((t, f) ∷ m) = ground (arith, holds-sort_insert x s e m)

holds-sort : (x : ℕ) (m : List Interval) → holds x (sort m) ≡ holds x m
unfolding sort
holds-sort x [] = refl
holds-sort x ((s, e) ∷ m) = ground (arith, holds-sort_insert x s e (sort m), holds-sort x m)

holds-merge_from :
    (x s e : ℕ) (m : List Interval)
    → s ≤ e
    → Ordered s m
    → holds x (merge_from (s, e) m) ≡ holds x ((s, e) ∷ m)
unfolding merge_from
holds-merge_from x s e [] h p = refl
holds-merge_from x s e ((t, f) ∷ m) h p = ground (
  arith,
  holds-merge_from x s (max e f) m,
  holds-merge_from x t f m,
  p.3,
  Ordered-mono {a = s} {b = t} m,
)

merge_from-Separated :
    (lo s e : ℕ) (m : List Interval)
    → lo ≤ s
    → s ≤ e
    → e ≤ u32_max
    → Ordered s m
    → Separated lo (merge_from (s, e) m)
unfolding merge_from
merge_from-Separated lo s e [] h k u p = (h, k, tt)
merge_from-Separated lo s e ((t, f) ∷ m) h k u p = ground (
  arith,
  merge_from-Separated lo s (max e f) m,
  merge_from-Separated (e + 1) t f m,
  p.3,
  Ordered-mono {a = s} {b = t} m,
)

holds-merge : (x : ℕ) (m : List Interval) → Ordered 0 m → holds x (merge m) ≡ holds x m
unfolding merge
holds-merge x [] p = refl
holds-merge x ((s, e) ∷ m) p = holds-merge_from x s e m p.1 p.3

merge-Separated : (m : List Interval) → Ordered 0 m → Separated 0 (merge m)
unfolding merge
merge-Separated [] p = tt
merge-Separated ((s, e) ∷ m) p = merge_from-Separated 0 s e m (omega arith) p.1 p.2 p.3

-- Every interval of the list ends below the bound.
abbrev EndsBelow : ℕ → List Interval → Type 0
EndsBelow hi m = All (λ (i : Interval). i.0 < hi) m

EndsBelow-concat :
    (hi s e : ℕ) (m : List Interval) → EndsBelow s m → s < hi → EndsBelow hi (m ++ (s, e) ∷ [])
EndsBelow-concat hi s e [] p h = (h, tt)
EndsBelow-concat hi s e (i ∷ m) p h = (omega arith, EndsBelow-concat hi s e m p.1 h)

-- A key past all others goes to the end.
insert_last : (s e : ℕ) (m : List Interval) → EndsBelow s m → insert s e m ≡ m ++ (s, e) ∷ []
unfolding insert
insert_last s e [] p = refl
insert_last s e ((t, f) ∷ m) p = ground (arith, insert_last s e m p.1)

EndsBelow-mono : {a b : ℕ} (m : List Interval) → a ≤ b → EndsBelow a m → EndsBelow b m
EndsBelow-mono [] h p = tt
EndsBelow-mono (i ∷ m) h p = (omega arith, EndsBelow-mono m h p.1)

collect_append :
    (lo : ℕ) (xs m : List Interval) → EndsBelow lo m → Separated lo xs → collect xs m ≡ m ++ xs
unfolding collect
collect_append lo [] m p q = sym (append-nil m)
collect_append lo ((s, e) ∷ xs) m p q =
    let below = EndsBelow-mono {a = lo} {b = s} m q.0 p in
    rw (insert_last s e m below) (
      collect_append (e + 1) xs (m ++ (s, e) ∷ [])
        (EndsBelow-concat (e + 1) s e m below (omega arith)) q.2
      ∙ append_assoc m ((s, e) ∷ []) xs)

collect_lem : (xs : List Interval) → Separated 0 xs → collect xs [] ≡ xs
collect_lem xs q = collect_append 0 xs [] tt q

-- The interval of a well-formed range holds the same IDs.
interval-IsInterval : (r : SubidRange) → IsRange r → IsInterval (interval r)
unfolding interval
interval-IsInterval r w = ground (arith, length-ids r)

intervals-All : (rs : List SubidRange) → All IsRange rs → All IsInterval (map interval rs)
intervals-All [] w = tt
intervals-All (r ∷ rs) w = (interval-IsInterval r w.0, intervals-All rs w.1)

holds-interval :
    (x : ℕ) (r : SubidRange)
    → IsRange r
    → (leb (interval r).0 x && leb x (interval r).1) ≡ contains r x
unfolding interval contains
holds-interval x r w = ground (arith, length-ids r)

holds-intervals :
    (x : ℕ) (rs : List SubidRange)
    → All IsRange rs
    → holds x (map interval rs) ≡ any (λ r. contains r x) rs
holds-intervals x [] w = refl
holds-intervals x (r ∷ rs) w = ap₂ ◌||◌ (holds-interval x r w.0) (holds-intervals x rs w.1)

pub from_ranges-merge :
    (rs : List SubidRange) → All IsRange rs → from_ranges rs ≡ merge (sort (map interval rs))
unfolding from_ranges
from_ranges-merge rs w =
    collect_lem (merge (sort (map interval rs))) (
      merge-Separated (sort (map interval rs))
        (sort-Ordered (map interval rs) (intervals-All rs w)))

pub from_ranges-Separated : (rs : List SubidRange) → All IsRange rs → Separated 0 (from_ranges rs)
from_ranges-Separated rs w =
    rw (from_ranges-merge rs w) (
      merge-Separated (sort (map interval rs))
        (sort-Ordered (map interval rs) (intervals-All rs w)))

pub holds-from_ranges :
    (x : ℕ) (rs : List SubidRange)
    → All IsRange rs
    → holds x (from_ranges rs) ≡ any (λ r. contains r x) rs
holds-from_ranges x rs w = rw (from_ranges-merge rs w) (
    holds-merge x (sort (map interval rs)) (sort-Ordered (map interval rs) (intervals-All rs w))
    ∙ holds-sort x (map interval rs)
    ∙ holds-intervals x rs w)
