-- ===== src/Tests/Ranges.antt =====
-- Delegated ranges and free intervals on concrete values.
use shbox.Prelude.{
  ℕ, ◌+◌, ◌≤◌, ◌<◌, ◌≡◌, ◌↔◌, refl, true, false, not, ◌&&◌, List, [], ◌∷◌, arith, any, ◌==◌,
}
use shbox.Subid.Delegation.{SubidRange, ok, new, contains, range_end, u32_mod}
use shbox.Subid.Delegation.Bounds.{new_iff, new_empty_iff, new_wraps}
use shbox.Subid.Available.{Interval, from_ranges, remove, lowest}
use shbox.Subid.Available.Intervals.{holds, Separated}
use shbox.Subid.Available.Merge.{holds-from_ranges}
use shbox.Subid.Available.Laws.{remove_exact, lowest-least}

abbrev ten : SubidRange
ten = record { start = 100000; count = 10 }

new_iff_example : (new 100000 10 ≡ ok ten) ↔ ((0 < 10) × (100000 + 10 ≤ u32_mod) × (ten ≡ ten))
new_iff_example = new_iff 100000 10 ten (omega arith) (omega arith)

new_empty_iff_example :
    ((r : SubidRange) × (new 0 u32_mod ≡ ok r) × ((id : ℕ) → contains r id ≡ false))
    ↔ (◌≡◌ {A = ℕ} 0 0 × (u32_mod ≡ u32_mod))
new_empty_iff_example = new_empty_iff 0 u32_mod (omega arith)

new_wraps_example :
    (r : SubidRange) × (new 5 0xffff_ffff_ffff_fffc ≡ ok r) × (u32_mod < range_end r)
new_wraps_example = new_wraps 5 0xffff_ffff_ffff_fffc (omega arith) (omega arith) (omega arith)

abbrev two_ranges : List SubidRange
two_ranges = record { start = 20; count = 5 } ∷ record { start = 10; count = 10 } ∷ []

holds-from_ranges_example : holds 19 (from_ranges two_ranges) ≡ any (λ r. contains r 19) two_ranges
holds-from_ranges_example = holds-from_ranges 19 two_ranges (omega arith)

abbrev intervals : List Interval
intervals = (10, 24) ∷ (30, 30) ∷ []

remove_exact_example :
    Separated 0 (remove 12 intervals)
    × ((x : ℕ) → holds x (remove 12 intervals) ≡ (holds x intervals && not (x == 12)))
remove_exact_example = remove_exact 12 intervals (omega arith)

lowest-least_example : (holds 10 intervals ≡ true) × ((x : ℕ) → holds x intervals ≡ true → 10 ≤ x)
lowest-least_example = lowest-least intervals 10 (omega arith) (unfold lowest in refl)
