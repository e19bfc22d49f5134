-- ===== src/Subid/Delegation/Bounds.antt =====
-- What `SubidRange::new` accepts, and what the accepted ranges hold.
use shbox.Prelude.{
  ℕ, zero, suc, ◌+◌, ◌-◌, ◌%◌, ◌≤◌, ◌<◌, ◌≡◌, ◌≢◌, ◌↔◌, refl, true, false, length, arith, ap,
}
use shbox.Subid.Delegation.{
  SubidRange, ok, new, contains, ids, ids_from, range_end, u32_max, u32_mod, u64_mod,
}

-- A range whose IDs fit the 32-bit space and that holds at least one.
pub record IsRange (r : SubidRange) : Type 0 where
  pub nonempty : 0 < r.count
  pub fits : range_end r ≤ u32_mod

pub length-ids_from : (start n : ℕ) → length (ids_from start n) ≡ n
length-ids_from start zero = refl
length-ids_from start (suc n) = ap suc (length-ids_from (suc start) n)

pub length-ids : (r : SubidRange) → length (ids r) ≡ r.count
unfolding ids
length-ids r = omega (arith, length-ids_from r.start (range_end r - r.start))

-- Where the 64-bit sum does not wrap and the count is not 2 ^ 32, `new` returns a range exactly for
-- a nonempty range inside the 32-bit space, and then the range of these two numbers.
pub new_iff :
    (start count : ℕ) (r : SubidRange)
    → start + count < u64_mod
    → count ≢ u32_mod
    → (new start count ≡ ok r)
      ↔ ((0 < count) × (start + count ≤ u32_mod) × (r ≡ record { start = start; count = count }))
unfolding new
new_iff start count r h k = (λ p. ground arith, λ p. ground arith)

-- An accepted range that does not hold its own start.
empty_whole :
    (start count : ℕ) (r : SubidRange)
    → start + count < u64_mod
    → new start count ≡ ok r
    → contains r start ≡ false
    → (start ≡ 0) × (count ≡ u32_mod)
unfolding new contains
empty_whole start count r small accepted empty = ground arith

whole_accepted :
    (start count : ℕ)
    → start ≡ 0
    → count ≡ u32_mod
    → new start count ≡ ok (record { start = 0; count = 0 })
unfolding new
whole_accepted start count s c = rw (s, c) refl

nothing_held : (id : ℕ) → contains (record { start = 0; count = 0 }) id ≡ false
unfolding contains
nothing_held id = ground arith

-- Where the 64-bit sum does not wrap, `new` returns a range that holds no ID at all exactly for the
-- whole ID space, 2 ^ 32 IDs from 0.
pub new_empty_iff :
    (start count : ℕ)
    → start + count < u64_mod
    → ((r : SubidRange) × (new start count ≡ ok r) × ((id : ℕ) → contains r id ≡ false))
      ↔ ((start ≡ 0) × (count ≡ u32_mod))
new_empty_iff start count small = (
  λ (r, accepted, empty). empty_whole start count r small accepted (empty start),
  λ (s, c). (record { start = 0; count = 0 }, whole_accepted start count s c, nothing_held),
)

-- A count that wraps the 64-bit sum of a start in range past 2 ^ 64 is accepted too, and the range
-- then ends outside the 32-bit space.
pub new_wraps :
    (start count : ℕ)
    → start ≤ u32_max
    → count < u64_mod
    → u64_mod < start + count
    → (r : SubidRange) × (new start count ≡ ok r) × (u32_mod < range_end r)
unfolding new
new_wraps start count a b c =
    (record { start = start % u32_mod; count = count % u32_mod }, ground arith, omega arith)

-- Membership is the half-open interval.
pub contains_iff :
    (r : SubidRange) (id : ℕ) → (contains r id ≡ true) ↔ ((r.start ≤ id) × (id < range_end r))
unfolding contains
contains_iff r id = ground arith
