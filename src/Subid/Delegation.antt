-- ===== src/Subid/Delegation.antt =====
-- crates/shbox/src/sandbox/subid/delegation.rs: `SubidRange` and `Delegation`. Sums are those of a
-- release build, so `u64` addition wraps, and `as u32` keeps the low 32 bits.
pub mod Bounds
pub mod Getsubids
pub mod Words
pub mod Output
use shbox.Prelude.{
  ℕ, zero, suc, ◌+◌, ◌-◌, ◌%◌, ◌^◌, Bool, ◌&&◌, List, [], ◌∷◌, ◌==◌, ltb, leb, if◌then◌else◌, any,
}

abbrev pub u32_max : ℕ
u32_max = 0xffff_ffff

abbrev pub u32_mod : ℕ
u32_mod = 0x1_0000_0000

abbrev pub u64_mod : ℕ
u64_mod = 0x1_0000_0000_0000_0000

-- The reasons of `Error::Range`.
pub data RangeError : Type 0 where
  zero_length start_exceeds end_overflows : RangeError

pub data RangeResult (A : Type 0) : Type 0 where
  ok : A → RangeResult A
  err : RangeError → RangeResult A

pub record SubidRange : Type 0 where
  pub start : ℕ
  pub count : ℕ

-- `SubidRange::new`, over `u64` arguments.
unfoldable pub new : ℕ → ℕ → RangeResult SubidRange
new start count =
    let end = (start + count) % u64_mod in
    if count == 0
    then err zero_length
    else if ltb u32_max start
    then err start_exceeds
    else if ltb (u32_max + 1) end
    then err end_overflows
    else ok (record { start = start % u32_mod; count = count % u32_mod })

-- Exclusive end, a `u64`.
abbrev pub range_end : SubidRange → ℕ
range_end r = r.start + r.count

unfoldable pub contains : SubidRange → ℕ → Bool
contains r id = leb r.start id && ltb id (range_end r)

abbrev pub ids_from : ℕ → ℕ → List ℕ
ids_from start zero = []
ids_from start (suc n) = start % u32_mod ∷ ids_from (suc start) n

-- `(self.start as u64..self.end()).map(|id| id as u32)`
unfoldable pub ids : SubidRange → List ℕ
ids r = ids_from r.start (range_end r - r.start)

pub record Delegation : Type 0 where
  pub uid_ranges : List SubidRange
  pub gid_ranges : List SubidRange

unfoldable pub contains_uid : Delegation → ℕ → Bool
contains_uid d uid = any (λ r. contains r uid) d.uid_ranges

unfoldable pub contains_gid : Delegation → ℕ → Bool
contains_gid d gid = any (λ r. contains r gid) d.gid_ranges
