-- ===== src/Subid/Available/Intervals.antt =====
-- `remove` on separated intervals: it takes out its ID and nothing else.
use shbox.Prelude.{
  ℕ, ◌+◌, ◌-◌, ◌≤◌, ◌<◌, ◌≡◌, refl, inl, inr, Bool, false, not, ◌&&◌, List, [], ◌∷◌, none, some,
  ◌==◌, ltb, leb, if◌then◌else◌, arith, any, Option-cases,
}
use shbox.Subid.Available.{Interval, insert, delete, floor, cut_found, remove}

-- Does some interval hold the ID?
abbrev pub holds : ℕ → List Interval → Bool
holds id m = any (λ (i : Interval). leb i.0 id && leb id i.1) m

-- Nonempty intervals in increasing order that do not touch each other's IDs, all at `lo` or above.
abbrev pub Separated : ℕ → List Interval → Type 0
Separated lo [] = Unit {0}
Separated lo ((s, e) ∷ m) = (lo ≤ s) × (s ≤ e) × Separated (e + 1) m

pub Separated-mono : {a b : ℕ} (m : List Interval) → a ≤ b → Separated b m → Separated a m
Separated-mono [] h p = tt
Separated-mono ((s, e) ∷ m) h p = (omega arith, p.1, p.2)

-- The same removal in one pass over the intervals.
pub cut : ℕ → List Interval → List Interval
cut id [] = []
cut id ((s, e) ∷ m) =
    if ltb id s
    then (s, e) ∷ m
    else if ltb e id
    then (s, e) ∷ cut id m
    else if s == e
    then m
    else if id == s
    then (id + 1, e) ∷ m
    else if id == e
    then (s, e - 1) ∷ m
    else (s, id - 1) ∷ (id + 1, e) ∷ m

floor-ge :
    {lo : ℕ} (id : ℕ) (m : List Interval) (f : Interval)
    → Separated lo m
    → floor id m ≡ some f
    → lo ≤ f.0
unfolding floor
floor-ge id [] f p h = cc
floor-ge {lo} id ((s, e) ∷ m) f p h = ground (arith, floor-ge {lo = e + 1} id m f p.2)

-- Below the first key nothing is found.
floor_below : {lo : ℕ} (id : ℕ) (m : List Interval) → Separated lo m → id < lo → floor id m ≡ none
unfolding floor
floor_below id [] p h = refl
floor_below id ((s, e) ∷ m) p h = ground arith

cut_below : {lo : ℕ} (id : ℕ) (m : List Interval) → Separated lo m → id < lo → cut id m ≡ m
unfolding cut
cut_below id [] p h = refl
cut_below id ((s, e) ∷ m) p h = ground arith

-- The work on an interval above the head leaves the head alone.
cut_found-cons :
    (id s e : ℕ) (m : List Interval) (f : Interval)
    → s < f.0
    → f.0 ≤ id
    → cut_found id (some f) ((s, e) ∷ m) ≡ (s, e) ∷ cut_found id (some f) m
unfolding cut_found insert delete
cut_found-cons id s e m (a, b) h k = ground arith

insert_below :
    {lo : ℕ} (k v : ℕ) (m : List Interval) → Separated lo m → k < lo → insert k v m ≡ (k, v) ∷ m
unfolding insert
insert_below k v [] p h = refl
insert_below k v ((s, e) ∷ m) p h = ground arith

-- The interval found is the head: the lookup, the deletion and the insertions stay there.
cut_found-head :
    (id s e : ℕ) (m : List Interval)
    → s ≤ id
    → id ≤ e
    → Separated (e + 1) m
    → cut_found id (some (s, e)) ((s, e) ∷ m) ≡ cut id ((s, e) ∷ m)
unfolding cut_found cut insert delete
cut_found-head id s e m h k p = ground (arith, insert_below {lo = e + 1} (id + 1) e m p)

floor-le : (id : ℕ) (m : List Interval) (f : Interval) → floor id m ≡ some f → f.0 ≤ id
unfolding floor
floor-le id [] f h = cc
floor-le id ((s, e) ∷ m) f h = elim (Option-cases (floor id m)) [
  | inl none_above ↦ ground arith
  | inr (g, found) ↦ ground (arith, floor-le id m g found)
]

-- `remove` finds an interval behind the head exactly where the one-pass removal goes on.
remove-past :
    (id s e : ℕ) (m : List Interval)
    → s ≤ e
    → e < id
    → Separated (e + 1) m
    → remove id ((s, e) ∷ m) ≡ (s, e) ∷ remove id m
unfolding remove floor
remove-past id s e m h k p = elim (Option-cases (floor id m)) [
  | inl last ↦ unfold cut_found in ground arith
  | inr (f, found) ↦ ground (
    arith,
    cut_found-cons id s e m f,
    floor-le id m f found,
    floor-ge {lo = e + 1} id m f p found,
  )
]

remove-below : (id s e : ℕ) (m : List Interval) → id < s → remove id ((s, e) ∷ m) ≡ (s, e) ∷ m
unfolding remove cut_found floor
remove-below id s e m h = ground arith

remove-inside :
    (id s e : ℕ) (m : List Interval)
    → s ≤ id
    → id ≤ e
    → Separated (e + 1) m
    → remove id ((s, e) ∷ m) ≡ cut id ((s, e) ∷ m)
unfolding remove floor
remove-inside id s e m h k p =
    ground (arith, floor_below {lo = e + 1} id m p, cut_found-head id s e m)

pub remove-eq-cut : (lo id : ℕ) (m : List Interval) → Separated lo m → remove id m ≡ cut id m
unfolding cut
remove-eq-cut lo id [] p = unfold remove floor cut_found in refl
remove-eq-cut lo id ((s, e) ∷ m) p = ground (
  arith,
  remove-below id s e m,
  remove-inside id s e m,
  remove-past id s e m p.1,
  p.2,
  remove-eq-cut (e + 1) id m p.2,
)

pub cut-Separated : (lo id : ℕ) (m : List Interval) → Separated lo m → Separated lo (cut id m)
unfolding cut
cut-Separated lo id [] p = tt
cut-Separated lo id ((s, e) ∷ m) p = ground (
  arith,
  cut-Separated (e + 1) id m p.2,
  Separated-mono {a = lo} {b = e + 1} m,
  Separated-mono {a = e - 1 + 1} {b = e + 1} m,
)

-- Below its bound a separated list holds nothing.
pub holds_below : (lo x : ℕ) (m : List Interval) → Separated lo m → x < lo → holds x m ≡ false
holds_below lo x [] p h = refl
holds_below lo x ((s, e) ∷ m) p h = ground (arith, holds_below (e + 1) x m p.2)

pub holds-cut :
    (lo id x : ℕ) (m : List Interval)
    → Separated lo m
    → holds x (cut id m) ≡ (holds x m && not (x == id))
unfolding cut
holds-cut lo id x [] p = refl
holds-cut lo id x ((s, e) ∷ m) p =
    ground (arith, holds-cut (e + 1) id x m p.2, holds_below (e + 1) x m p.2)
