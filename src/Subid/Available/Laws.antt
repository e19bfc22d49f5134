-- ===== src/Subid/Available/Laws.antt =====
-- The contract of `AvailableIds` for the allocator: which IDs are left, and which is the lowest.
use shbox.Prelude.{
  ℕ, ◌+◌, ◌≤◌, ◌≡◌, refl, true, false, not, ◌&&◌, List, [], ◌∷◌, none, some, ◌==◌, arith,
}
use shbox.Subid.Available.Intervals.{holds, Separated, remove-eq-cut, cut-Separated, holds-cut}
use shbox.Subid.Available.{Interval, remove, lowest}

remove-Separated : (id : ℕ) (m : List Interval) → Separated 0 m → Separated 0 (remove id m)
remove-Separated id m p = rw (remove-eq-cut 0 id m p) (cut-Separated 0 id m p)

-- On separated intervals `remove` leaves them separated and takes out its ID alone.
pub remove_exact :
    (id : ℕ) (m : List Interval)
    → Separated 0 m
    → Separated 0 (remove id m) × ((x : ℕ) → holds x (remove id m) ≡ (holds x m && not (x == id)))
remove_exact id m p =
    (remove-Separated id m p, λ x. rw (remove-eq-cut 0 id m p) (holds-cut 0 id x m p))

holds_ge : (lo x : ℕ) (m : List Interval) → Separated lo m → holds x m ≡ true → lo ≤ x
holds_ge lo x [] p h = cc
holds_ge lo x ((s, e) ∷ m) p h = ground (arith, holds_ge (e + 1) x m p.2)

-- `lowest` is the least ID that the intervals hold.
pub lowest-least :
    (m : List Interval) (l : ℕ)
    → Separated 0 m
    → lowest m ≡ some l
    → (holds l m ≡ true) × ((x : ℕ) → holds x m ≡ true → l ≤ x)
unfolding lowest
lowest-least [] l p h = cc
lowest-least ((s, e) ∷ m) l p h = (ground arith, λ x k. ground (arith, holds_ge (e + 1) x m p.2))

-- It is absent only where nothing is held.
pub lowest-none : (m : List Interval) → lowest m ≡ none → (x : ℕ) → holds x m ≡ false
unfolding lowest
lowest-none [] h x = refl
lowest-none ((s, e) ∷ m) h x = cc
