-- ===== src/Subid/Ledger/Order.antt =====
-- Ledgers in the order of their lease IDs: such a list is determined by what is found in it.
use shbox.Prelude.{
  true, false, ◌≡◌, ◌≢◌, ◌⊎◌, inl, inr, refl, sym, ap, ◌∙◌, List, [], ◌∷◌, none, some, arith, All,
  All-map, Bool-cases, ap₂,
}
use shbox.Prelude.Bytes.{Bytes, bytes_eq, bytes_eq_iff}
use shbox.Subid.Ledger.{LeaseRecord}
use shbox.Subid.Ledger.Records.{bytes_lt, find, place, drop_id, put, All-drop_id, find-drop_id}

bytes_lt_irrefl : (a : Bytes) → bytes_lt a a ≡ false
unfolding bytes_lt
bytes_lt_irrefl [] = refl
bytes_lt_irrefl (x ∷ a) = ground (arith, bytes_lt_irrefl a)

bytes_lt_trans : (a b c : Bytes) → bytes_lt a b ≡ true → bytes_lt b c ≡ true → bytes_lt a c ≡ true
unfolding bytes_lt
bytes_lt_trans [] (y ∷ b) (z ∷ c) h k = refl
bytes_lt_trans (x ∷ a) (y ∷ b) (z ∷ c) h k = ground (arith, bytes_lt_trans a b c)
bytes_lt_trans [] [] c h k = cc
bytes_lt_trans [] (y ∷ b) [] h k = cc
bytes_lt_trans (x ∷ a) [] c h k = cc
bytes_lt_trans (x ∷ a) (y ∷ b) [] h k = cc

bytes_lt_total : (a b : Bytes) → bytes_lt a b ≡ false → (bytes_lt b a ≡ true) ⊎ (a ≡ b)
unfolding bytes_lt
bytes_lt_total [] [] h = inr refl
bytes_lt_total [] (y ∷ b) h = cc
bytes_lt_total (x ∷ a) [] h = inl refl
bytes_lt_total (x ∷ a) (y ∷ b) h = ground (arith, bytes_lt_total a b)

abbrev pub Above : Bytes → List LeaseRecord → Type 0
Above id rs = All (λ (x : LeaseRecord). bytes_lt id x.lease_id ≡ true) rs

-- Each lease ID is below those after it.
abbrev pub Ordered : List LeaseRecord → Type 0
Ordered [] = Unit {0}
Ordered (r ∷ rs) = Above r.lease_id rs × Ordered rs

find-Above : (id : Bytes) (rs : List LeaseRecord) → Above id rs → find id rs ≡ none
unfolding find
find-Above id [] h = refl
find-Above id (x ∷ rs) h =
    ground (arith, bytes_lt_irrefl id, bytes_eq_iff x.lease_id id, find-Above id rs h.1)

Above-trans : (a b : Bytes) (rs : List LeaseRecord) → bytes_lt a b ≡ true → Above b rs → Above a rs
Above-trans a b rs h = All-map (λ x k. bytes_lt_trans a b x.lease_id h k) rs

find-head : (x : LeaseRecord) (rs : List LeaseRecord) → find x.lease_id (x ∷ rs) ≡ some x
unfolding find
find-head x rs = ground (arith, bytes_eq_iff x.lease_id x.lease_id)

-- The first of two ordered lists with the same contents cannot stand below the other.
head_not_below :
    (x y : LeaseRecord) (xs ys : List LeaseRecord)
    → Above y.lease_id ys
    → ((id : Bytes) → find id (x ∷ xs) ≡ find id (y ∷ ys))
    → bytes_lt x.lease_id y.lease_id ≡ true
    → ⊥
head_not_below x y xs ys above same h =
    let here = find-head x xs in
    let gone = find-Above x.lease_id (y ∷ ys) (h, Above-trans x.lease_id y.lease_id ys h above) in
    let equal = same x.lease_id in cc

tails_same :
    (x : LeaseRecord) (xs ys : List LeaseRecord)
    → Above x.lease_id xs
    → Above x.lease_id ys
    → ((id : Bytes) → find id (x ∷ xs) ≡ find id (x ∷ ys))
    → (id : Bytes) → find id xs ≡ find id ys
unfolding find
tails_same x xs ys hx hy same id = elim (Bool-cases (bytes_eq x.lease_id id)) [
  | inl e ↦
      let is_id = (bytes_eq_iff x.lease_id id).0 e in
      rw (← is_id) (find-Above x.lease_id xs hx ∙ sym (find-Above x.lease_id ys hy))
  | inr e ↦ ground (arith, same id)
]

heads_same :
    (x y : LeaseRecord) (xs ys : List LeaseRecord)
    → x.lease_id ≡ y.lease_id
    → find x.lease_id (x ∷ xs) ≡ find x.lease_id (y ∷ ys)
    → x ≡ y
unfolding find
heads_same x y xs ys e h =
    ground (arith, bytes_eq_iff x.lease_id x.lease_id, bytes_eq_iff y.lease_id x.lease_id)

-- Two ordered lists in which the same is found are the same.
pub Ordered-ext :
    (xs ys : List LeaseRecord)
    → Ordered xs
    → Ordered ys
    → ((id : Bytes) → find id xs ≡ find id ys)
    → xs ≡ ys
Ordered-ext [] [] ox oy same = refl
Ordered-ext [] (y ∷ ys) ox oy same =
    let here = find-head y ys in let gone = same y.lease_id in unfold find in cc
Ordered-ext (x ∷ xs) [] ox oy same =
    let here = find-head x xs in let gone = same x.lease_id in unfold find in cc
Ordered-ext (x ∷ xs) (y ∷ ys) ox oy same =
    let is_head : x ≡ y = same_head in
    let ys_above : Above x.lease_id ys = rw is_head oy.0 in
    let later : (id : Bytes) → find id xs ≡ find id ys =
      tails_same x xs ys ox.0 ys_above
        (λ id. same id ∙ ap (λ (h : LeaseRecord). find id (h ∷ ys)) (sym is_head)) in
    ap₂ ◌∷◌ is_head (Ordered-ext xs ys ox.1 oy.1 later)
  where
    same_head : x ≡ y
    same_head = elim (Bool-cases (bytes_lt x.lease_id y.lease_id)) [
      | inl h ↦ absurd (head_not_below x y xs ys oy.0 same h)
      | inr h ↦ elim (bytes_lt_total x.lease_id y.lease_id h) [
        | inl k ↦ absurd (head_not_below y x ys xs ox.0 (λ id. sym (same id)) k)
        | inr k ↦ heads_same x y xs ys k (same x.lease_id)
      ]
    ]

pub drop_id-Ordered : (id : Bytes) (rs : List LeaseRecord) → Ordered rs → Ordered (drop_id id rs)
unfolding drop_id
drop_id-Ordered id [] h = tt
drop_id-Ordered id (x ∷ rs) h = ground (
  arith,
  drop_id-Ordered id rs h.1,
  All-drop_id (λ (y : LeaseRecord). bytes_lt x.lease_id y.lease_id ≡ true) id rs h.0,
)

place-Above :
    (id : Bytes) (r : LeaseRecord) (rs : List LeaseRecord)
    → bytes_lt id r.lease_id ≡ true
    → Above id rs
    → Above id (place r rs)
unfolding place
place-Above id r [] h k = (h, tt)
place-Above id r (x ∷ rs) h k = ground (arith, place-Above id r rs h k.1)

find-tail :
    (id : Bytes) (x : LeaseRecord) (rs : List LeaseRecord)
    → find id (x ∷ rs) ≡ none
    → (find id rs ≡ none) × (x.lease_id ≢ id)
unfolding find
find-tail id x rs h = (ground arith, λ e. ground (arith, bytes_eq_iff x.lease_id id))

not_below : (a b : Bytes) → bytes_lt a b ≡ false → b ≢ a → bytes_lt b a ≡ true
not_below a b h ne = elim (bytes_lt_total a b h) [ inl k ↦ k | inr e ↦ absurd (ne (sym e)) ]

-- A record is placed in order where no record has its lease ID.
pub place-Ordered :
    (r : LeaseRecord) (rs : List LeaseRecord)
    → Ordered rs
    → find r.lease_id rs ≡ none
    → Ordered (place r rs)
unfolding place
place-Ordered r [] o h = (tt, tt)
place-Ordered r (x ∷ rs) o h = elim (Bool-cases (bytes_lt r.lease_id x.lease_id)) [
  | inl below ↦ rw below ((below, Above-trans r.lease_id x.lease_id rs below o.0), o)
  | inr stays ↦
      let (later, ne) = find-tail r.lease_id x rs h in
      rw stays (
        place-Above x.lease_id r rs (not_below r.lease_id x.lease_id stays ne) o.0,
        place-Ordered r rs o.1 later,
      )
]

pub put-Ordered : (r : LeaseRecord) (rs : List LeaseRecord) → Ordered rs → Ordered (put r rs)
unfolding put
put-Ordered r rs o =
    place-Ordered r (drop_id r.lease_id rs) (drop_id-Ordered r.lease_id rs o)
      (find-drop_id r.lease_id r.lease_id rs ∙ ground (arith, bytes_eq_iff r.lease_id r.lease_id))
