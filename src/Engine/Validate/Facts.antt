-- ===== src/Engine/Validate/Facts.antt =====
-- What the tests of crates/shbox-sandbox/src/validate.rs decide.
use shbox.Prelude.{
  ℕ, Bool, true, not, ◌||◌, ◌&&◌, ◌==◌, leb, ltb, ◌≡◌, ◌≢◌, ◌≤◌, ◌↔◌, ◌⊎◌, inl, inr, refl, ap, any,
  List, [], ◌∷◌, All, arith, Bool-cases,
}
use shbox.Prelude.Bytes.{Bytes}
use shbox.Prelude.Integers.{ℤ, pos, negsuc, is_negative, is_below, int_eq, int_eq_iff}
use shbox.Engine.Paths.{Beneath, starts_with_iff}
use shbox.Engine.Policy.{CapabilityPolicy, retain, drop_all, PathRule, SeccompAction}
use shbox.Engine.Validate.{
  Host, is_empty, has_byte, is_seen, decided, SeccompAction-discrete, same_action, retains,
  canonical, covered_by, is_covered,
}

module _ {ℓ} {A : Type ℓ} where
  -- Some element satisfies the predicate.
  abbrev pub Some : (A → Type 0) → List A → Type 0
  Some P [] = ⊥
  Some P (x ∷ xs) = P x ⊎ Some P xs

  any-Some :
      (p : A → Bool) (P : A → Type 0) (f : (x : A) → (p x ≡ true) ↔ P x) (xs : List A)
      → (any p xs ≡ true) ↔ Some P xs
  any-Some p P f [] = (λ e. cc, λ h. absurd h)
  any-Some p P f (x ∷ xs) = elim (Bool-cases (p x)) [
    | inl e ↦ (λ h. inl ((f x).0 e), λ h. rw e refl)
    | inr e ↦ rw e (
      λ h. inr ((any-Some p P f xs).0 h),
      λ h. elim h [ inl k ↦ let holds = (f x).1 k in cc | inr k ↦ (any-Some p P f xs).1 k ],
    )
  ]

  not-any :
      (p : A → Bool) (P : A → Type 0) (f : (x : A) → (not (p x) ≡ true) ↔ P x) (xs : List A)
      → (not (any p xs) ≡ true) ↔ All P xs
  not-any p P f [] = (λ e. tt, λ h. refl)
  not-any p P f (x ∷ xs) = elim (Bool-cases (p x)) [
    | inl e ↦ rw e (λ h. cc, λ h. let fails = (f x).1 h.0 in cc)
    | inr e ↦
        rw e (λ h. ((f x).0 (ap not e), (not-any p P f xs).0 h), λ h. (not-any p P f xs).1 h.1)
  ]

  pub is_empty_iff : (xs : List A) → (not (is_empty xs) ≡ true) ↔ (xs ≢ [])
  is_empty_iff [] = (λ h. cc, λ h. absurd (h refl))
  is_empty_iff (x ∷ xs) = (λ h e. cc, λ h. refl)

differs_iff : (a b : ℕ) → (not (a == b) ≡ true) ↔ (a ≢ b)
differs_iff a b = (λ h e. ground (arith, h, e), λ h. ground (arith, h))

abbrev pub Lacks : ℕ → Bytes → Type 0
Lacks b text = All (λ c. c ≢ b) text

pub has_byte_iff : (b : ℕ) (text : Bytes) → (not (has_byte b text) ≡ true) ↔ Lacks b text
unfolding has_byte
has_byte_iff b text = not-any (λ c. c == b) (λ c. c ≢ b) (λ c. differs_iff c b) text

int_differs_iff : (a b : ℤ) → (not (int_eq a b) ≡ true) ↔ (a ≢ b)
int_differs_iff a b = elim (Bool-cases (int_eq a b)) [
  | inl e ↦ (λ h. cc, λ h. absurd (h ((int_eq_iff a b).0 e)))
  | inr e ↦ (λ h k. let same = (int_eq_iff a b).1 k in cc, λ h. ap not e)
]

pub is_seen_iff : (n : ℤ) (seen : List ℤ) → (not (is_seen n seen) ≡ true) ↔ All (λ m. m ≢ n) seen
unfolding is_seen
is_seen_iff n seen = not-any (λ m. int_eq m n) (λ m. m ≢ n) (λ m. int_differs_iff m n) seen

abbrev pub IsAtLeast : ℕ → ℤ → Type 0
IsAtLeast least (pos n) = least ≤ n
IsAtLeast least (negsuc n) = ⊥

pub is_negative_iff : (n : ℤ) → (not (is_negative n) ≡ true) ↔ IsAtLeast 0 n
unfolding is_negative
is_negative_iff (pos n) = (λ h. omega arith, λ h. refl)
is_negative_iff (negsuc n) = (λ h. cc, λ h. absurd h)

pub is_below_iff : (n : ℤ) (least : ℕ) → (not (is_below n least) ≡ true) ↔ IsAtLeast least n
unfolding is_below
is_below_iff (pos n) least = ground arith
is_below_iff (negsuc n) least = (λ h. cc, λ h. absurd h)

-- The capabilities that are kept are none.
abbrev pub RetainsNone : CapabilityPolicy → Type 0
RetainsNone drop_all = Unit {0}
RetainsNone (retain retained) = retained ≡ []

pub retains_iff : (c : CapabilityPolicy) → (not (retains c) ≡ true) ↔ RetainsNone c
retains_iff drop_all = (λ h. tt, λ h. refl)
retains_iff (retain []) = (λ h. refl, λ h. refl)
retains_iff (retain (x ∷ xs)) = (λ h. cc, λ h. cc)

decided_iff : {P : Type 0} (d : Dec P) → (not (decided d) ≡ true) ↔ (¬ P)
decided_iff (yes p) = (λ h. cc, λ h. absurd (h p))
decided_iff (no f) = (λ h. f, λ h. refl)

pub same_action_iff : (a b : SeccompAction) → (not (same_action a b) ≡ true) ↔ (a ≢ b)
unfolding same_action
same_action_iff a b = decided_iff (SeccompAction-discrete a b)

pub covers_iff :
    (system : Host) (rules : List PathRule) (path : Bytes)
    → (is_covered system rules path ≡ true)
      ↔ Some (λ (rule : PathRule). Beneath path (canonical system rule.path)) rules
unfolding covered_by
covers_iff system rules path =
    any-Some (λ (rule : PathRule). covered_by system path (canonical system rule.path))
      (λ (rule : PathRule). Beneath path (canonical system rule.path))
      (λ (rule : PathRule). starts_with_iff path (canonical system rule.path)) rules

pub no_root_iff : (a b : ℕ) → (not (a == 0 || b == 0) ≡ true) ↔ ((a ≢ 0) × (b ≢ 0))
no_root_iff a b =
    (λ h. ((λ e. ground (arith, h, e)), λ e. ground (arith, h, e)), λ h. ground (arith, h.0, h.1))

pub some_iff : (n : ℕ) → (not (n == 0) ≡ true) ↔ (n ≢ 0)
some_iff n = differs_iff n 0

pub period_iff : (n : ℕ) → ((leb 1000 n && leb n 1000000) ≡ true) ↔ ((1000 ≤ n) × (n ≤ 1000000))
period_iff n = ground arith

pub argument_iff : (n : ℕ) → (not (ltb 5 n) ≡ true) ↔ (n ≤ 5)
argument_iff n = ground arith
