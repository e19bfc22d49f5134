-- ===== src/Engine/Rules.antt =====
-- Rule books for crates/shbox-sandbox/src/validate.rs: rules in the order of their precedence, each
-- with the error that reports its violation.
use shbox.Prelude.{Bool, true, false, ◌≡◌, ◌↔◌, ◌⊎◌, inl, inr, refl, List, [], ◌∷◌, ◌++◌, All}
use shbox.Prelude.Bytes.{Bytes}
use shbox.Engine.Error.{SandboxError, invalid_policy, Reason, Checked, ok, err, ◌>>◌, require, each}

pub record Rule : Type 1 where
  pub holds : Type 0
  pub error : SandboxError

abbrev pub rule : Type 0 → Bytes → Reason → List Rule
rule holds field reason = record { holds = holds; error = invalid_policy field reason } ∷ []

-- The rules of the first book, then those of the second.
infixr 5 ◌+++◌
abbrev pub ◌+++◌ : List Rule → List Rule → List Rule
rs +++ ss = rs ++ ss

-- The rules of every element.
abbrev pub for_each {ℓ} : {A : Type ℓ} → (A → List Rule) → List A → List Rule
for_each rules [] = []
for_each rules (x ∷ xs) = rules x ++ for_each rules xs

abbrev pub Hold : List Rule → Type 0
Hold rules = All (λ (r : Rule). r.holds) rules

-- The error reports the first rule that is violated.
abbrev pub First : List Rule → SandboxError → Type 0
First [] e = ⊥
First (r ∷ rules) e = (¬ r.holds × (e ≡ r.error)) ⊎ (r.holds × First rules e)

abbrev pub Outcome : List Rule → Checked → Type 0
Outcome rules (ok _) = Hold rules
Outcome rules (err e) = First rules e

-- A check accepts where all rules hold, and reports the first violation otherwise.
pub record Judged (rules : List Rule) (m : Checked) : Type 0 where
  pub outcome : Outcome rules m

Hold-append : (rs ss : List Rule) → Hold rs → Hold ss → Hold (rs ++ ss)
Hold-append [] ss h k = k
Hold-append (r ∷ rs) ss h k = (h.0, Hold-append rs ss h.1 k)

First-left : (rs ss : List Rule) (e : SandboxError) → First rs e → First (rs ++ ss) e
First-left [] ss e h = absurd h
First-left (r ∷ rs) ss e (inl h) = inl h
First-left (r ∷ rs) ss e (inr h) = inr (h.0, First-left rs ss e h.1)

First-right : (rs ss : List Rule) (e : SandboxError) → Hold rs → First ss e → First (rs ++ ss) e
First-right [] ss e h k = k
First-right (r ∷ rs) ss e h k = inr (h.0, First-right rs ss e h.1 k)

Outcome-require :
    (t : Bool) (holds : Type 0) (field : Bytes) (reason : Reason)
    → (t ≡ true) ↔ holds
    → Outcome (rule holds field reason) (require t field reason)
Outcome-require true holds field reason h = (h.0 refl, tt)
Outcome-require false holds field reason h = inl (λ k. let never = h.1 k in cc, refl)

pub Judged-require :
    {t : Bool} {holds : Type 0} {field : Bytes} {reason : Reason}
    → (t ≡ true) ↔ holds
    → Judged (rule holds field reason) (require t field reason)
Judged-require {t} {holds} {field} {reason} h = record {
  outcome = Outcome-require t holds field reason h;
}

Outcome-both :
    (rs ss : List Rule) (m k : Checked) → Outcome rs m → Outcome ss k → Outcome (rs ++ ss) (m >> k)
Outcome-both rs ss (ok _) (ok _) h g = Hold-append rs ss h g
Outcome-both rs ss (ok _) (err e) h g = First-right rs ss e h g
Outcome-both rs ss (err e) k h g = First-left rs ss e h

pub Judged-both :
    {rs ss : List Rule} {m k : Checked} → Judged rs m → Judged ss k → Judged (rs ++ ss) (m >> k)
Judged-both {rs} {ss} {m} {k} h g = record { outcome = Outcome-both rs ss m k h.outcome g.outcome }

-- Where there is no rule.
pub Judged-nil : Judged [] (ok tt)
Judged-nil = record { outcome = tt }

pub Judged-each {ℓ} :
    {A : Type ℓ} {rules : A → List Rule} {f : A → Checked}
    → ((x : A) → Judged (rules x) (f x))
    → (xs : List A) → Judged (for_each rules xs) (each f xs)
Judged-each h [] = Judged-nil
Judged-each h (x ∷ xs) = Judged-both (h x) (Judged-each h xs)

Hold-First : (rules : List Rule) (e : SandboxError) → Hold rules → First rules e → ⊥
Hold-First [] e h g = g
Hold-First (r ∷ rules) e h (inl g) = g.0 h.0
Hold-First (r ∷ rules) e h (inr g) = Hold-First rules e h.1 g.1

Outcome-iff : (rules : List Rule) (m : Checked) → Outcome rules m → (m ≡ ok tt) ↔ Hold rules
Outcome-iff rules (ok _) h = (λ e. h, λ k. refl)
Outcome-iff rules (err e) h = (λ g. cc, λ k. absurd (Hold-First rules e k h))

-- A judged check accepts exactly where all rules hold.
pub Judged-iff : {rules : List Rule} {m : Checked} → Judged rules m → (m ≡ ok tt) ↔ Hold rules
Judged-iff {rules} {m} h = Outcome-iff rules m h.outcome
