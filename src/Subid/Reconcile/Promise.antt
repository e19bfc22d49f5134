-- ===== src/Subid/Reconcile/Promise.antt =====
-- What startup reconciliation promises of one lease, said of the sandbox that the scan found and not
-- of the arms of the code, and the proof that the table of the arms keeps it.
use shbox.Prelude.{
  ◌≡◌, ◌≢◌, refl, subst, Bool, true, false, Option, none, some, ◌⊎◌, inl, inr, arith,
}
use shbox.Prelude.Bytes.{Bytes, bytes_eq_iff}
use shbox.Subid.Ledger.{
  LeaseRecord, LeaseState, reserved, active, releasing, quarantined, with_state,
}
use shbox.Subid.Reconcile.Verdict.{Fate, InQuarantine}
use shbox.Subid.Reconcile.{
  SandboxView, is_active, is_deleting, is_corrupt, Standing, absent, owned, foreign, broken,
  standing,
}

-- The sandbox is there, active or in deletion, under this owner.
abbrev pub IsOwnedBy : Bytes → Option SandboxView → Type 0
IsOwnedBy owner view = (view ≡ some (is_active owner)) ⊎ (view ≡ some (is_deleting owner))

-- The sandbox is there under another owner, or its record is corrupt.
abbrev pub Contradicts : LeaseRecord → Option SandboxView → Type 0
Contradicts r view =
    ((owner : Bytes) × (owner ≢ r.owner) × IsOwnedBy owner view)
    ⊎ ((reason : Bytes) × (view ≡ some (is_corrupt reason)))

-- What becomes of the lease, by its state and what was found of its sandbox.
pub record Settles (proof : Bool) (r : LeaseRecord) (view : Option SandboxView)
    (now : Option LeaseRecord) : Type 0 where
  pub reserved_owned :
      r.state ≡ reserved → IsOwnedBy r.owner view → now ≡ some (with_state r active)
  pub reserved_absent : r.state ≡ reserved → view ≡ none → now ≡ none
  pub active_owned : r.state ≡ active → IsOwnedBy r.owner view → now ≡ some r
  pub active_absent : r.state ≡ active → view ≡ none → InQuarantine r now
  pub releasing_owned : r.state ≡ releasing → IsOwnedBy r.owner view → now ≡ some r
  pub releasing_proven : r.state ≡ releasing → view ≡ none → proof ≡ true → now ≡ none
  pub releasing_unproven : r.state ≡ releasing → view ≡ none → proof ≡ false → now ≡ some r
  pub contradicted : r.state ≢ quarantined → Contradicts r view → InQuarantine r now
  pub kept_in_quarantine : r.state ≡ quarantined → now ≡ some r

standing-owned :
    (r : LeaseRecord) (view : Option SandboxView) → IsOwnedBy r.owner view → standing r view ≡ owned
unfolding standing
standing-owned r view (inl e) = rw (e, (bytes_eq_iff r.owner r.owner).1 refl) refl
standing-owned r view (inr e) = rw (e, (bytes_eq_iff r.owner r.owner).1 refl) refl

-- The arms of a contradiction.
abbrev IsAgainst : Standing → Type 0
IsAgainst s = (s ≡ foreign) ⊎ ((reason : Bytes) × (s ≡ broken reason))

standing-IsAgainst :
    (r : LeaseRecord) (view : Option SandboxView) → Contradicts r view → IsAgainst (standing r view)
unfolding standing
standing-IsAgainst r view (inl (owner, ne, inl e)) =
    inl (ground (arith, e, ne, bytes_eq_iff owner r.owner))
standing-IsAgainst r view (inl (owner, ne, inr e)) =
    inl (ground (arith, e, ne, bytes_eq_iff owner r.owner))
standing-IsAgainst r view (inr (reason, e)) = inr (reason, rw e refl)

against-InQuarantine :
    (proof : Bool) (r : LeaseRecord) (state : LeaseState) (s : Standing) (now : Option LeaseRecord)
    → state ≢ quarantined
    → IsAgainst s
    → Fate proof state s r now
    → InQuarantine r now
against-InQuarantine proof r reserved foreign now ne against fate = fate
against-InQuarantine proof r reserved (broken reason) now ne against fate = fate
against-InQuarantine proof r active foreign now ne against fate = fate
against-InQuarantine proof r active (broken reason) now ne against fate = fate
against-InQuarantine proof r releasing foreign now ne against fate = fate
against-InQuarantine proof r releasing (broken reason) now ne against fate = fate
against-InQuarantine proof r quarantined s now ne against fate = absurd (ne refl)
against-InQuarantine proof r state absent now ne (inl e) fate = absurd (cc)
against-InQuarantine proof r state absent now ne (inr (reason, e)) fate = absurd (cc)
against-InQuarantine proof r state owned now ne (inl e) fate = absurd (cc)
against-InQuarantine proof r state owned now ne (inr (reason, e)) fate = absurd (cc)

quarantined_kept :
    (proof : Bool) (r : LeaseRecord) (s : Standing) (now : Option LeaseRecord)
    → Fate proof quarantined s r now
    → now ≡ some r
quarantined_kept proof r absent now fate = fate
quarantined_kept proof r owned now fate = fate
quarantined_kept proof r foreign now fate = fate
quarantined_kept proof r (broken reason) now fate = fate

module _ (proof : Bool) (r : LeaseRecord) (view : Option SandboxView) (now : Option LeaseRecord)
    (fate : Fate proof r.state (standing r view) r now) where
  -- The entry of the table at a state and a standing that are known.
  entry_at :
      (state : LeaseState) (s : Standing)
      → r.state ≡ state
      → standing r view ≡ s
      → Fate proof state s r now
  entry_at state s e f =
      subst (λ t. Fate proof t s r now) e (subst (λ u. Fate proof r.state u r now) f fate)

  standing-absent : view ≡ none → standing r view ≡ absent
  unfolding standing
  standing-absent e = rw e refl

  unproven : (p : Bool) → p ≡ true → Fate p releasing absent r now → now ≡ none
  unproven true e h = h
  unproven false e h = absurd (cc)

  kept_unproven : (p : Bool) → p ≡ false → Fate p releasing absent r now → now ≡ some r
  kept_unproven false e h = h
  kept_unproven true e h = absurd (cc)

  pub Fate-Settles : Settles proof r view now
  Fate-Settles = record {
    reserved_owned = λ e o. entry_at reserved owned e (standing-owned r view o);
    reserved_absent = λ e o. entry_at reserved absent e (standing-absent o);
    active_owned = λ e o. entry_at active owned e (standing-owned r view o);
    active_absent = λ e o. entry_at active absent e (standing-absent o);
    releasing_owned = λ e o. entry_at releasing owned e (standing-owned r view o);
    releasing_proven = λ e o p. unproven proof p (entry_at releasing absent e (standing-absent o));
    releasing_unproven =
        λ e o p. kept_unproven proof p (entry_at releasing absent e (standing-absent o));
    contradicted = λ ne c.
        against-InQuarantine proof r r.state (standing r view) now ne (standing-IsAgainst r view c)
          fate;
    kept_in_quarantine =
        λ e. quarantined_kept proof r (standing r view) now (entry_at quarantined _ e refl);
  }
