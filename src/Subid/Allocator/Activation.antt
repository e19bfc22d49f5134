-- ===== src/Subid/Allocator/Activation.antt =====
-- The acknowledgement of a lease in crates/shbox/src/sandbox/subid/mod.rs: `claim` publishes it as
-- active and notes its token, and `activate` takes the note once.
use shbox.Prelude.{Bool, true, false, not, ◌≡◌, ◌≢◌, refl, sym, subst, arith}
use shbox.Prelude.Bytes.{Bytes}
use shbox.Prelude.Dict.{member, discard, member-discard_self}
use shbox.Subid.Ledger.{
  LeaseRecord, LeaseState, reserved, active, releasing, quarantined, same_incarnation,
}
use shbox.Subid.Ledger as Ledger
use shbox.Subid.Ledger.Interface.{LeaseStore}
use shbox.Subid.Allocator.Monad.{
  Allocator, ok, guard, get, modify, on_store, from_ledger, selection_poisoned, state_conflict,
  missing_lease, not_incarnation, already_active,
}
use shbox.Subid.Allocator.Triple.{
  Post, Triple, bind, given, run_ok, fail-Triple, pure-Triple, guard-Triple, or_fail-Triple,
}
use shbox.Subid.Allocator.{activate, activate_match, mutation_guard, same_record}

-- Nothing is said of a failure.
abbrev Whatever : {S : Type 0} → Allocator S → Type 0
Whatever a = Unit

module _ {S : Type 0} {P : Allocator S → Type 0} where
  get-Triple :
      {A : Type 0} {Q : A → Allocator S → Type 0} (f : Allocator S → A)
      → ((a : Allocator S) → P a → Q (f a) a)
      → Triple P (get f) Q Whatever
  get-Triple f h = record { run = h }

  modify_note-Triple :
      {Q : Allocator S → Type 0} (f : Allocator S → Allocator S)
      → ((a : Allocator S) → P a → Q (f a))
      → Triple P (modify f) (λ _ a. Q a) Whatever
  modify_note-Triple f h = record { run = h }

module _ (st : LeaseStore) (id : Bytes) where
  open st use {State}

  -- Whether the note of the token is there.
  Noted : Bool → Allocator State → Type 0
  Noted t a = member id a.pending_activations ≡ t

  store-Noted :
      {A : Type 0} (t : Bool) (op : State → Ledger.Result A × State)
      → Triple (Noted t) (on_store op) (λ _ a. Noted t a) Whatever
  unfolding Noted
  store-Noted t op = record {
    run = λ a h. after (op a.store).0 (record a { store = (op a.store).1 }) h;
  }
    where
      after :
          {A : Type 0} (r : Ledger.Result A) (a : Allocator State)
          → Noted t a
          → Post (λ _ b. Noted t b) Whatever (from_ledger r) a
      after (Ledger.ok x) a h = h
      after (Ledger.err e) a h = tt

  mutex-Noted :
      (t : Bool) (flag : Allocator State → Bool)
      → Triple
          (Noted t)
          (λ a. guard (not (flag a)) selection_poisoned a)
          (λ _ a. Noted t a)
          Whatever
  mutex-Noted t flag = record { run = λ a h. after (not (flag a)) a h }
    where
      after :
          (b : Bool) (a : Allocator State)
          → Noted t a
          → Post
              (λ _ c. Noted t c)
              Whatever
              (guard b selection_poisoned a).0
              (guard b selection_poisoned a).1
      after true a h = h
      after false a h = tt

  same_record-Noted :
      (t : Bool) (expected : LeaseRecord)
      → Triple (Noted t) (same_record st expected) (λ _ a. Noted t a) Whatever
  unfolding same_record
  same_record-Noted t expected = bind (store-Noted t (st.read expected.lease_id)) λ found.
      bind (or_fail-Triple found (missing_lease expected.lease_id) (λ a h. tt)) λ current.
        given λ _.
          bind
            (guard-Triple (same_incarnation current expected)
              (state_conflict (not_incarnation expected.lease_id)) (λ a h. tt))
            λ _. given λ _. pure-Triple current λ a h. h

  mutation_guard-Noted :
      (t : Bool) → Triple (Noted t) (mutation_guard st) (λ _ a. Noted t a) Whatever
  unfolding mutation_guard
  mutation_guard-Noted t =
      bind (store-Noted t st.lock) λ _. mutex-Noted t (λ a. a.selection_is_poisoned)

module _ (st : LeaseStore) (expected : LeaseRecord) where
  -- An `activate` of an active record takes the note, if it succeeds.
  taken-Noted :
      (t : Bool) (s : LeaseState) (current : LeaseRecord)
      → Triple
          (Noted st expected.lease_id t)
          (activate_match st active s expected current)
          (λ _ a. Noted st expected.lease_id false a)
          Whatever
  unfolding activate_match Noted
  taken-Noted t active current =
      bind (mutex-Noted st expected.lease_id t (λ a. a.pending_is_poisoned)) λ _.
        bind
          (get-Triple {Q = λ _ a. Unit {0}}
            (λ (a : Allocator st.State). member expected.lease_id a.pending_activations)
            (λ a h. tt))
          λ acknowledged.
            bind
              (modify_note-Triple {Q = Noted st expected.lease_id false}
                (λ (a : Allocator st.State). record a {
                  pending_activations = discard expected.lease_id a.pending_activations;
                })
                (λ a h. member-discard_self expected.lease_id a.pending_activations))
              λ _.
                bind
                  (guard-Triple acknowledged (state_conflict (already_active expected.lease_id))
                    (λ a h. tt))
                  λ _. given λ _. pure-Triple current λ a h. h
  taken-Noted t reserved current = fail-Triple _ (λ a h. tt)
  taken-Noted t releasing current = fail-Triple _ (λ a h. tt)
  taken-Noted t quarantined current = fail-Triple _ (λ a h. tt)

  -- It fails where there is none.
  refused-Noted :
      (s : LeaseState) (current : LeaseRecord)
      → Triple
          (Noted st expected.lease_id false)
          (activate_match st active s expected current)
          (λ _ a. ⊥)
          Whatever
  unfolding activate_match Noted
  refused-Noted active current =
      bind (mutex-Noted st expected.lease_id false (λ a. a.pending_is_poisoned)) λ _.
        bind
          (get-Triple {Q = λ t a. Noted st expected.lease_id false a × (t ≡ false)}
            (λ (a : Allocator st.State). member expected.lease_id a.pending_activations)
            (λ a h. (h, h)))
          λ acknowledged. given λ no.
            bind
              (modify_note-Triple {Q = λ a. Unit {0}}
                (λ (a : Allocator st.State). record a {
                  pending_activations = discard expected.lease_id a.pending_activations;
                })
                (λ a h. tt))
              λ _.
                bind
                  (guard-Triple acknowledged (state_conflict (already_active expected.lease_id))
                    (λ a h. tt))
                  λ _. given λ yes. pure-Triple current λ a h. ground (arith, no, yes)
  refused-Noted reserved current = fail-Triple _ (λ a h. tt)
  refused-Noted releasing current = fail-Triple _ (λ a h. tt)
  refused-Noted quarantined current = fail-Triple _ (λ a h. tt)

  activate-Noted :
      (t : Bool)
      → expected.state ≡ active
      → Triple
          (Noted st expected.lease_id t)
          (activate st expected)
          (λ _ a. Noted st expected.lease_id false a)
          Whatever
  unfolding activate
  activate-Noted t is_active = bind (mutation_guard-Noted st expected.lease_id t) λ _.
      bind (same_record-Noted st expected.lease_id t expected) λ current.
        subst
          (λ s.
            Triple (Noted st expected.lease_id t)
              (activate_match st s current.state expected current)
              (λ _ a. Noted st expected.lease_id false a) Whatever)
          (sym is_active) (taken-Noted t current.state current)

  activate_again-Noted :
      expected.state ≡ active
      → Triple (Noted st expected.lease_id false) (activate st expected) (λ _ a. ⊥) Whatever
  unfolding activate
  activate_again-Noted is_active = bind (mutation_guard-Noted st expected.lease_id false) λ _.
      bind (same_record-Noted st expected.lease_id false expected) λ current.
        subst
          (λ s.
            Triple (Noted st expected.lease_id false)
              (activate_match st s current.state expected current) (λ _ a. ⊥) Whatever)
          (sym is_active) (refused-Noted current.state current)

-- Once `activate` has succeeded on a record that is active, a second `activate` of the same record
-- right after it does not succeed, whatever the store answers.
pub activate_once :
    (st : LeaseStore) (a : Allocator st.State) (expected first second : LeaseRecord)
    → expected.state ≡ active
    → (activate st expected a).0 ≡ ok first
    → (activate st expected (activate st expected a).1).0 ≢ ok second
unfolding Noted
activate_once st a expected first second is_active done again =
    run_ok (activate_again-Noted st expected is_active) (activate st expected a).1 second
      (run_ok
        (activate-Noted st expected (member expected.lease_id a.pending_activations) is_active) a
        first refl done)
      again
