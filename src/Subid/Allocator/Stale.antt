-- ===== src/Subid/Allocator/Stale.antt =====
-- Stale callers: a method that is given a record which is not the current one of its incarnation
-- fails and changes no record.
use shbox.Prelude.{All, ◌≡◌, refl, List, [], ◌∷◌, ◌⊎◌}
use shbox.Prelude.Bytes.{Bytes}
use shbox.Subid.Ledger.{LeaseRecord, active, reserved, releasing}
use shbox.Subid.Ledger.Interface.{LeaseStore}
use shbox.Subid.Allocator.Monad.{Allocator, Error, Result, ok, err, M}
use shbox.Subid.Allocator.Triple.{Triple, Post, bind, given}
use shbox.Subid.Allocator.Steps.{At}
use shbox.Subid.Allocator.Effects.{
  IsCurrent, mutation_guard-Triple, same_record-Triple, expected_record-Triple, state_in_one,
  state_in_two,
}
use shbox.Subid.Allocator.{
  begin_release, transition, finish_release, free_reserved_absent, quarantine, activate,
}

module _ (st : LeaseStore) (rs : List LeaseRecord) (expected : LeaseRecord) where
  open st use {State, records}

  -- The method failed, and the records are those from before.
  pub record Refused {A : Type 0} (r : Result A) (a : Allocator State) : Type 0 where
    pub error : Error
    pub failed : r ≡ err error
    pub same_records : At st rs a

  refused :
      {A : Type 0} (r : Result A) (a : Allocator State)
      → Post (λ _ _. ⊥) (At st rs) r a
      → Refused r a
  refused (ok x) a h = absurd h
  refused (err e) a h = record { error = e; failed = refl; same_records = h }

  -- A method that cannot succeed and changes nothing where it fails.
  abbrev Refuses : {A : Type 0} → M State A → Type 0
  Refuses m = Triple (At st rs) m (λ _ _. ⊥) (At st rs)

  module _ (stale : (current : LeaseRecord) → ¬ IsCurrent expected current rs) where
    activate-Refuses : Refuses (activate st expected)
    unfolding activate
    activate-Refuses =
        bind (mutation_guard-Triple st rs) λ _.
          bind (same_record-Triple st rs expected) λ current. given λ c. absurd (stale current c)

    quarantine-Refuses : (reason : Bytes) → Refuses (quarantine st expected reason)
    unfolding quarantine
    quarantine-Refuses reason =
        bind (mutation_guard-Triple st rs) λ _.
          bind (same_record-Triple st rs expected) λ current. given λ c. absurd (stale current c)

  module _
      (stale : (current : LeaseRecord)
        → IsCurrent expected current rs
        → ¬ (current.state ≡ releasing)) where
    finish_release-Refuses : Refuses (finish_release st expected)
    unfolding finish_release
    finish_release-Refuses = bind (mutation_guard-Triple st rs) λ _.
        bind (expected_record-Triple st rs expected (releasing ∷ [])) λ current.
          given λ (c, s). absurd (stale current c (state_in_one current.state releasing s))

  module _
      (stale : (current : LeaseRecord)
        → IsCurrent expected current rs
        → ¬ (current.state ≡ reserved)) where
    free_reserved_absent-Refuses : Refuses (free_reserved_absent st expected)
    unfolding free_reserved_absent
    free_reserved_absent-Refuses = bind (mutation_guard-Triple st rs) λ _.
        bind (expected_record-Triple st rs expected (reserved ∷ [])) λ current.
          given λ (c, s). absurd (stale current c (state_in_one current.state reserved s))

  module _
      (stale : (current : LeaseRecord)
        → IsCurrent expected current rs
        → ¬ ((current.state ≡ active) ⊎ (current.state ≡ reserved))) where
    begin_release-Refuses : Refuses (begin_release st expected)
    unfolding begin_release transition
    begin_release-Refuses =
        bind {Q = λ _ _. ⊥}
          (bind (mutation_guard-Triple st rs) λ _.
            bind (expected_record-Triple st rs expected (active ∷ reserved ∷ [])) λ current.
              given
                λ (c, s). absurd (stale current c (state_in_two current.state active reserved s)))
          λ _. record { run = λ a h. absurd h }

-- A caller whose record is not the current one of its incarnation (the lease was released, or its
-- lease ID now names other IDs, another sandbox or another owner) is refused by each of the five
-- methods that take an expected record, and the records on disk stay as they are, where the ledger
-- can store each of them.
pub stale-Refused :
    (st : LeaseStore) (expected : LeaseRecord) (reason : Bytes) (a : Allocator st.State)
    → All st.IsStorable (st.records a.store)
    → ((current : LeaseRecord) → ¬ IsCurrent expected current (st.records a.store))
    → Refused st (st.records a.store) expected (activate st expected a).0 (activate st expected a).1
      × Refused st
          (st.records a.store)
          expected
          (begin_release st expected a).0
          (begin_release st expected a).1
      × Refused st
          (st.records a.store)
          expected
          (finish_release st expected a).0
          (finish_release st expected a).1
      × Refused st
          (st.records a.store)
          expected
          (free_reserved_absent st expected a).0
          (free_reserved_absent st expected a).1
      × Refused st
          (st.records a.store)
          expected
          (quarantine st expected reason a).0
          (quarantine st expected reason a).1
stale-Refused st expected reason a sound stale =
    let rs = st.records a.store in
    (
      refused st rs expected _ _ ((activate-Refuses st rs expected stale).run a (refl, sound)),
      refused st rs expected _ _ (
          (begin_release-Refuses st rs expected (λ current c _. stale current c)).run a
            (refl, sound)),
      refused st rs expected _ _ (
          (finish_release-Refuses st rs expected (λ current c _. stale current c)).run a
            (refl, sound)),
      refused st rs expected _ _ (
          (free_reserved_absent-Refuses st rs expected (λ current c _. stale current c)).run a
            (refl, sound)),
      refused st rs expected _ _
          ((quarantine-Refuses st rs expected stale reason).run a (refl, sound)),
    )

-- A release is not finished, and no record is removed, unless the lease is `releasing`; a
-- reservation is not freed as absent unless it is `reserved`, where the ledger can store each record
-- on file.
pub removal_needs_state :
    (st : LeaseStore) (expected : LeaseRecord) (a : Allocator st.State)
    → All st.IsStorable (st.records a.store)
    → (((current : LeaseRecord)
          → IsCurrent expected current (st.records a.store)
          → ¬ (current.state ≡ releasing))
        → Refused st
            (st.records a.store)
            expected
            (finish_release st expected a).0
            (finish_release st expected a).1)
      × (((current : LeaseRecord)
            → IsCurrent expected current (st.records a.store)
            → ¬ (current.state ≡ reserved))
          → Refused st
              (st.records a.store)
              expected
              (free_reserved_absent st expected a).0
              (free_reserved_absent st expected a).1)
removal_needs_state st expected a sound =
    let rs = st.records a.store in
    (
      (λ h.
          refused st rs expected _ _
            ((finish_release-Refuses st rs expected h).run a (refl, sound))),
      (λ h.
          refused st rs expected _ _
            ((free_reserved_absent-Refuses st rs expected h).run a (refl, sound))),
    )
