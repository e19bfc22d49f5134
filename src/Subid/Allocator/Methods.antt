-- ===== src/Subid/Allocator/Methods.antt =====
-- A triple for each method that changes the record of an incarnation: what a success has done, and
-- that a failure has made at most the same lifecycle step.
use shbox.Prelude.{◌≡◌, refl, subst, ◌⊎◌, inl, inr, List, [], ◌∷◌}
use shbox.Prelude.Bytes.{Bytes}
use shbox.Prelude.Dict.{member, discard, delete}
use shbox.Subid.Ledger.{
  LeaseRecord, LeaseState, reserved, active, releasing, with_state, with_quarantine_reason,
}
use shbox.Subid.Ledger.Records.{put, drop_id, find-lease_id}
use shbox.Subid.Ledger.Interface.{LeaseStore}
use shbox.Subid.Allocator.Monad.{Allocator, state_conflict, already_active}
use shbox.Subid.Allocator.Triple.{
  Triple, bind, weaken, given, pure-Triple, fail-Triple, guard-Triple,
}
use shbox.Subid.Allocator.Steps.{
  At, remove-Triple, lock_lease_ids-Triple, lock_pending-Triple, modify-Triple, get-Triple,
}
use shbox.Subid.Allocator.Change.{Change, moves, frees, activates, releases, quarantines}
use shbox.Subid.Allocator.Effects as Effects
use shbox.Subid.Allocator.Effects.{IsCurrent, current_found, state_in_one, state_in_two}
use shbox.Subid.Allocator.{
  transition, begin_release, forget, finish_release, free_reserved_absent, quarantine, activate,
  activate_match,
}

module _ (st : LeaseStore) (rs : List LeaseRecord) where
  open st use {State, records, IsReadable}

  -- What a success of `activate` has done.
  pub data Activated (expected x : LeaseRecord) (a : Allocator State) : Type 0 where
    acknowledged : At st rs a → IsCurrent expected x rs → x.state ≡ active → Activated expected x a
    promoted :
        (current : LeaseRecord)
        → At st (put x rs) a
        → IsCurrent expected current rs
        → current.state ≡ reserved
        → x ≡ with_state current active
        → Activated expected x a

  activate_match-Triple :
      (s t : LeaseState) (expected current : LeaseRecord)
      → current.state ≡ t
      → IsCurrent expected current rs
      → Triple
          (At st rs)
          (activate_match st s t expected current)
          (Activated expected)
          (Effects.Changed st rs)
  unfolding activate_match
  activate_match-Triple active active expected current e c =
      bind (lock_pending-Triple st rs (Effects.unchanged st rs)) λ _.
        bind (get-Triple st rs (λ a. member expected.lease_id a.pending_activations)) λ known.
          bind
            (modify-Triple st rs
              (λ a. record a {
                pending_activations = discard expected.lease_id a.pending_activations;
              })
              (λ a. refl))
            λ _.
              bind
                (guard-Triple known (state_conflict (already_active expected.lease_id))
                  (Effects.unchanged st rs))
                λ _. given λ _. pure-Triple current λ a h. acknowledged h c e
  activate_match-Triple reserved reserved expected current e c =
      bind
        ((Effects.write_next-Triple st rs) c (activates e)
          (st.with_state-IsStorable current active))
        λ _. pure-Triple (with_state current active) λ a h. promoted current h c e refl
  activate_match-Triple _ _ expected current e c = fail-Triple _ (Effects.unchanged st rs)

  pub activate-Triple :
      (expected : LeaseRecord)
      → Triple (At st rs) (activate st expected) (Activated expected) (Effects.Changed st rs)
  unfolding activate
  activate-Triple expected = bind (Effects.settle st rs (Effects.mutation_guard-Triple st rs)) λ _.
      bind ((Effects.settle st rs) ((Effects.same_record-Triple st rs) expected)) λ current.
        given λ c. activate_match-Triple expected.state current.state expected current refl c

  -- A success has moved the current record, active or reserved, to `releasing`.
  pub begin_release-Triple :
      (expected : LeaseRecord)
      → Triple
          (At st rs)
          (begin_release st expected)
          (λ _ a.
            (current : LeaseRecord) × IsCurrent expected current rs
            × ((current.state ≡ active) ⊎ (current.state ≡ reserved))
            × At st (put (with_state current releasing) rs) a)
          (Effects.Changed st rs)
  unfolding begin_release transition
  begin_release-Triple expected =
      bind
        (bind (Effects.settle st rs (Effects.mutation_guard-Triple st rs)) λ _.
          bind
            ((Effects.settle st rs)
              ((Effects.expected_record-Triple st rs) expected (active ∷ reserved ∷ [])))
            λ current. given λ (c, s).
              let was = state_in_two current.state active reserved s in
              bind
                ((Effects.write_next-Triple st rs) c (releases was)
                  (st.with_state-IsStorable current releasing))
                λ _.
                  pure-Triple
                    {Q = λ _ a.
                      (current : LeaseRecord) × IsCurrent expected current rs
                      × ((current.state ≡ active) ⊎ (current.state ≡ reserved))
                      × At st (put (with_state current releasing) rs) a}
                    (with_state current releasing) λ a h. (current, c, was, h))
        λ _. pure-Triple tt λ a h. h

  forget-Triple :
      (expected current : LeaseRecord)
      → IsCurrent expected current rs
      → (current.state ≡ releasing) ⊎ (current.state ≡ reserved)
      → Triple
          (At st rs)
          (forget st expected)
          (λ _. At st (drop_id expected.lease_id rs))
          (Effects.Changed st rs)
  unfolding forget
  forget-Triple expected current c s =
      let change : Change rs (drop_id expected.lease_id rs) =
        subst (λ id. Change rs (drop_id id rs))
          (find-lease_id expected.lease_id rs current c.on_file)
          (frees current (current_found c) s) in
      let gone = drop_id expected.lease_id rs in
      bind
        (weaken (remove-Triple st rs expected.lease_id) (λ _ a h. h)
          ((Effects.At-Changed_either st rs) change))
        λ _. bind (lock_pending-Triple st gone ((Effects.At-Changed st rs) change)) λ _.
          bind
            (modify-Triple st gone
              (λ a. record a {
                pending_activations = discard expected.lease_id a.pending_activations;
              })
              (λ a. refl))
            λ _. bind (lock_lease_ids-Triple st gone ((Effects.At-Changed st rs) change)) λ _.
              modify-Triple st gone
                (λ a. record a { lease_ids = delete expected.sandbox_id a.lease_ids }) (λ a. refl)

  -- What a removal has done: the record of the incarnation was in the state, and is gone.
  pub record Removed (expected : LeaseRecord) (state : LeaseState) (a : Allocator State)
      : Type 0 where
    pub current : LeaseRecord
    pub is_current : IsCurrent expected current rs
    pub in_state : current.state ≡ state
    pub gone : At st (drop_id expected.lease_id rs) a

  pub finish_release-Triple :
      (expected : LeaseRecord)
      → Triple
          (At st rs)
          (finish_release st expected)
          (λ _. Removed expected releasing)
          (Effects.Changed st rs)
  unfolding finish_release
  finish_release-Triple expected =
      bind (Effects.settle st rs (Effects.mutation_guard-Triple st rs)) λ _.
        bind
          ((Effects.settle st rs)
            ((Effects.expected_record-Triple st rs) expected (releasing ∷ [])))
          λ current. given λ (c, s).
            let was = state_in_one current.state releasing s in
            weaken (forget-Triple expected current c (inl was))
              (λ _ a h. record { current = current; is_current = c; in_state = was; gone = h })
              (λ a h. h)

  pub free_reserved_absent-Triple :
      (expected : LeaseRecord)
      → Triple
          (At st rs)
          (free_reserved_absent st expected)
          (λ _. Removed expected reserved)
          (Effects.Changed st rs)
  unfolding free_reserved_absent
  free_reserved_absent-Triple expected =
      bind (Effects.settle st rs (Effects.mutation_guard-Triple st rs)) λ _.
        bind
          ((Effects.settle st rs) ((Effects.expected_record-Triple st rs) expected (reserved ∷ [])))
          λ current. given λ (c, s).
            let was = state_in_one current.state reserved s in
            weaken (forget-Triple expected current c (inr was))
              (λ _ a h. record { current = current; is_current = c; in_state = was; gone = h })
              (λ a h. h)

  -- A success has quarantined the current record with the reason.
  pub quarantine-Triple :
      (expected : LeaseRecord) (reason : Bytes)
      → IsReadable reason
      → Triple
          (At st rs)
          (quarantine st expected reason)
          (λ _ a.
            (current : LeaseRecord) × IsCurrent expected current rs
            × At st (put (with_quarantine_reason current reason) rs) a)
          (Effects.Changed st rs)
  unfolding quarantine
  quarantine-Triple expected reason readable =
      bind (Effects.settle st rs (Effects.mutation_guard-Triple st rs)) λ _.
        bind ((Effects.settle st rs) ((Effects.same_record-Triple st rs) expected)) λ current.
          given λ c.
            let next = with_quarantine_reason current reason in
            let change : Change rs (put next rs) =
              moves current next (current_found c) (quarantines reason) in
            bind
              ((Effects.write_next-Triple st rs) c (quarantines reason)
                (st.with_quarantine_reason-IsStorable current reason readable))
              λ _.
                bind (lock_pending-Triple st (put next rs) ((Effects.At-Changed st rs) change)) λ _.
                  weaken
                    (modify-Triple st (put next rs) {E = (Effects.Changed st rs)}
                      (λ a. record a {
                        pending_activations = discard expected.lease_id a.pending_activations;
                      })
                      (λ a. refl))
                    (λ _ a h. (current, c, h)) (λ a h. h)
