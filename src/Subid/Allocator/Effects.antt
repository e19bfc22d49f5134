-- ===== src/Subid/Allocator/Effects.antt =====
-- A triple for each method that finds a record of an incarnation and changes it: what a success
-- has done, and that a failure has made at most the same lifecycle step.
use shbox.Prelude.{All, ◌≡◌, sym, subst, ◌∙◌, ◌⊎◌, inl, inr, true, List, [], ◌∷◌, some, arith}
use shbox.Prelude.Bytes.{bytes_eq}
use shbox.Subid.Ledger.{LeaseRecord, LeaseState, as_str, same_incarnation}
use shbox.Subid.Ledger.Records.{find, put, find-lease_id, find-All}
use shbox.Subid.Ledger.Interface.{LeaseStore}
use shbox.Subid.Allocator.Monad.{Allocator, M, on_store}
use shbox.Subid.Allocator.Triple.{
  Triple, bind, weaken, given, pure-Triple, guard-Triple, or_fail-Triple,
}
use shbox.Subid.Allocator.Steps.{At, read-Triple, lock-Triple, write-Triple, lock_selection-Triple}
use shbox.Subid.Allocator.Change.{Change, keeps, moves, Move}
use shbox.Subid.Allocator.{state_in, same_record, expected_record, mutation_guard}

-- `current` is the record on file of the incarnation that `expected` names.
pub record IsCurrent (expected current : LeaseRecord) (rs : List LeaseRecord) : Type 0 where
  pub on_file : find expected.lease_id rs ≡ some current
  pub same : same_incarnation current expected ≡ true

pub current_found :
    {expected current : LeaseRecord} {rs : List LeaseRecord}
    → IsCurrent expected current rs
    → find current.lease_id rs ≡ some current
current_found {expected} {current} {rs} c =
    subst (λ id. find id rs ≡ some current)
      (sym (find-lease_id expected.lease_id rs current c.on_file)) c.on_file

pub state_in_one : (s t : LeaseState) → state_in s (t ∷ []) ≡ true → s ≡ t
state_in_one s t h = unfold as_str bytes_eq in ground arith

pub state_in_two : (s t u : LeaseState) → state_in s (t ∷ u ∷ []) ≡ true → (s ≡ t) ⊎ (s ≡ u)
state_in_two s t u h = unfold as_str bytes_eq in ground arith

module _ (st : LeaseStore) (rs : List LeaseRecord) where
  open st use {State, records, IsStorable, IsReadable}

  -- Some lifecycle step has been made from `rs`.
  abbrev pub Changed : Allocator State → Type 0
  Changed a = Change rs (records a.store) × All IsStorable (records a.store)

  pub unchanged : (a : Allocator State) → At st rs a → Changed a
  unchanged a h = (subst (Change rs) (sym h.0) keeps, subst (All IsStorable) (sym h.0) h.1)

  pub At-Changed :
      {new : List LeaseRecord} → Change rs new → (a : Allocator State) → At st new a → Changed a
  At-Changed c a h = (subst (Change rs) (sym h.0) c, subst (All IsStorable) (sym h.0) h.1)

  pub At-Changed_either :
      {new : List LeaseRecord}
      → Change rs new
      → (a : Allocator State) → At st rs a ⊎ At st new a
      → Changed a
  At-Changed_either c a (inl h) = unchanged a h
  At-Changed_either c a (inr h) = At-Changed c a h

  pub mutation_guard-Triple : Triple (At st rs) (mutation_guard st) (λ _. At st rs) (At st rs)
  unfolding mutation_guard
  mutation_guard-Triple =
      bind (weaken (lock-Triple st rs) (λ _ a h. h.0) (λ a h. h))
        (λ _. lock_selection-Triple st rs (λ a h. h))

  pub same_record-Triple :
      (expected : LeaseRecord)
      → Triple
          (At st rs)
          (same_record st expected)
          (λ current a. At st rs a × IsCurrent expected current rs)
          (At st rs)
  unfolding same_record
  same_record-Triple expected = bind (read-Triple st rs expected.lease_id) λ found.
      given λ is_found. bind (or_fail-Triple found _ (λ a h. h)) λ current. given λ is_current.
        bind (guard-Triple _ _ (λ a h. h)) λ _. given λ same.
          pure-Triple current
            λ a h. (h, record { on_file = sym is_found ∙ is_current; same = same })

  pub expected_record-Triple :
      (expected : LeaseRecord) (states : List LeaseState)
      → Triple
          (At st rs)
          (expected_record st expected states)
          (λ current a.
            At st rs a × (IsCurrent expected current rs × (state_in current.state states ≡ true)))
          (At st rs)
  unfolding expected_record
  expected_record-Triple expected states = bind (same_record-Triple expected) λ current.
      given λ is_current.
        bind (guard-Triple _ _ (λ a h. h))
          λ _. given λ ok_state. pure-Triple current λ a h. (h, (is_current, ok_state))

  -- A step that changes nothing where it fails.
  pub settle :
      {A : Type 0} {m : M State A} {Q : A → Allocator State → Type 0}
      → Triple (At st rs) m Q (At st rs)
      → Triple (At st rs) m Q Changed
  settle t = weaken t (λ _ a h. h) unchanged

  current_storable :
      {expected current : LeaseRecord}
      → (a : Allocator State) → At st rs a
      → IsCurrent expected current rs
      → IsStorable current
  current_storable {expected} {current} a h c =
      find-All IsStorable expected.lease_id rs current h.1 c.on_file

  -- The current record is written back changed.
  pub write_next-Triple :
      {expected current next : LeaseRecord}
      → IsCurrent expected current rs
      → Move current next
      → (IsStorable current → IsStorable next)
      → Triple (At st rs) (on_store (st.write next)) (λ _. At st (put next rs)) Changed
  write_next-Triple {current} {next} c move storable = record {
    run = λ a h.
        (weaken (write-Triple st rs next (storable (current_storable a h c))) (λ _ b q. q)
            (At-Changed_either (moves current next (current_found c) move))).run
          a h;
  }
