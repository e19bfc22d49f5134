-- ===== src/Subid/Allocator.antt =====
-- crates/shbox/src/sandbox/subid/mod.rs: `SubidAllocator`. Every method runs under the ledger's
-- flock and the selection mutex, so each is one step here; a mutex that a panic has poisoned is a
-- flag. The effective IDs and the random lease token are arguments of `claim`.
pub mod Monad
pub mod Pool
pub mod Triple
pub mod Steps
pub mod Change
pub mod Effects
pub mod Selection
pub mod Claim
pub mod Methods
pub mod Stale
pub mod History
pub mod Outcome
pub mod Success
pub mod Total
pub mod Activation
use shbox.Prelude.{ℕ, Bool, ◌&&◌, not, List, [], ◌∷◌, Option, none, some, any, if◌then◌else◌}
use shbox.Prelude.Bytes.{Bytes, bytes_eq}
use shbox.Prelude.Dict.{lookup, insert, delete, member, add, discard}
use shbox.Subid.Delegation.{Delegation, contains_uid, contains_gid}
use shbox.Subid.Available.{lowest}
use shbox.Subid.Ledger.{
  LeaseRecord, LeaseState, reserved, active, releasing, quarantined, as_str, with_state,
  with_quarantine_reason, same_incarnation,
}
use shbox.Subid.Ledger.Interface.{LeaseStore}
use Monad.{
  Allocator, Error, Result, ok, err, M, pure, fail, lift, ◌>>=◌, ◌>>◌, guard, get, modify, on_store,
  corrupt, state_conflict, missing_lease, undelegated, exhausted, misindexed, already_holds,
  not_incarnation, already_active, wrong_state, or_fail, lock_selection, lock_lease_ids,
  lock_pending,
}
use Pool.{
  validate_uniqueness, index_of, indexed_from, find_sandbox, uid_kind, gid_kind, available,
  capacity,
}

-- `states.contains(&current.state.as_str())`
abbrev pub state_in : LeaseState → List LeaseState → Bool
state_in st states = any (λ x. bytes_eq (as_str x) (as_str st)) states

module _ (st : LeaseStore) where
  open st use {State}

  unfoldable pub load : M State (List LeaseRecord)
  unfolding index_of
  load = do
    records ← on_store st.load
    lift (validate_uniqueness records)
    lock_lease_ids
    modify (λ a. record a { lease_ids = index_of records })
    pure records

  unfoldable pub load_indexed : M State (List LeaseRecord)
  load_indexed = do records ← load; pure (indexed_from [] records)

  -- What `lease_for` makes of the record that its index led to.
  unfoldable pub indexed_record : Bytes → Option LeaseRecord → M State (Option LeaseRecord)
  indexed_record sandbox none = do records ← load_indexed; pure (find_sandbox sandbox records)
  indexed_record sandbox (some r) =
      if bytes_eq r.sandbox_id sandbox
      then pure (some r)
      else fail (corrupt (misindexed r.lease_id sandbox r.sandbox_id))

  unfoldable pub lease_for_index : Bytes → Option Bytes → M State (Option LeaseRecord)
  lease_for_index sandbox none = do records ← load_indexed; pure (find_sandbox sandbox records)
  lease_for_index sandbox (some lease) = do
    found ← on_store (st.read lease)
    indexed_record sandbox found

  unfoldable pub lease_for : Bytes → M State (Option LeaseRecord)
  lease_for sandbox = do
    lock_lease_ids
    lease ← get (λ a. lookup sandbox a.lease_ids)
    lease_for_index sandbox lease

  -- The record that `claim` publishes.
  abbrev pub claimed : Bytes → Bytes → Bytes → ℕ → ℕ → LeaseRecord
  claimed token sandbox owner uid gid = record {
    lease_id = token;
    sandbox_id = sandbox;
    owner = owner;
    uid = uid;
    gid = gid;
    state = active;
    quarantine_reason = none;
  }

  unfoldable pub publish : LeaseRecord → M State LeaseRecord
  unfolding add insert
  publish r = do
    on_store (st.write r)
    lock_pending
    modify (λ a. record a { pending_activations = add r.lease_id a.pending_activations })
    lock_lease_ids
    modify (λ a. record a { lease_ids = insert r.sandbox_id r.lease_id a.lease_ids })
    pure r

  -- `claim(sandbox_id, owner, delegation)`, by a daemon with effective IDs `euid` and `egid`.
  unfoldable pub claim : ℕ → ℕ → Bytes → Bytes → Bytes → Delegation → M State LeaseRecord
  claim euid egid token sandbox owner d = do
    on_store st.lock
    lock_selection
    on_store st.remove_stale_temps
    records ← load
    guard (not (any (λ r. bytes_eq r.sandbox_id sandbox) records))
        (state_conflict (already_holds sandbox))
    let full =
        exhausted (capacity d.uid_ranges records uid_kind) (capacity d.gid_ranges records gid_kind)
    uid ← or_fail (lowest (available uid_kind euid d.uid_ranges records)) full
    gid ← or_fail (lowest (available gid_kind egid d.gid_ranges records)) full
    publish (claimed token sandbox owner uid gid)

  unfoldable pub mutation_guard : M State (Unit {0})
  mutation_guard = do on_store st.lock; lock_selection

  -- The start of `expected_record`, `activate` and `quarantine`: read and compare the incarnation.
  unfoldable pub same_record : LeaseRecord → M State LeaseRecord
  same_record expected = do
    found ← on_store (st.read expected.lease_id)
    current ← or_fail found (missing_lease expected.lease_id)
    guard (same_incarnation current expected) (state_conflict (not_incarnation expected.lease_id))
    pure current

  unfoldable pub expected_record : LeaseRecord → List LeaseState → M State LeaseRecord
  expected_record expected states = do
    current ← same_record expected
    guard (state_in current.state states)
        (state_conflict (wrong_state expected.lease_id current.state))
    pure current

  -- The `match (expected.state, current.state)` of `activate`.
  unfoldable pub activate_match :
      LeaseState → LeaseState → LeaseRecord → LeaseRecord → M State LeaseRecord
  unfolding discard
  activate_match active active expected current = do
    lock_pending
    acknowledged ← get (λ a. member expected.lease_id a.pending_activations)
    modify (λ a. record a { pending_activations = discard expected.lease_id a.pending_activations })
    guard acknowledged (state_conflict (already_active expected.lease_id))
    pure current
  activate_match reserved reserved expected current = do
    on_store (st.write (with_state current active))
    pure (with_state current active)
  activate_match _ found expected current =
      fail (state_conflict (wrong_state expected.lease_id found))

  unfoldable pub activate : LeaseRecord → M State LeaseRecord
  activate expected = do
    mutation_guard
    current ← same_record expected
    activate_match expected.state current.state expected current

  unfoldable pub transition : LeaseRecord → List LeaseState → LeaseState → M State LeaseRecord
  transition expected from to = do
    mutation_guard
    current ← expected_record expected from
    on_store (st.write (with_state current to))
    pure (with_state current to)

  unfoldable pub begin_release : LeaseRecord → M State (Unit {0})
  begin_release expected = do
    released ← transition expected (active ∷ reserved ∷ []) releasing
    pure tt

  -- The removal and the index upkeep that `finish_release` and `free_reserved_absent` share.
  unfoldable pub forget : LeaseRecord → M State (Unit {0})
  unfolding discard delete
  forget expected = do
    on_store (st.remove expected.lease_id)
    lock_pending
    modify (λ a. record a { pending_activations = discard expected.lease_id a.pending_activations })
    lock_lease_ids
    modify (λ a. record a { lease_ids = delete expected.sandbox_id a.lease_ids })

  unfoldable pub finish_release : LeaseRecord → M State (Unit {0})
  finish_release expected = do
    mutation_guard
    current ← expected_record expected (releasing ∷ [])
    forget expected

  unfoldable pub free_reserved_absent : LeaseRecord → M State (Unit {0})
  free_reserved_absent expected = do
    mutation_guard
    current ← expected_record expected (reserved ∷ [])
    forget expected

  unfoldable pub quarantine : LeaseRecord → Bytes → M State (Unit {0})
  unfolding discard
  quarantine expected reason = do
    mutation_guard
    current ← same_record expected
    on_store (st.write (with_quarantine_reason current reason))
    lock_pending
    modify (λ a. record a { pending_activations = discard expected.lease_id a.pending_activations })

-- `validate_delegated` reads no state.
unfoldable pub validate_delegated : LeaseRecord → Delegation → Result (Unit {0})
validate_delegated r d =
    if contains_uid d r.uid && contains_gid d r.gid
    then ok tt
    else err (undelegated r.lease_id (contains_uid d r.uid) (contains_gid d r.gid))
