-- ===== src/Tests/Subid.antt =====
-- The allocator and reconciliation on a ledger with one lease.
use shbox.Prelude.{◌≡◌, ◌↔◌, refl, true, List, [], ◌∷◌, none, arith, if◌then◌else◌}
use shbox.Prelude.Bytes.{Bytes, codes, bytes_eq}
use shbox.Subid.Delegation.{ids}
use shbox.Subid.Available.{from_ranges, remove, lowest}
use shbox.Subid.Ledger.{
  LeaseRecord, releasing, reserved, as_str, same_incarnation, with_quarantine_reason,
}
use shbox.Subid.Ledger.Records.{find, put}
use shbox.Subid.Allocator.Monad.{Allocator, ok}
use shbox.Subid.Allocator.Pool.{id_of, validate_uniqueness, available, indexed_from}
use shbox.Subid.Allocator.Change.{IsQuarantined}
use shbox.Subid.Allocator.Selection.{Apart, validate_uniqueness_iff}
use shbox.Subid.Allocator.Effects.{IsCurrent}
use shbox.Subid.Allocator.Stale.{Refused, stale-Refused, removal_needs_state}
use shbox.Subid.Allocator.Outcome.{finish_release_exact}
use shbox.Subid.Allocator.History.{
  Step, calls, here, next, perform, quarantines, Reach-IsQuarantined,
}
use shbox.Subid.Allocator.{
  claim, load, load_indexed, publish, finish_release, activate, begin_release, free_reserved_absent,
  quarantine, mutation_guard, expected_record, same_record, forget,
}
use shbox.Subid.Reconcile.{
  Looked, found, Reconciliation, reconcile, reconcile_loaded, reconcile_from, reconcile_one, looked,
  standing, no_report,
}
use shbox.Subid.Reconcile.Promise.{Settles}
use shbox.Subid.Reconcile.Complete.{reconcile_fates}
use shbox.Tests.Samples.{memory, start, delegation, held, taken, leaving, parked}

claim-run :
    (claim memory 1000 1000
      (codes "0b")
      (codes "new")
      (codes "me")
      delegation
      (start (held ∷ []))).0
    ≡ ok taken
unfolding claim load publish validate_uniqueness bytes_eq lowest available remove from_ranges ids
    id_of
claim-run = refl

validate_uniqueness_iff_example :
    (validate_uniqueness (held ∷ taken ∷ []) ≡ ok tt) ↔ Apart (held ∷ taken ∷ [])
validate_uniqueness_iff_example = validate_uniqueness_iff (held ∷ taken ∷ [])

abbrev claiming : Allocator (List LeaseRecord)
claiming = start (held ∷ [])

release-run : (finish_release memory leaving (start (leaving ∷ []))).0 ≡ ok tt
unfolding finish_release mutation_guard expected_record same_record forget find as_str bytes_eq
    same_incarnation
release-run = refl

finish_release_exact_example :
    ((current : LeaseRecord) × IsCurrent leaving current (leaving ∷ [])
      × (current.state ≡ releasing))
    × ((id : Bytes)
        → find id (memory.records (finish_release memory leaving (start (leaving ∷ []))).1.store)
          ≡ (if bytes_eq leaving.lease_id id then none else find id (leaving ∷ [])))
finish_release_exact_example =
    finish_release_exact memory (start (leaving ∷ [])) leaving (tt, tt) release-run

not-IsCurrent : (current : LeaseRecord) → ¬ IsCurrent taken current (held ∷ [])
unfolding find bytes_eq
not-IsCurrent current c = ground (arith, c.on_file)

stale-Refused_example :
    Refused memory
      (held ∷ [])
      taken
      (activate memory taken claiming).0
      (activate memory taken claiming).1
    × Refused memory
        (held ∷ [])
        taken
        (begin_release memory taken claiming).0
        (begin_release memory taken claiming).1
    × Refused memory
        (held ∷ [])
        taken
        (finish_release memory taken claiming).0
        (finish_release memory taken claiming).1
    × Refused memory
        (held ∷ [])
        taken
        (free_reserved_absent memory taken claiming).0
        (free_reserved_absent memory taken claiming).1
    × Refused memory
        (held ∷ [])
        taken
        (quarantine memory taken (codes "why") claiming).0
        (quarantine memory taken (codes "why") claiming).1
stale-Refused_example = stale-Refused memory taken (codes "why") claiming (tt, tt) not-IsCurrent

removal_needs_state_example :
    (((current : LeaseRecord) → IsCurrent held current (held ∷ []) → ¬ (current.state ≡ releasing))
      → Refused memory
          (held ∷ [])
          held
          (finish_release memory held claiming).0
          (finish_release memory held claiming).1)
    × (((current : LeaseRecord) → IsCurrent held current (held ∷ []) → ¬ (current.state ≡ reserved))
        → Refused memory
            (held ∷ [])
            held
            (free_reserved_absent memory held claiming).0
            (free_reserved_absent memory held claiming).1)
removal_needs_state_example = removal_needs_state memory held claiming (tt, tt)

park_left :
    with_quarantine_reason parked (codes "why") ∷ []
    ≡ (perform memory (quarantines parked (codes "why")) (start (parked ∷ []))).1.store
unfolding perform quarantine mutation_guard same_record find bytes_eq same_incarnation put
    with_quarantine_reason
park_left = refl

abbrev park-Step : Step memory (parked ∷ []) (with_quarantine_reason parked (codes "why") ∷ [])
park-Step = calls (quarantines parked (codes "why")) (start (parked ∷ [])) refl park_left

parked_now : IsQuarantined parked (find parked.lease_id (parked ∷ []))
parked_now = record {
  now = parked;
  on_file = unfold find bytes_eq in refl;
  in_quarantine = refl;
  ids = record { lease_id = refl; sandbox_id = refl; owner = refl; uid = refl; gid = refl };
}

Reach-IsQuarantined_example :
    IsQuarantined parked (find parked.lease_id (with_quarantine_reason parked (codes "why") ∷ []))
Reach-IsQuarantined_example =
    Reach-IsQuarantined memory parked.lease_id parked (next here park-Step) (tt, tt) (tt, tt)
      parked_now

-- No sandbox is there: the active lease goes into quarantine.
abbrev nowhere : Bytes → Looked
nowhere id = found none

abbrev report : Reconciliation
report = record no_report {
  quarantined = (held, codes "active lease with no durable sandbox") ∷ [];
}

reconcile-run : (reconcile memory nowhere true claiming).0 ≡ ok report
unfolding reconcile load load_indexed validate_uniqueness indexed_from reconcile_loaded
    reconcile_from looked reconcile_one standing quarantine mutation_guard same_record find bytes_eq
    same_incarnation
reconcile-run = refl

reconcile_fates_example :
    Settles true held none
      (find held.lease_id (memory.records (reconcile memory nowhere true claiming).1.store))
reconcile_fates_example =
    reconcile_fates memory nowhere true claiming report held.lease_id held none (tt, tt) (tt, tt)
      ((λ view reason e k. tt), tt) reconcile-run (unfold find bytes_eq in refl) refl
