-- ===== src/Subid/Reconcile/Verdict.antt =====
-- The specification of reconciliation: what becomes of each lease, as a table, and the proof that a
-- successful run leaves each lease as the table says.
use shbox.Prelude.{◌≡◌, ◌≢◌, refl, subst, Bool, true, false, List, Option, none, some, arith}
use shbox.Prelude.Bytes.{Bytes, bytes_eq_iff}
use shbox.Subid.Ledger.{
  LeaseRecord, LeaseState, reserved, active, releasing, quarantined, with_state,
  with_quarantine_reason,
}
use shbox.Subid.Ledger.Records.{find, put, drop_id, find-put, find-drop_id}
use shbox.Subid.Ledger.Interface.{LeaseStore}
use shbox.Subid.Allocator.Monad.{Allocator, M}
use shbox.Subid.Allocator.Triple.{Triple, bind, weaken, pure-Triple}
use shbox.Subid.Allocator.Steps.{At}
use shbox.Subid.Allocator.Effects.{IsCurrent}
use shbox.Subid.Allocator.Methods as Methods
use shbox.Subid.Reconcile.{
  Standing, absent, owned, foreign, broken, Reconciliation, reason_for, quarantine_if, free_absent,
  promote, complete_release, reconcile_one,
}

-- The record is on file in quarantine, under some reason.
abbrev pub InQuarantine : LeaseRecord → Option LeaseRecord → Type 0
InQuarantine r o = (reason : Bytes) × (o ≡ some (with_quarantine_reason r reason))

-- What a lease should be after reconciliation: gone, or a record. An owned reservation becomes
-- active; an absent one is freed, and so is an absent release under the proof; what contradicts
-- its sandbox is quarantined; anything else stays.
abbrev pub Fate : Bool → LeaseState → Standing → LeaseRecord → Option LeaseRecord → Type 0
Fate proof reserved absent r o = o ≡ none
Fate proof reserved owned r o = o ≡ some (with_state r active)
Fate proof reserved foreign r o = InQuarantine r o
Fate proof reserved (broken reason) r o = InQuarantine r o
Fate proof active owned r o = o ≡ some r
Fate proof active absent r o = InQuarantine r o
Fate proof active foreign r o = InQuarantine r o
Fate proof active (broken reason) r o = InQuarantine r o
Fate proof releasing owned r o = o ≡ some r
Fate true releasing absent r o = o ≡ none
Fate false releasing absent r o = o ≡ some r
Fate proof releasing foreign r o = InQuarantine r o
Fate proof releasing (broken reason) r o = InQuarantine r o
Fate proof quarantined s r o = o ≡ some r

module _ (st : LeaseStore) (rs : List LeaseRecord) (r : LeaseRecord)
    (on_file : find r.lease_id rs ≡ some r) where
  open st use {State, records, IsReadable}

  -- The record of `r` is now `o`, and every other lease is as it was.
  pub record Settled (P : Option LeaseRecord → Type 0) (a : Allocator State) : Type 0 where
    pub now : List LeaseRecord
    pub at_now : At st now a
    pub this : P (find r.lease_id now)
    pub others : (id : Bytes) → id ≢ r.lease_id → find id now ≡ find id rs

  untouched : (a : Allocator State) → At st rs a → Settled (λ o. o ≡ some r) a
  untouched a h = record { now = rs; at_now = h; this = on_file; others = λ id ne. refl }

  replaced :
      (next : LeaseRecord) (a : Allocator State)
      → next.lease_id ≡ r.lease_id
      → At st (put next rs) a
      → Settled (λ o. o ≡ some next) a
  replaced next a e h = record {
    now = put next rs;
    at_now = h;
    this = ground (arith, find-put next r.lease_id rs, bytes_eq_iff next.lease_id r.lease_id);
    others = λ id ne. ground (arith, find-put next id rs, bytes_eq_iff next.lease_id id);
  }

  dropped : (a : Allocator State) → At st (drop_id r.lease_id rs) a → Settled (λ o. o ≡ none) a
  dropped a h = record {
    now = drop_id r.lease_id rs;
    at_now = h;
    this =
        ground (arith, find-drop_id r.lease_id r.lease_id rs, bytes_eq_iff r.lease_id r.lease_id);
    others = λ id ne. ground (arith, find-drop_id r.lease_id id rs, bytes_eq_iff r.lease_id id);
  }

  current_is : (current : LeaseRecord) → IsCurrent r current rs → current ≡ r
  current_is current c = ground (arith, c.on_file, on_file)

  -- How a reconciliation step may fail is not said here.
  abbrev pub Ends : M State Reconciliation → (Option LeaseRecord → Type 0) → Type 0
  Ends m P = Triple (At st rs) m (λ _. Settled P) (λ _. Unit {0})

  quarantine_if-Ends :
      (reason : Bytes) (report : Reconciliation)
      → IsReadable reason
      → Ends (quarantine_if st (some reason) r report) (InQuarantine r)
  unfolding quarantine_if
  quarantine_if-Ends reason report readable =
      bind (weaken (Methods.quarantine-Triple st rs r reason readable) (λ _ a h. h) (λ a h. tt))
        λ _. pure-Triple _ λ a h.
          let (current, c, at_new) = h in
          let e = current_is current c in
          let s =
            replaced (with_quarantine_reason r reason) a
              (unfold with_quarantine_reason with_state in refl)
              (subst (λ x. At st (put (with_quarantine_reason x reason) rs) a) e at_new) in
          record { now = s.now; at_now = s.at_now; this = (reason, s.this); others = s.others }

  free_absent-Ends : (report : Reconciliation) → Ends (free_absent st r report) (λ o. o ≡ none)
  unfolding free_absent
  free_absent-Ends report =
      bind (weaken (Methods.free_reserved_absent-Triple st rs r) (λ _ a h. h) (λ a h. tt))
        λ _. pure-Triple _ λ a h. dropped a h.gone

  complete_release-Ends :
      (report : Reconciliation) → Ends (complete_release st r report) (λ o. o ≡ none)
  unfolding complete_release
  complete_release-Ends report =
      bind (weaken (Methods.finish_release-Triple st rs r) (λ _ a h. h) (λ a h. tt))
        λ _. pure-Triple _ λ a h. dropped a h.gone

  Activated-Settled :
      (x : LeaseRecord) (a : Allocator State)
      → r.state ≡ reserved
      → Methods.Activated st rs r x a
      → Settled (λ o. o ≡ some (with_state r active)) a
  Activated-Settled x a s (Methods.acknowledged h c s') =
      absurd (ground (arith, current_is x c, s, s'))
  Activated-Settled x a s (Methods.promoted current h c s' e) =
      let is_next : x ≡ with_state r active =
        subst (λ y. x ≡ with_state y active) (current_is current c) e in
      replaced (with_state r active) a (unfold with_state in refl)
        (subst (λ y. At st (put y rs) a) is_next h)

  promote-Ends :
      (report : Reconciliation)
      → r.state ≡ reserved
      → Ends (promote st r report) (λ o. o ≡ some (with_state r active))
  unfolding promote
  promote-Ends report s =
      bind (weaken (Methods.activate-Triple st rs r) (λ _ a h. h) (λ a h. tt))
        λ x. pure-Triple _ λ a h. Activated-Settled x a s h

  pub reconcile_one-Ends :
      (proof : Bool) (state : LeaseState) (s : Standing) (report : Reconciliation)
      → r.state ≡ state
      → ((reason : Bytes) → reason_for state s ≡ some reason → IsReadable reason)
      → Ends (reconcile_one st proof state s r report) (Fate proof state s r)
  unfolding reconcile_one reason_for
  reconcile_one-Ends proof reserved absent report e k = free_absent-Ends report
  reconcile_one-Ends proof reserved owned report e k = promote-Ends report e
  reconcile_one-Ends proof reserved foreign report e k = quarantine_if-Ends _ report (k _ refl)
  reconcile_one-Ends proof reserved (broken reason) report e k =
      quarantine_if-Ends _ report (k _ refl)
  reconcile_one-Ends proof active absent report e k = quarantine_if-Ends _ report (k _ refl)
  reconcile_one-Ends proof active owned report e k = pure-Triple _ untouched
  reconcile_one-Ends proof active foreign report e k = quarantine_if-Ends _ report (k _ refl)
  reconcile_one-Ends proof active (broken reason) report e k =
      quarantine_if-Ends _ report (k _ refl)
  reconcile_one-Ends true releasing absent report e k = complete_release-Ends report
  reconcile_one-Ends false releasing absent report e k = pure-Triple _ untouched
  reconcile_one-Ends proof releasing owned report e k = pure-Triple _ untouched
  reconcile_one-Ends proof releasing foreign report e k = quarantine_if-Ends _ report (k _ refl)
  reconcile_one-Ends proof releasing (broken reason) report e k =
      quarantine_if-Ends _ report (k _ refl)
  reconcile_one-Ends proof quarantined absent report e k = pure-Triple _ untouched
  reconcile_one-Ends proof quarantined owned report e k = pure-Triple _ untouched
  reconcile_one-Ends proof quarantined foreign report e k = pure-Triple _ untouched
  reconcile_one-Ends proof quarantined (broken reason) report e k = pure-Triple _ untouched
