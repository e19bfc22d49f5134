-- ===== src/Subid/Allocator/History.antt =====
-- Histories of the ledger: the methods of any number of daemons, interleaved in any order. Each
-- daemon has its own maps and mutexes; the flock makes one method at a time read and write the
-- records. On the lease directory the process number, the counter of temp names and the injected fault
-- are one for all daemons; they stand in no record.
use shbox.Prelude.{ℕ, ◌≡◌, refl, subst, List, none, All, inl, inr, ◌⊎◌}
use shbox.Prelude.Bytes.{Bytes}
use shbox.Subid.Delegation.{Delegation}
use shbox.Subid.Delegation.Bounds.{IsRange}
use shbox.Subid.Ledger.{
  LeaseRecord, LeaseState, reserved, releasing, with_state, with_quarantine_reason,
}
use shbox.Subid.Ledger.Records.{find, drop_id, Unique, find-lease_id}
use shbox.Subid.Ledger.Interface.{LeaseStore}
use shbox.Subid.Allocator.Monad.{Allocator, M, Result, ok, err, pure, ◌>>=◌}
use shbox.Subid.Allocator.Triple.{Triple, Post, bind, weaken, pure-Triple}
use shbox.Subid.Allocator.Steps.{At}
use shbox.Subid.Allocator.Change.{
  Change, Change-Unique, Change-LifeStep, LifeStep, moves, publishes, frees, releases,
  IsQuarantined, LifeStep-IsQuarantined,
}
use shbox.Subid.Allocator.Change as Change
use shbox.Subid.Allocator.Effects.{Changed, At-Changed, unchanged, current_found}
use shbox.Subid.Allocator.Methods as Methods
use shbox.Subid.Allocator.Claim as Claim
use shbox.Subid.Allocator.{
  load, claim, activate, begin_release, finish_release, free_reserved_absent, quarantine,
}

pub data Call : Type 0 where
  loads : Call
  claims : ℕ → ℕ → Bytes → Bytes → Bytes → Delegation → Call
  activates begins_release finishes_release frees_absent : LeaseRecord → Call
  quarantines : LeaseRecord → Bytes → Call

module _ (st : LeaseStore) where
  open st use {State, records, IsStorable, IsReadable}

  abbrev pub done_with : {A : Type 0} → M State A → M State (Unit {0})
  done_with m = m >>= λ _. pure tt

  unfoldable pub perform : Call → M State (Unit {0})
  perform loads = done_with (load st)
  perform (claims euid egid token sandbox owner d) =
      done_with (claim st euid egid token sandbox owner d)
  perform (activates expected) = done_with (activate st expected)
  perform (begins_release expected) = begin_release st expected
  perform (finishes_release expected) = finish_release st expected
  perform (frees_absent expected) = free_reserved_absent st expected
  perform (quarantines expected reason) = quarantine st expected reason

  -- What a call relies on, on the records `rs` on file: nonempty delegated ranges that end inside the
  -- 32-bit space, a token that no record on file has, a ledger that can store the record of the
  -- least free pair, and a quarantine reason that can be read back.
  abbrev pub IsCall : List LeaseRecord → Call → Type 0
  IsCall rs (claims euid egid token sandbox owner d) =
      (find token rs ≡ none)
      × All IsRange d.uid_ranges
      × All IsRange d.gid_ranges
      × Claim.LeastStorable st rs euid egid token sandbox owner d
  IsCall rs (quarantines expected reason) = IsReadable reason
  IsCall rs loads = Unit
  IsCall rs (activates expected) = Unit
  IsCall rs (begins_release expected) = Unit
  IsCall rs (finishes_release expected) = Unit
  IsCall rs (frees_absent expected) = Unit

  module _ (rs : List LeaseRecord) where
    Claimed-Changed :
        (euid egid : ℕ) (token sandbox owner : Bytes) (d : Delegation) (r : LeaseRecord)
        (a : Allocator State)
        → find token rs ≡ none
        → Claim.Claimed st rs euid egid token sandbox owner d r a
        → Changed st rs a
    Claimed-Changed euid egid token sandbox owner d r a new c =
        let is_new = c.is_new in
        At-Changed st rs (publishes r (rw is_new refl) (rw is_new new) c.fresh) a c.published

    Activated-Changed :
        (expected x : LeaseRecord) (a : Allocator State)
        → Methods.Activated st rs expected x a
        → Changed st rs a
    Activated-Changed expected x a (Methods.acknowledged h c s) = unchanged st rs a h
    Activated-Changed expected x a (Methods.promoted current h c s e) =
        At-Changed st rs (moves current x (current_found c) (rw e (Change.activates s))) a h

    Removed-Changed :
        (expected : LeaseRecord) (state : LeaseState) (a : Allocator State)
        → (state ≡ releasing) ⊎ (state ≡ reserved)
        → Methods.Removed st rs expected state a
        → Changed st rs a
    Removed-Changed expected state a which r =
        let at_state : (r.current.state ≡ releasing) ⊎ (r.current.state ≡ reserved) =
          rw r.in_state which in
        At-Changed st rs
          (subst (λ id. Change rs (drop_id id rs))
            (find-lease_id expected.lease_id rs r.current r.is_current.on_file)
            (frees r.current (current_found r.is_current) at_state))
          a r.gone

    both :
        {A : Type 0} (r : Result A) (a : Allocator State)
        → Post (λ _. Changed st rs) (Changed st rs) r a
        → Changed st rs a
    both (ok x) a h = h
    both (err e) a h = h

    done_with-Triple :
        {A : Type 0} {m : M State A}
        → Triple (At st rs) m (λ _. Changed st rs) (Changed st rs)
        → Triple (At st rs) (done_with m) (λ _. Changed st rs) (Changed st rs)
    done_with-Triple t = bind t (λ _. pure-Triple tt (λ a h. h))

    perform-Triple :
        (c : Call)
        → IsCall rs c
        → Triple (At st rs) (perform c) (λ _. Changed st rs) (Changed st rs)
    unfolding perform
    perform-Triple loads k =
        done_with-Triple
          (weaken (Claim.loaded-Triple st rs) (λ _ a h. unchanged st rs a h.0) (λ a h. h))
    perform-Triple (claims euid egid token sandbox owner d) k = done_with-Triple (
        weaken (Claim.claim-Triple st rs euid egid token sandbox owner d k.0 k.1 k.2 k.3)
          (λ r a h. Claimed-Changed euid egid token sandbox owner d r a k.0 h) (λ a h. h))
    perform-Triple (activates expected) k =
        done_with-Triple
          (weaken (Methods.activate-Triple st rs expected) (Activated-Changed expected) (λ a h. h))
    perform-Triple (begins_release expected) k =
        weaken (Methods.begin_release-Triple st rs expected)
          (λ _ a h.
            let (current, c, s, at_new) = h in
            At-Changed st rs
              (moves current (with_state current releasing) (current_found c) (releases s)) a
              at_new)
          (λ a h. h)
    perform-Triple (finishes_release expected) k =
        weaken (Methods.finish_release-Triple st rs expected)
          (λ _ a h. Removed-Changed expected releasing a (inl refl) h) (λ a h. h)
    perform-Triple (frees_absent expected) k =
        weaken (Methods.free_reserved_absent-Triple st rs expected)
          (λ _ a h. Removed-Changed expected reserved a (inr refl) h) (λ a h. h)
    perform-Triple (quarantines expected reason) k =
        weaken (Methods.quarantine-Triple st rs expected reason k)
          (λ _ a h.
            let (current, c, at_new) = h in
            At-Changed st rs
              (moves current (with_quarantine_reason current reason) (current_found c)
                (Change.quarantines reason))
              a at_new)
          (λ a h. h)

  -- Whatever a method does, whether it succeeds or fails at any point, is one lifecycle step.
  pub perform-Change :
      (c : Call) (a : Allocator State)
      → IsCall (records a.store) c
      → All IsStorable (records a.store)
      → Change (records a.store) (records (perform c a).1.store)
        × All IsStorable (records (perform c a).1.store)
  perform-Change c a k sound =
      both (records a.store) (perform c a).0 (perform c a).1
        ((perform-Triple (records a.store) c k).run a (refl, sound))

  -- One method of some daemon, on the state of the store.
  pub data Step (s u : State) : Type 0 where
    calls : (c : Call) (a : Allocator State) → a.store ≡ s → u ≡ (perform c a).1.store → Step s u

  pub data Reach (s : State) : State → Type 0 where
    here : Reach s s
    next : {t u : State} → Reach s t → Step t u → Reach s u

  -- The call of a step is as `IsCall` says, on the records that it finds.
  abbrev pub IsFair : {s u : State} → Step s u → Type 0
  IsFair {s} (calls c a e e') = IsCall (records s) c

  -- And so is each call of a history.
  abbrev pub AllFair : {s u : State} → Reach s u → Type 0
  AllFair here = Unit
  AllFair (next r step) = AllFair r × IsFair step

  Step-Change :
      {s u : State} (step : Step s u)
      → IsFair step
      → All IsStorable (records s)
      → Change (records s) (records u) × All IsStorable (records u)
  Step-Change (calls c a e e') k sound = rw (e', ← e) (perform-Change c a (rw e k) (rw e sound))

  Reach-IsStorable :
      {s u : State} (reach : Reach s u)
      → AllFair reach
      → All IsStorable (records s)
      → All IsStorable (records u)
  Reach-IsStorable here fair h = h
  Reach-IsStorable (next r step) fair h = (Step-Change step fair.1 (Reach-IsStorable r fair.0 h)).1

  -- In every history of any number of daemons, whose methods succeed or fail at any point, no UID,
  -- GID, sandbox or lease ID is ever in two records, if none was at the start, the ledger can store
  -- each record of the start, and each call meets what it relies on: a claim has nonempty ranges that
  -- end inside the 32-bit space, a token that is in no record on file, and a record of the least free
  -- pair that the ledger can store; a quarantine has a reason that can be read back.
  pub Reach-Unique :
      {s u : State} (reach : Reach s u)
      → AllFair reach
      → All IsStorable (records s)
      → Unique (records s)
      → Unique (records u)
  Reach-Unique here fair sound h = h
  Reach-Unique (next r step) fair sound h =
      Change-Unique (Step-Change step fair.1 (Reach-IsStorable r fair.0 sound)).0
        (Reach-Unique r fair.0 sound h)

  -- A method, whatever its outcome, makes at most one step of the lifecycle specification for each
  -- lease ID, where the ledger can store each record on file and the call meets what it relies on: a
  -- claim has nonempty ranges that end inside the 32-bit space, a token that is in no record on file,
  -- and a record of the least free pair that the ledger can store; a quarantine has a reason that can
  -- be read back.
  pub Step-LifeStep :
      {s u : State} (step : Step s u)
      → IsFair step
      → All IsStorable (records s)
      → (id : Bytes) → LifeStep (find id (records s)) (find id (records u))
  Step-LifeStep step fair sound = Change-LifeStep (Step-Change step fair sound).0

  -- A lease that is quarantined stays on file as quarantined, with its IDs, in every history from
  -- records that the ledger can store, in which each call meets what it relies on: a claim has
  -- nonempty ranges that end inside the 32-bit space, a token that is in no record on file, and a
  -- record of the least free pair that the ledger can store; a quarantine has a reason that can be
  -- read back.
  pub Reach-IsQuarantined :
      {s u : State} (id : Bytes) (r : LeaseRecord) (reach : Reach s u)
      → AllFair reach
      → All IsStorable (records s)
      → IsQuarantined r (find id (records s))
      → IsQuarantined r (find id (records u))
  Reach-IsQuarantined id r here fair sound q = q
  Reach-IsQuarantined id r (next reach step) fair sound q =
      LifeStep-IsQuarantined (Step-LifeStep step fair.1 (Reach-IsStorable reach fair.0 sound) id)
        (Reach-IsQuarantined id r reach fair.0 sound q)
