-- ===== src/Subid/Allocator/Outcome.antt =====
-- What a caller may rely on when a method of the allocator succeeds.
use shbox.Prelude.{ℕ, ◌≡◌, refl, ap, none, some, All, if◌then◌else◌}
use shbox.Prelude.Bytes.{Bytes, bytes_eq}
use shbox.Subid.Delegation.{Delegation}
use shbox.Subid.Delegation.Bounds.{IsRange}
use shbox.Subid.Ledger.{LeaseRecord, releasing}
use shbox.Subid.Ledger.Records.{find, find-put, find-drop_id}
use shbox.Subid.Ledger.Interface.{LeaseStore}
use shbox.Subid.Allocator.Monad.{Allocator, ok}
use shbox.Subid.Allocator.Pool.{uid_kind, gid_kind}
use shbox.Subid.Allocator.Triple.{run_ok}
use shbox.Subid.Allocator.Change.{IsFresh}
use shbox.Subid.Allocator.Selection.{IsFree}
use shbox.Subid.Allocator.Claim.{IsLeast, LeastStorable, claim-Triple}
use shbox.Subid.Allocator.Effects.{IsCurrent}
use shbox.Subid.Allocator.Methods as Methods
use shbox.Subid.Allocator.{claim, claimed, finish_release}

-- A successful `claim` returns the record of a new active lease of the sandbox, whose UID and GID
-- are each the least that is delegated, not 0, not the daemon's own and in no record; it shares no
-- ID with a record on file; and afterwards the ledger has it under its token and every other lease
-- as before. The token is in no record, the delegated ranges are well-formed, and the ledger can
-- store the records on file and the record of the least free pair.
pub claim-IsLeast :
    (st : LeaseStore) (a : Allocator st.State) (euid egid : ℕ) (token sandbox owner : Bytes)
    (d : Delegation) (r : LeaseRecord)
    → All st.IsStorable (st.records a.store)
    → find token (st.records a.store) ≡ none
    → All IsRange d.uid_ranges
    → All IsRange d.gid_ranges
    → LeastStorable st (st.records a.store) euid egid token sandbox owner d
    → (claim st euid egid token sandbox owner d a).0 ≡ ok r
    → (r ≡ claimed st token sandbox owner r.uid r.gid)
      × IsLeast (IsFree uid_kind euid d.uid_ranges (st.records a.store)) r.uid
      × IsLeast (IsFree gid_kind egid d.gid_ranges (st.records a.store)) r.gid
      × All (IsFresh r) (st.records a.store)
      × ((id : Bytes)
          → find id (st.records (claim st euid egid token sandbox owner d a).1.store)
            ≡ (if bytes_eq token id then some r else find id (st.records a.store)))
claim-IsLeast st a euid egid token sandbox owner d r sound new uids gids storable e =
    let c =
      run_ok
        (claim-Triple st (st.records a.store) euid egid token sandbox owner d new uids gids
          storable)
        a r (refl, sound) e in
    (
      c.is_new,
      c.uid_least,
      c.gid_least,
      c.fresh,
      λ id.
          rw (c.published.0, find-put r id (st.records a.store))
            (ap (λ (t : Bytes). if bytes_eq t id then some r else find id (st.records a.store))
              (ap (λ (x : LeaseRecord). x.lease_id) c.is_new)),
    )

-- A release that finishes found the caller's incarnation on file as `releasing`, and has removed its
-- record and no other, where the ledger can store each record on file.
pub finish_release_exact :
    (st : LeaseStore) (a : Allocator st.State) (expected : LeaseRecord)
    → All st.IsStorable (st.records a.store)
    → (finish_release st expected a).0 ≡ ok tt
    → ((current : LeaseRecord) × IsCurrent expected current (st.records a.store)
        × (current.state ≡ releasing))
      × ((id : Bytes)
          → find id (st.records (finish_release st expected a).1.store)
            ≡ (if bytes_eq expected.lease_id id then none else find id (st.records a.store)))
finish_release_exact st a expected sound e =
    let r =
      run_ok (Methods.finish_release-Triple st (st.records a.store) expected) a tt (refl, sound)
        e in
    (
      (r.current, r.is_current, r.in_state),
      λ id. rw (r.gone.0, find-drop_id expected.lease_id id (st.records a.store)),
    )
