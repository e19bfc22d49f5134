-- ===== src/Subid/Ledger/Disk/Listing.antt =====
-- The directory of crates/shbox/src/sandbox/subid/ledger.rs as a ledger: the records that its files
-- hold, in the order that `load` gives them.
use shbox.Prelude.{
  false, ◌≡◌, refl, ◌∙◌, List, [], ◌∷◌, ◌++◌, Option, none, some, arith, if◌then◌else◌,
}
use shbox.Prelude.Bytes.{Bytes, bytes_eq_iff}
use shbox.Prelude.Dict.{member}
use shbox.Storage.Files.{Lone}
use shbox.Subid.Ledger.{LeaseRecord}
use shbox.Subid.Ledger.Codec.{record_suffix}
use shbox.Subid.Ledger.Order.{Ordered, place-Ordered}
use shbox.Subid.Ledger.Records.{find, find-place}
use shbox.Subid.Ledger.Disk.{sort}
use shbox.Subid.Ledger.Disk.Names.{suffix_cancel}

-- The records at some names, where a name holds a record or none.
module _ (entry : Bytes → Option LeaseRecord) where
  abbrev with_entry : Option LeaseRecord → List LeaseRecord → List LeaseRecord
  with_entry none rs = rs
  with_entry (some r) rs = r ∷ rs

  unfoldable pub collect : List Bytes → List LeaseRecord
  collect [] = []
  collect (n ∷ ns) = with_entry (entry n) (collect ns)

  -- A record's file has its name.
  abbrev pub Named : Type 0
  Named = (n : Bytes) (r : LeaseRecord) → entry n ≡ some r → n ≡ r.lease_id ++ record_suffix

  abbrev pub entry_in : List Bytes → Bytes → Option LeaseRecord
  entry_in ns n = if member n ns then entry n else none

  module _ (named : Named) where
    find-with_entry :
        (n : Bytes) (ns : List Bytes) (o : Option LeaseRecord) (rs : List LeaseRecord)
        → entry n ≡ o
        → member n ns ≡ false
        → ((id : Bytes) → find id (sort rs) ≡ entry_in ns (id ++ record_suffix))
        → (id : Bytes) → find id (sort (with_entry o rs)) ≡ entry_in (n ∷ ns) (id ++ record_suffix)
    unfolding sort member
    find-with_entry n ns none rs e lone later id =
        ground (arith, later id, bytes_eq_iff n (id ++ record_suffix))
    find-with_entry n ns (some r) rs e lone later id =
        let is_name = named n r e in
        let absent = later r.lease_id in
        ground (
          arith,
          bytes_eq_iff n (id ++ record_suffix),
          find-place r id (sort rs),
          later id,
          bytes_eq_iff r.lease_id id,
          suffix_cancel record_suffix r.lease_id id,
        )

    Ordered-with_entry :
        (n : Bytes) (ns : List Bytes) (o : Option LeaseRecord) (rs : List LeaseRecord)
        → entry n ≡ o
        → member n ns ≡ false
        → ((id : Bytes) → find id (sort rs) ≡ entry_in ns (id ++ record_suffix))
        → Ordered (sort rs)
        → Ordered (sort (with_entry o rs))
    unfolding sort
    Ordered-with_entry n ns none rs e lone later o = o
    Ordered-with_entry n ns (some r) rs e lone later o =
        let is_name = named n r e in place-Ordered r (sort rs) o (later r.lease_id ∙ ground arith)

    -- What is found under a lease ID is what the file of its name holds.
    pub find-collect :
        (ns : List Bytes)
        → Lone ns
        → (id : Bytes) → find id (sort (collect ns)) ≡ entry_in ns (id ++ record_suffix)
    unfolding collect sort find member
    find-collect [] lone id = refl
    find-collect (n ∷ ns) lone id =
        find-with_entry n ns (entry n) (collect ns) refl lone.0 (find-collect ns lone.1) id

    pub collect-Ordered : (ns : List Bytes) → Lone ns → Ordered (sort (collect ns))
    unfolding collect sort
    collect-Ordered [] lone = tt
    collect-Ordered (n ∷ ns) lone =
        Ordered-with_entry n ns (entry n) (collect ns) refl lone.0 (find-collect ns lone.1)
          (collect-Ordered ns lone.1)
