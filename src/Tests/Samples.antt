-- ===== src/Tests/Samples.antt =====
-- A ledger held in memory, and sample values for the tests.
use shbox.Prelude.{◌≡◌, refl, false, List, [], ◌∷◌, none, All}
use shbox.Prelude.Bytes.{codes}
use shbox.Subid.Delegation.{Delegation}
use shbox.Subid.Ledger.{LeaseRecord, active, releasing, quarantined, ok}
use shbox.Subid.Ledger.Records.{find, put, drop_id}
use shbox.Subid.Ledger.Interface.{LeaseStore}
use shbox.Subid.Allocator.Monad.{Allocator}
use shbox.Subid.Allocator.{claimed}

pub All-units : (s : List LeaseRecord) → All (λ r. Unit {0}) s
All-units [] = tt
All-units (r ∷ s) = (tt, All-units s)

pub ok_eq : {A : Type 0} (x y : A) → ok y ≡ ok x → x ≡ y
ok_eq x y e = cc

-- Every operation succeeds.
abbrev pub memory : LeaseStore
memory = record {
  State = List LeaseRecord;
  records = λ s. s;
  lock = λ s. (ok tt, s);
  load = λ s. (ok s, s);
  read = λ id s. (ok (find id s), s);
  write = λ r s. (ok tt, put r s);
  remove = λ id s. (ok tt, drop_id id s);
  remove_stale_temps = λ s. (ok tt, s);
  IsStorable = λ r. Unit {0};
  IsReadable = λ reason. Unit {0};
  with_state-IsStorable = λ r st h. tt;
  with_quarantine_reason-IsStorable = λ r reason h k. tt;
  records-lock = λ s. refl;
  records-load = λ s. refl;
  records-read = λ id s. refl;
  records-remove_stale_temps = λ s. refl;
  load_lem = λ s rs e. ok_eq rs s e;
  read_lem = λ id s o e. ok_eq o (find id s) e;
  write_lem = λ r s h. refl;
  remove_lem = λ id s. refl;
}

abbrev pub start : List LeaseRecord → Allocator (List LeaseRecord)
start rs = record {
  store = rs;
  selection_is_poisoned = false;
  lease_ids_is_poisoned = false;
  pending_is_poisoned = false;
  lease_ids = [];
  pending_activations = [];
}

abbrev pub delegation : Delegation
delegation = record {
  uid_ranges = record { start = 100000; count = 3 } ∷ record { start = 100003; count = 2 } ∷ [];
  gid_ranges = record { start = 200000; count = 5 } ∷ [];
}

abbrev pub held : LeaseRecord
held = record {
  lease_id = codes "0a";
  sandbox_id = codes "box";
  owner = codes "me";
  uid = 100000;
  gid = 200001;
  state = active;
  quarantine_reason = none;
}

abbrev pub taken : LeaseRecord
taken = claimed memory (codes "0b") (codes "new") (codes "me") 100001 200000

abbrev pub leaving : LeaseRecord
leaving = record held { state = releasing }

abbrev pub parked : LeaseRecord
parked = record held { state = quarantined }
