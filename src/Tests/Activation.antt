-- ===== src/Tests/Activation.antt =====
-- The acknowledgement of a lease, on a ledger with one lease.
use shbox.Prelude.{◌≡◌, ◌≢◌, refl, [], ◌∷◌, List}
use shbox.Prelude.Bytes.{bytes_eq}
use shbox.Subid.Ledger.{LeaseRecord, same_incarnation}
use shbox.Subid.Ledger.Records.{find}
use shbox.Subid.Allocator.Monad.{Allocator, ok}
use shbox.Prelude.Dict.{member, discard}
use shbox.Subid.Allocator.Activation.{activate_once}
use shbox.Subid.Allocator.{activate, activate_match, mutation_guard, same_record}
use shbox.Tests.Samples.{memory, start, held}

-- The lease is acknowledged after the daemon noted its token.
abbrev noting : Allocator (List LeaseRecord)
noting = record (start (held ∷ [])) { pending_activations = held.lease_id ∷ [] }

first-run : (activate memory held noting).0 ≡ ok held
unfolding activate mutation_guard same_record activate_match find bytes_eq same_incarnation member
    discard
first-run = refl

activate_once_example : (activate memory held (activate memory held noting).1).0 ≢ ok held
activate_once_example = activate_once memory noting held held held refl first-run
