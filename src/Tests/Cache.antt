-- ===== src/Tests/Cache.antt =====
-- The delegation cache at concrete readings.
use shbox.Prelude.{◌≡◌, false, true, [], ◌∷◌, none, some, refl}
use shbox.Prelude.Bytes.{codes}
use shbox.Subid.Delegation.{Delegation}
use shbox.Subid.Cache.{
  FileGeneration, DelegationGeneration, DelegationCache, CachedDelegation, Readings, ok,
  query_with_generation,
}
use shbox.Subid.Cache.History.{Answered, query-Answered, replay}
use shbox.Subid.Cache.Refresh.{warm, refresh-IsForgotten}
use shbox.Tests.Samples.{delegation}

abbrev absent : FileGeneration
absent = record { present = false; len = 0; modified = none }

abbrev present : FileGeneration
present = record { present = true; len = 24; modified = some 7 }

abbrev generation : DelegationGeneration
generation = record { subuid = present; subgid = present; nsswitch = absent }

abbrev edited : DelegationGeneration
edited = record { subuid = present; subgid = present; nsswitch = present }

abbrev nothing : Delegation
nothing = record { uid_ranges = []; gid_ranges = [] }

-- The files change during the first query.
abbrev moving : Readings
moving = record {
  before = generation;
  account_name = ok (codes "shbox");
  first = λ account. ok nothing;
  after = edited;
  second = λ account. ok delegation;
  final = edited;
}

abbrev still : Readings
still = record moving { before = edited }

abbrev empty : DelegationCache
empty = record { account = none; is_poisoned = false; cached = none }

query-Answered_example :
    Answered still
      (moving ∷ [])
      (query_with_generation false still (replay empty ((false, moving) ∷ []))).0
query-Answered_example = query-Answered empty ((false, moving) ∷ []) false still refl

abbrev old : CachedDelegation
old = record { generation = edited; delegation = delegation }

refresh-IsForgotten_example :
    query_with_generation true still (warm (codes "shbox") old)
      ≡ (ok nothing, warm (codes "shbox") old)
    × (query_with_generation false still
        (query_with_generation true still (warm (codes "shbox") old)).1).0
      ≡ ok delegation
refresh-IsForgotten_example =
    refresh-IsForgotten (codes "shbox") old nothing still still refl refl refl refl
