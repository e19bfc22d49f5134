-- ===== src/Subid/Cache.antt =====
-- crates/shbox/src/sandbox/subid/delegation.rs: the cache of the delegation. What a call reads from
-- outside, in the order of the code, is its argument: the file generations, the account's name and
-- what getsubids answers.
pub mod History
pub mod Refresh
use shbox.Prelude.{ℕ, Bool, true, false, not, ◌&&◌, ◌==◌, Option, none, some, if◌then◌else◌}
use shbox.Prelude.Bytes.{Bytes}
use shbox.Subid.Delegation.{Delegation}

-- `present`, `len` and `modified` of a file's metadata.
pub record FileGeneration : Type 0 where
  pub present : Bool
  pub len : ℕ
  pub modified : Option ℕ

pub record DelegationGeneration : Type 0 where
  pub subuid : FileGeneration
  pub subgid : FileGeneration
  pub nsswitch : FileGeneration

unfoldable pub same_present : Bool → Bool → Bool
same_present true b = b
same_present false b = not b

unfoldable pub same_modified : Option ℕ → Option ℕ → Bool
same_modified none none = true
same_modified (some a) (some b) = a == b
same_modified _ _ = false

unfoldable pub same_file : FileGeneration → FileGeneration → Bool
same_file a b =
    same_present a.present b.present && a.len == b.len && same_modified a.modified b.modified

-- `==` on generations.
unfoldable pub same_generation : DelegationGeneration → DelegationGeneration → Bool
same_generation a b =
    same_file a.subuid b.subuid && same_file a.subgid b.subgid && same_file a.nsswitch b.nsswitch

-- The errors of a query; those of the account's lookup and of getsubids are one case.
pub data Error : Type 0 where
  cache_poisoned generation_changed : Error
  from_outside : Bytes → Error

pub data Result {ℓ} (A : Type ℓ) : Type ℓ where
  ok : A → Result A
  err : Error → Result A

pub record CachedDelegation : Type 0 where
  pub generation : DelegationGeneration
  pub delegation : Delegation

pub record DelegationCache : Type 0 where
  pub account : Option (Result Bytes)
  pub is_poisoned : Bool
  pub cached : Option CachedDelegation

-- What one call reads, in this order: the generation, the account's name, the delegation of an
-- account, the generation again, and if that differs, the delegation and the generation again.
pub record Readings : Type 0 where
  pub before : DelegationGeneration
  pub account_name : Result Bytes
  pub first : Bytes → Result Delegation
  pub after : DelegationGeneration
  pub second : Bytes → Result Delegation
  pub final : DelegationGeneration

-- A method's answer and the cache that it leaves.
abbrev pub Query : Type 0 → Type 0
Query A = DelegationCache → Result A × DelegationCache

abbrev pub bind :
    {A B : Type 0} → Result A × DelegationCache → (A → Query B) → Result B × DelegationCache
bind (ok a, cache) k = k a cache
bind (err e, cache) k = (err e, cache)

-- `OnceLock::get_or_init`
abbrev pub get_or_init : Option (Result Bytes) → Result Bytes → Query Bytes
get_or_init (some account) found cache = (account, cache)
get_or_init none found cache = (found, record cache { account = some found })

unfoldable pub current_account_name : Result Bytes → Query Bytes
current_account_name found cache = get_or_init cache.account found cache

abbrev pub is_other : DelegationGeneration → Option CachedDelegation → Bool
is_other generation none = true
is_other generation (some entry) = not (same_generation entry.generation generation)

unfoldable pub publish : DelegationGeneration → Delegation → Query (Unit {0})
publish generation delegation cache =
    if cache.is_poisoned
    then (err cache_poisoned, cache)
    else if is_other generation cache.cached
    then (
      ok tt,
      record cache { cached = some (record { generation = generation; delegation = delegation }) },
    )
    else (ok tt, cache)

-- The query from the account's name on.
unfoldable pub query_fresh : Readings → Query Delegation
query_fresh readings cache =
    bind (current_account_name readings.account_name cache) (λ account cache.
      bind (readings.first account, cache)
        (λ delegation cache.
          if not (same_generation readings.before readings.after)
          then bind (readings.second account, cache)
              (λ delegation cache.
                if not (same_generation readings.final readings.after)
                then (err generation_changed, cache)
                else bind (publish readings.final delegation cache)
                    (λ _ cache. (ok delegation, cache)))
          else bind (publish readings.before delegation cache) (λ _ cache. (ok delegation, cache))))

-- The query of a cache that was looked at.
abbrev pub query_cached : Readings → Option CachedDelegation → Query Delegation
query_cached readings none cache = query_fresh readings cache
query_cached readings (some entry) cache =
    if same_generation entry.generation readings.before
    then (ok entry.delegation, cache)
    else query_fresh readings cache

unfoldable pub query_with_generation : Bool → Readings → Query Delegation
query_with_generation force readings cache =
    if force
    then query_fresh readings cache
    else if cache.is_poisoned
    then (err cache_poisoned, cache)
    else query_cached readings cache.cached cache
