-- ===== src/Subid/Cache/History.antt =====
-- Any sequence of calls of the delegation cache in crates/shbox/src/sandbox/subid/delegation.rs.
use shbox.Prelude.{
  ℕ, Bool, true, false, not, ◌&&◌, ==_iff, ◌==◌, ◌≡◌, ◌⊎◌, inl, inr, Option, none, some, List, [],
  ◌∷◌, refl, sym, ap, subst, arith, if◌then◌else◌,
}
use shbox.Prelude.Bytes.{Bytes}
use shbox.Subid.Delegation.{Delegation}
use shbox.Subid.Cache.{
  FileGeneration, DelegationGeneration, DelegationCache, CachedDelegation, Readings, Result, ok,
  err, Query, bind, same_present, same_modified, same_file, same_generation, is_other,
  current_account_name, get_or_init, publish, query_fresh, query_cached, query_with_generation,
}

and_true : (a b : Bool) → (a && b) ≡ true → a ≡ true × b ≡ true
and_true a b h = (ground (arith, h), ground (arith, h))

same_present→eq : (a b : Bool) → same_present a b ≡ true → a ≡ b
unfolding same_present
same_present→eq true b h = sym h
same_present→eq false true h = ground (arith, h)
same_present→eq false false h = refl

same_modified→eq : (a b : Option ℕ) → same_modified a b ≡ true → a ≡ b
unfolding same_modified
same_modified→eq none none h = refl
same_modified→eq (some a) (some b) h = ap some (ground (arith, h))
same_modified→eq none (some b) h = ground (arith, h)
same_modified→eq (some a) none h = ground (arith, h)

same_file→eq : (a b : FileGeneration) → same_file a b ≡ true → a ≡ b
unfolding same_file
same_file→eq a b h =
    let (pl, m) =
      and_true (same_present a.present b.present && a.len == b.len)
        (same_modified a.modified b.modified) h in
    let (p, l) = and_true (same_present a.present b.present) (a.len == b.len) pl in
    let present = same_present→eq a.present b.present p in
    let len = (==_iff a.len b.len).0 l in
    let modified = same_modified→eq a.modified b.modified m in
    λ i. record { present = present i; len = len i; modified = modified i }

same_generation→eq : (a b : DelegationGeneration) → same_generation a b ≡ true → a ≡ b
unfolding same_generation
same_generation→eq a b h =
    let (ug, n) =
      and_true (same_file a.subuid b.subuid && same_file a.subgid b.subgid)
        (same_file a.nsswitch b.nsswitch) h in
    let (u, g) = and_true (same_file a.subuid b.subuid) (same_file a.subgid b.subgid) ug in
    let subuid = same_file→eq a.subuid b.subuid u in
    let subgid = same_file→eq a.subgid b.subgid g in
    let nsswitch = same_file→eq a.nsswitch b.nsswitch n in
    λ i. record { subuid = subuid i; subgid = subgid i; nsswitch = nsswitch i }

-- The call read the generation `g`, then the delegation `d`, then `g` again.
abbrev pub IsBetween : Readings → DelegationGeneration → Delegation → Type 0
IsBetween r g d =
    (account : Bytes) × ((r.before ≡ g × r.after ≡ g × r.first account ≡ ok d)
      ⊎ (r.after ≡ g × r.final ≡ g × r.second account ≡ ok d))

-- Some call of a history did.
abbrev pub IsSeen : List Readings → DelegationGeneration → Delegation → Type 0
IsSeen [] g d = ⊥
IsSeen (r ∷ log) g d = IsBetween r g d ⊎ IsSeen log g d

abbrev EntryIsSeen : List Readings → Option CachedDelegation → Type 0
EntryIsSeen log none = Unit
EntryIsSeen log (some entry) = IsSeen log entry.generation entry.delegation

-- An answer that a call may give after a history: an error, or a delegation that some call read
-- between two readings of one generation, which is the one that this call read last.
abbrev pub Answered : Readings → List Readings → Result Delegation → Type 0
Answered r log (ok d) =
    (g : DelegationGeneration) × IsSeen (r ∷ log) g d × ((g ≡ r.before) ⊎ (g ≡ r.final))
Answered r log (err e) = Unit

Fine : Readings → List Readings → Result Delegation × DelegationCache → Type 0
Fine r log (m, cache) = EntryIsSeen (r ∷ log) cache.cached × Answered r log m

EntryIsSeen-later :
    (r : Readings) (log : List Readings) (entry : Option CachedDelegation)
    → EntryIsSeen log entry
    → EntryIsSeen (r ∷ log) entry
EntryIsSeen-later r log none h = tt
EntryIsSeen-later r log (some entry) h = inr h

Fine-bind :
    {A : Type 0} (r : Readings) (log : List Readings) (m : Result A) (cache : DelegationCache)
    (k : A → Query Delegation)
    → EntryIsSeen (r ∷ log) cache.cached
    → ((a : A) → m ≡ ok a → Fine r log (k a cache))
    → Fine r log (bind (m, cache) k)
unfolding Fine
Fine-bind r log (ok a) cache k h f = f a refl
Fine-bind r log (err e) cache k h f = (h, tt)

Fine-if :
    (r : Readings) (log : List Readings) (t : Bool) (p q : Result Delegation × DelegationCache)
    → (t ≡ true → Fine r log p)
    → (t ≡ false → Fine r log q)
    → Fine r log (if t then p else q)
Fine-if r log true p q f g = f refl
Fine-if r log false p q f g = g refl

IsSeen-if :
    (log : List Readings) (t : Bool) (p q : Result (Unit {0}) × DelegationCache)
    → EntryIsSeen log p.1.cached
    → EntryIsSeen log q.1.cached
    → EntryIsSeen log (if t then p else q).1.cached
IsSeen-if log true p q f g = f
IsSeen-if log false p q f g = g

publish-cached :
    (log : List Readings) (g : DelegationGeneration) (d : Delegation) (cache : DelegationCache)
    → EntryIsSeen log cache.cached
    → IsSeen log g d
    → EntryIsSeen log ((publish g d cache).1).cached
unfolding publish
publish-cached log g d cache old new =
    IsSeen-if log cache.is_poisoned _ _ old (IsSeen-if log (is_other g cache.cached) _ _ new old)

get_or_init-cached :
    (account : Option (Result Bytes)) (found : Result Bytes) (cache : DelegationCache)
    → (get_or_init account found cache).1.cached ≡ cache.cached
get_or_init-cached (some account) found cache = refl
get_or_init-cached none found cache = refl

account-cached :
    (found : Result Bytes) (cache : DelegationCache)
    → (current_account_name found cache).1.cached ≡ cache.cached
unfolding current_account_name
account-cached found cache = get_or_init-cached cache.account found cache

not_other : (a b : DelegationGeneration) → not (same_generation a b) ≡ false → a ≡ b
not_other a b h = same_generation→eq a b (ground (arith, h))

-- An answer that was read between two readings of a generation, and is published under it.
published-Fine :
    (r : Readings) (log : List Readings) (g : DelegationGeneration) (d : Delegation)
    (cache : DelegationCache)
    → EntryIsSeen (r ∷ log) cache.cached
    → IsBetween r g d
    → (g ≡ r.before) ⊎ (g ≡ r.final)
    → Fine r log (bind (publish g d cache) (λ _ cache. (ok d, cache)))
unfolding Fine
published-Fine r log g d cache h between last =
    Fine-bind r log (publish g d cache).0 (publish g d cache).1 (λ _ cache. (ok d, cache))
      (publish-cached (r ∷ log) g d cache h (inl between))
      (λ _ _. (publish-cached (r ∷ log) g d cache h (inl between), (g, inl between, last)))

query_fresh-Fine :
    (r : Readings) (log : List Readings) (cache : DelegationCache)
    → EntryIsSeen (r ∷ log) cache.cached
    → Fine r log (query_fresh r cache)
unfolding query_fresh Fine
query_fresh-Fine r log cache h =
    Fine-bind r log named.0 named.1 _
      (subst (EntryIsSeen (r ∷ log)) (sym (account-cached r.account_name cache)) h)
      λ account _. Fine-bind r log (r.first account) named.1 _ kept λ d first.
        Fine-if r log (not (same_generation r.before r.after)) _ _
          (λ _. Fine-bind r log (r.second account) named.1 _ kept λ d second.
            Fine-if r log (not (same_generation r.final r.after)) _ _ (λ _. (kept, tt))
              (λ same.
                published-Fine r log r.final d named.1 kept
                  (account, inr (sym (not_other r.final r.after same), refl, second)) (inr refl)))
          (λ same.
            published-Fine r log r.before d named.1 kept
              (account, inl (refl, sym (not_other r.before r.after same), first)) (inl refl))
  where
    named : Result Bytes × DelegationCache
    named = current_account_name r.account_name cache

    kept : EntryIsSeen (r ∷ log) named.1.cached
    kept = subst (EntryIsSeen (r ∷ log)) (sym (account-cached r.account_name cache)) h

query_cached-Fine :
    (r : Readings) (log : List Readings) (found : Option CachedDelegation) (cache : DelegationCache)
    → EntryIsSeen (r ∷ log) found
    → EntryIsSeen (r ∷ log) cache.cached
    → Fine r log (query_cached r found cache)
unfolding Fine
query_cached-Fine r log none cache entry h = query_fresh-Fine r log cache h
query_cached-Fine r log (some found) cache entry h =
    Fine-if r log (same_generation found.generation r.before) _ _
      (λ same.
        (h, (found.generation, entry, inl (same_generation→eq found.generation r.before same))))
      (λ _. query_fresh-Fine r log cache h)

query-Fine :
    (force : Bool) (r : Readings) (log : List Readings) (cache : DelegationCache)
    → EntryIsSeen log cache.cached
    → Fine r log (query_with_generation force r cache)
unfolding query_with_generation Fine
query-Fine force r log cache h =
    Fine-if r log force _ _ (λ _. query_fresh-Fine r log cache later)
      (λ _.
        Fine-if r log cache.is_poisoned _ _ (λ _. (later, tt))
          (λ _. query_cached-Fine r log cache.cached cache later later))
  where
    later : EntryIsSeen (r ∷ log) cache.cached
    later = EntryIsSeen-later r log cache.cached h

-- The cache after a sequence of calls, the last of them first.
abbrev pub replay : DelegationCache → List (Bool × Readings) → DelegationCache
replay start [] = start
replay start ((force, r) ∷ calls) = (query_with_generation force r (replay start calls)).1

abbrev pub log_of : List (Bool × Readings) → List Readings
log_of [] = []
log_of ((force, r) ∷ calls) = r ∷ log_of calls

replay-EntryIsSeen :
    (start : DelegationCache) (calls : List (Bool × Readings))
    → start.cached ≡ none
    → EntryIsSeen (log_of calls) (replay start calls).cached
unfolding Fine
replay-EntryIsSeen start [] empty = subst (EntryIsSeen []) (sym empty) tt
replay-EntryIsSeen start ((force, r) ∷ calls) empty =
    (query-Fine force r (log_of calls) (replay start calls)
      (replay-EntryIsSeen start calls empty)).0

-- After any sequence of queries and refreshes on an empty cache, each call answers with an error,
-- or with a delegation that this or an earlier call read between two equal readings of the
-- generation, and that generation is the first or the last that this call read.
pub query-Answered :
    (start : DelegationCache) (calls : List (Bool × Readings)) (force : Bool) (r : Readings)
    → start.cached ≡ none
    → Answered r (log_of calls) (query_with_generation force r (replay start calls)).0
unfolding Fine
query-Answered start calls force r empty =
    (query-Fine force r (log_of calls) (replay start calls)
      (replay-EntryIsSeen start calls empty)).1
