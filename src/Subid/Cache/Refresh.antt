-- ===== src/Subid/Cache/Refresh.antt =====
-- What a refresh in crates/shbox/src/sandbox/subid/delegation.rs leaves for the next query.
use shbox.Prelude.{
  ℕ, Bool, true, false, ==_iff, ◌≡◌, Option, none, some, refl, sym, ap, subst, ◌∙◌, arith,
}
use shbox.Prelude.Bytes.{Bytes}
use shbox.Subid.Delegation.{Delegation}
use shbox.Subid.Cache.{
  FileGeneration, DelegationGeneration, DelegationCache, CachedDelegation, Readings, ok,
  same_present, same_modified, same_file, same_generation, current_account_name, publish,
  query_fresh, query_with_generation,
}

same_present_refl : (a : Bool) → same_present a a ≡ true
unfolding same_present
same_present_refl true = refl
same_present_refl false = refl

same_modified_refl : (a : Option ℕ) → same_modified a a ≡ true
unfolding same_modified
same_modified_refl none = refl
same_modified_refl (some a) = (==_iff a a).1 refl

same_file_refl : (a : FileGeneration) → same_file a a ≡ true
unfolding same_file
same_file_refl a =
    ground (
      arith,
      same_present_refl a.present,
      (==_iff a.len a.len).1 refl,
      same_modified_refl a.modified,
    )

same_generation_refl : (a : DelegationGeneration) → same_generation a a ≡ true
unfolding same_generation
same_generation_refl a =
    ground (arith, same_file_refl a.subuid, same_file_refl a.subgid, same_file_refl a.nsswitch)

-- A cache that holds an entry and the account's name.
abbrev pub warm : Bytes → CachedDelegation → DelegationCache
warm account entry = record {
  account = some (ok account);
  is_poisoned = false;
  cached = some entry;
}

same : (a b c : DelegationGeneration) → a ≡ c → b ≡ c → same_generation a b ≡ true
same a b c p q = subst (λ x. same_generation a x ≡ true) (p ∙ sym q) (same_generation_refl a)

refresh-warm :
    (account : Bytes) (entry : CachedDelegation) (d : Delegation) (r : Readings)
    → same_generation r.before r.after ≡ true
    → same_generation entry.generation r.before ≡ true
    → r.first account ≡ ok d
    → query_with_generation true r (warm account entry) ≡ (ok d, warm account entry)
unfolding query_with_generation query_fresh publish current_account_name
refresh-warm account entry d r still known first = simp (first, still, known)

query-warm :
    (account : Bytes) (entry : CachedDelegation) (r : Readings)
    → same_generation entry.generation r.before ≡ true
    → query_with_generation false r (warm account entry) ≡ (ok entry.delegation, warm account entry)
unfolding query_with_generation
query-warm account entry r known = simp known

-- A refresh of a warm cache while the generation stays that of the entry answers with what
-- getsubids says now, and it leaves the cache as it was: a query after it that reads this
-- generation still answers with the delegation of the old entry.
pub refresh-IsForgotten :
    (account : Bytes) (entry : CachedDelegation) (d : Delegation) (r next : Readings)
    → r.before ≡ entry.generation
    → r.after ≡ entry.generation
    → r.first account ≡ ok d
    → next.before ≡ entry.generation
    → query_with_generation true r (warm account entry) ≡ (ok d, warm account entry)
      × (query_with_generation false next (query_with_generation true r (warm account entry)).1).0
        ≡ ok entry.delegation
refresh-IsForgotten account entry d r next before after first following = (
  refreshed,
  subst (λ cache. (query_with_generation false next cache).0 ≡ ok entry.delegation)
      (sym (ap (λ p. p.1) refreshed))
      (ap (λ p. p.0)
        (query-warm account entry next
          (same entry.generation next.before entry.generation refl following))),
)
  where
    refreshed : query_with_generation true r (warm account entry) ≡ (ok d, warm account entry)
    refreshed =
        refresh-warm account entry d r (same r.before r.after entry.generation before after)
          (same entry.generation r.before entry.generation refl before) first
