-- ===== src/MethodCache/Stickiness.antt =====
-- A contradiction keeps the pages of its URL rendered until it expires.
use stolosio.Prelude.{
  ℕ, ◌+◌, ◌≤◌, String, str_eq, str_eq_iff, Option, none, some, List, [], ◌∷◌, true, false, not, ◌≡◌,
  refl, Time, ◌==◌, All, arith, by_test,
}
use stolosio.Prelude.Dicts.{lookup, lookup-insert}
use stolosio.MethodCache.Entry.{
  MethodEntry, is_current, current_or_new, compared, record_comparison,
}
use stolosio.MethodCache.Store.{Comparison, MemoryMethodCache, record_key, record_memory}
use stolosio.MethodCache.Policy.{
  Settings, CacheDecision, fresh_entry, exact_decision, http_sufficient, comparison,
}
use stolosio.MethodCache.History.{record_each}

-- The entry has a contradiction and was seen at `t` or later.
record IsContradicted (t : Time) (o : Option MethodEntry) : Type 0 where
  entry : MethodEntry
  found : o ≡ some entry
  contradicted : 1 ≤ entry.contradictions
  seen : t ≤ entry.last_seen

-- Between `t` and the end of the entry's life, if it was seen at `t`.
abbrev pub IsWithin : Time → Time → Time → Type 0
IsWithin t ttl now = (t ≤ now) × (now ≤ t + ttl)

fresh-IsContradicted :
    (t ttl now : Time) (o : Option MethodEntry)
    → now ≤ t + ttl
    → IsContradicted t o
    → IsContradicted t (fresh_entry ttl now o)
fresh-IsContradicted t ttl now o w c =
    let still : is_current ttl now c.entry ≡ true = let s = c.seen in ground arith in
    record {
      entry = c.entry;
      found = rw c.found (rw still refl);
      contradicted = c.contradicted;
      seen = c.seen;
    }

compared_again :
    (t ttl : Time) (c : Comparison) (o : Option MethodEntry)
    → IsWithin t ttl c.now
    → IsContradicted t o
    → IsContradicted t (some (record_comparison o c.sufficient c.http_bytes c.now ttl))
unfolding record_comparison
compared_again t ttl c o w k =
    let still : is_current ttl c.now k.entry ≡ true = let s = k.seen in ground arith in
    let same : current_or_new ttl c.now o ≡ k.entry = rw k.found (rw still refl) in
    record {
      entry = compared c.sufficient c.http_bytes c.now (current_or_new ttl c.now o);
      found = refl;
      contradicted = rw same (let s = k.contradicted in omega arith);
      seen = w.0;
    }

record_key-IsContradicted :
    (t ttl : Time) (c : Comparison) (key k : String) (entries : MemoryMethodCache)
    → IsWithin t ttl c.now
    → IsContradicted t (lookup k entries)
    → IsContradicted t (lookup k (record_key ttl c key entries))
record_key-IsContradicted t ttl c key k entries w i =
    rw
      (lookup-insert k key
        (record_comparison (lookup key entries) c.sufficient c.http_bytes c.now ttl) entries)
      (by_test (IsContradicted t) (str_eq key k)
        (λ e.
          let same : key ≡ k = (str_eq_iff key k).0 e in
          compared_again t ttl c (lookup key entries) w (rw same i))
        (λ e. i))

record_each-IsContradicted :
    (t ttl : Time) (comparisons : List Comparison) (k : String) (entries : MemoryMethodCache)
    → All (λ c. IsWithin t ttl c.now) comparisons
    → IsContradicted t (lookup k entries)
    → IsContradicted t (lookup k (record_each ttl comparisons entries))
unfolding record_each record_memory
record_each-IsContradicted t ttl [] k entries w i = i
record_each-IsContradicted t ttl (c ∷ comparisons) k entries w i =
    record_each-IsContradicted t ttl comparisons k _ w.1 (
      record_key-IsContradicted t ttl c c.pattern_key k (record_key ttl c c.exact_key entries) w.0
        (record_key-IsContradicted t ttl c c.exact_key k entries w.0 i))

first_IsContradicted :
    (ttl : Time) (c : Comparison) (entries : MemoryMethodCache)
    → c.sufficient ≡ false
    → IsContradicted c.now (lookup c.exact_key (record_key ttl c c.exact_key entries))
unfolding record_comparison
first_IsContradicted ttl c entries f =
    rw
      (lookup-insert c.exact_key c.exact_key
        (record_comparison (lookup c.exact_key entries) c.sufficient c.http_bytes c.now ttl)
        entries)
      (rw ((str_eq_iff c.exact_key c.exact_key).1 refl) (record {
        entry =
            compared c.sufficient c.http_bytes c.now
              (current_or_new ttl c.now (lookup c.exact_key entries));
        found = refl;
        contradicted = rw f (omega arith);
        seen = omega arith;
      }))

exact_decision-none :
    (t : Time) (http_bytes : ℕ) (o : Option MethodEntry) (other : Option CacheDecision)
    → IsContradicted t o
    → exact_decision http_bytes o other ≡ none
unfolding exact_decision
exact_decision-none t http_bytes o other i =
    let some_contradiction : not (i.entry.contradictions == 0) ≡ true =
      let c = i.contradicted in ground arith in
    rw i.found (rw some_contradiction refl)

module _ (url_keys : String → String × String) (s : Settings) where
  -- After a comparison that found a URL's plain response insufficient, at a time `t`: whatever is
  -- compared afterwards, the same URL found sufficient or not, no capture of that URL skips its
  -- render, as long as the comparisons and the capture are at times from `t` on and no later than
  -- the entry's life after `t`.
  pub http_sufficient-sticks :
      (url : String) (bytes http_bytes : ℕ) (t now : Time) (comparisons : List Comparison)
      (entries : MemoryMethodCache)
      → All (λ c. IsWithin t s.cache_ttl c.now) comparisons
      → IsWithin t s.cache_ttl now
      → http_sufficient url_keys s url http_bytes now (
          record_each s.cache_ttl comparisons
            (record_memory s.cache_ttl (comparison url_keys s url false bytes t) entries))
        ≡ none
  unfolding http_sufficient record_memory
  http_sufficient-sticks url bytes http_bytes t now comparisons entries w n =
      let c = comparison url_keys s url false bytes t in
      exact_decision-none t http_bytes _ _ (
        fresh-IsContradicted t s.cache_ttl now _ n.1 (
          record_each-IsContradicted t s.cache_ttl comparisons c.exact_key _ w (
            record_key-IsContradicted t s.cache_ttl c c.pattern_key c.exact_key _
              (omega arith, omega arith) (first_IsContradicted s.cache_ttl c entries refl))))
