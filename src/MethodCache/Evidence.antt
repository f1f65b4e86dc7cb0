-- ===== src/MethodCache/Evidence.antt =====
-- A render is skipped only on enough of the comparisons that were made.
use stolosio.Prelude.{
  ℕ, ◌+◌, ◌≤◌, ◌<◌, String, Option, none, some, List, [], ◌∷◌, ◌++◌, Bool, true, false, not, ◌&&◌,
  ◌≡◌, refl, inl, inr, Time, ltb, leb, ◌==◌, by_test, Bool-cases, length, count, arith,
}
use stolosio.Prelude.Dicts.{lookup}
use stolosio.MethodCache.Entry.{MethodEntry, is_current, is_usual}
use stolosio.MethodCache.Store.{Comparison}
use stolosio.MethodCache.Policy.{
  Settings, CacheDecision, cache_url, cache_pattern, fresh_entry, fresh, pattern_decision,
  exact_decision, http_sufficient,
}
use stolosio.MethodCache.History.{made, IsCounted, IsBacked, record_each, record_each-IsConsistent}

-- What a decision reports of a key: these are the newest comparisons made for it, so many of them
-- sufficient, and the newest one is no older than the entries' life.
pub record IsFound (ttl now : Time) (past : List Comparison) (sufficient comparisons : ℕ)
    : Type 0 where
  pub newest : Comparison
  pub earlier : List Comparison
  pub older : List Comparison
  pub split : past ≡ newest ∷ earlier ++ older
  pub total : length (newest ∷ earlier) ≡ comparisons
  pub good : count (λ c. c.sufficient) (newest ∷ earlier) ≡ sufficient
  pub recent : now ≤ newest.now + ttl

-- For the URL itself, all of its newest comparisons were sufficient; for a pattern, enough of its
-- newest ones, and the others are fewer than the limit.
abbrev pub IsEvidenced :
    Settings → Time → List Comparison → List Comparison → Option CacheDecision → Type 0
IsEvidenced s now exact pattern none = Unit
IsEvidenced s now exact pattern (some (cache_url sufficient comparisons)) =
    IsFound s.cache_ttl now exact sufficient comparisons × (comparisons ≡ sufficient)
IsEvidenced s now exact pattern (some (cache_pattern sufficient comparisons)) =
    IsFound s.cache_ttl now pattern sufficient comparisons
    × (s.pattern_min_comparisons ≤ sufficient)
    × (comparisons < sufficient + s.pattern_max_contradictions)

count_split :
    (cs : List Comparison)
    → count (λ c. c.sufficient) cs + count (λ c. not c.sufficient) cs ≡ length cs
count_split [] = refl
count_split (c ∷ cs) = let ih = count_split cs in go c.sufficient refl ih
  where
    go :
        (b : Bool)
        → c.sufficient ≡ b
        → count (λ c. c.sufficient) cs + count (λ c. not c.sufficient) cs ≡ length cs
        → count (λ c. c.sufficient) (c ∷ cs) + count (λ c. not c.sufficient) (c ∷ cs)
          ≡ length (c ∷ cs)
    go true e ih = rw e (omega arith)
    go false e ih = rw e (omega arith)

-- An entry that is still current, with what it counts.
abbrev BackedOption : Time → Time → List Comparison → Option MethodEntry → Type 0
BackedOption ttl now past o =
    (e : MethodEntry) → o ≡ some e → IsBacked past e × (is_current ttl now e ≡ true)

fresh-BackedOption :
    (ttl now : Time) (past : List Comparison) (o : Option MethodEntry)
    → ((e : MethodEntry) → o ≡ some e → IsBacked past e)
    → BackedOption ttl now past (fresh_entry ttl now o)
fresh-BackedOption ttl now past none h e l = absurd (cc)
fresh-BackedOption ttl now past (some f) h e l = elim (Bool-cases (is_current ttl now f)) [
  | inl t ↦ let x : some f ≡ some e = rw t at l in let same : f ≡ e = cc in (h e x, rw same at t)
  | inr t ↦ absurd (let x : none ≡ some e = rw t at l in cc)
]

found :
    (ttl now : Time) (past : List Comparison) (e : MethodEntry)
    → IsBacked past e
    → is_current ttl now e ≡ true
    → IsFound ttl now past e.sufficient e.comparisons
found ttl now past e b t =
    let seen = b.seen in
    record {
      newest = b.newest;
      earlier = b.earlier;
      older = b.older;
      split = b.counted.split;
      total = b.counted.total;
      good = b.counted.good;
      recent = ground arith;
    }

counted_total :
    (past recent older : List Comparison) (e : MethodEntry)
    → IsCounted past recent older e
    → e.comparisons ≡ e.sufficient + e.contradictions
counted_total past recent older e c =
    let total = c.total in
    let good = c.good in let bad = c.bad in let all = count_split recent in omega arith

pattern_decision-IsEvidenced :
    (s : Settings) (now : Time) (http_bytes : ℕ) (exact past : List Comparison)
    (o : Option MethodEntry)
    → BackedOption s.cache_ttl now past o
    → IsEvidenced s now exact past (pattern_decision s http_bytes o)
unfolding pattern_decision
pattern_decision-IsEvidenced s now http_bytes exact past none h = tt
pattern_decision-IsEvidenced s now http_bytes exact past (some e) h =
    let (b, current) = h e refl in
    by_test (IsEvidenced s now exact past)
      (leb s.pattern_min_comparisons e.sufficient
        && (ltb e.contradictions s.pattern_max_contradictions && is_usual http_bytes e))
      (λ t.
        let total = counted_total past (b.newest ∷ b.earlier) b.older e b.counted in
        (found s.cache_ttl now past e b current, ground arith, ground arith))
      (λ t. tt)

exact_decision-IsEvidenced :
    (s : Settings) (now : Time) (http_bytes : ℕ) (past pattern : List Comparison)
    (o : Option MethodEntry) (other : Option CacheDecision)
    → BackedOption s.cache_ttl now past o
    → IsEvidenced s now past pattern other
    → IsEvidenced s now past pattern (exact_decision http_bytes o other)
unfolding exact_decision
exact_decision-IsEvidenced s now http_bytes past pattern none other h p = p
exact_decision-IsEvidenced s now http_bytes past pattern (some e) other h p =
    let (b, current) = h e refl in
    by_test (IsEvidenced s now past pattern) (not (e.contradictions == 0)) (λ t. tt)
      (λ t.
        by_test (IsEvidenced s now past pattern) (e.last_sufficient && is_usual http_bytes e)
          (λ u.
            let total = counted_total past (b.newest ∷ b.earlier) b.older e b.counted in
            (found s.cache_ttl now past e b current, ground arith))
          (λ u. p))

module _ (url_keys : String → String × String) (s : Settings) where
  -- After any comparisons, at any times, over an empty cache: a decision for the URL itself reports
  -- the newest comparisons made for the URL, one at least, all of them sufficient; a decision for
  -- its pattern reports the newest comparisons made for the pattern, of which at least the
  -- configured number were sufficient and fewer than the configured number were not; and the newest
  -- of them is no older than the entries' life.
  pub http_sufficient-IsEvidenced :
      (comparisons : List Comparison) (url : String) (http_bytes : ℕ) (now : Time)
      → IsEvidenced s now
          (made comparisons (λ k. []) (url_keys url).0)
          (made comparisons (λ k. []) (url_keys url).1)
          (http_sufficient url_keys s url http_bytes now (record_each s.cache_ttl comparisons []))
  unfolding http_sufficient
  http_sufficient-IsEvidenced comparisons url http_bytes now =
      let entries = record_each s.cache_ttl comparisons [] in
      let (exact_key, pattern_key) = url_keys url in
      let past = made comparisons (λ k. []) in
      let consistent =
        record_each-IsConsistent s.cache_ttl comparisons [] (λ k. []) (λ k e l. absurd (cc)) in
      exact_decision-IsEvidenced s now http_bytes (past exact_key) (past pattern_key)
        (fresh s entries exact_key now) _
        (fresh-BackedOption s.cache_ttl now (past exact_key) (lookup exact_key entries)
          (consistent exact_key))
        (pattern_decision-IsEvidenced s now http_bytes (past exact_key) (past pattern_key)
          (fresh s entries pattern_key now)
          (fresh-BackedOption s.cache_ttl now (past pattern_key) (lookup pattern_key entries)
            (consistent pattern_key)))
