-- ===== src/MethodCache/Policy.antt =====
-- packages/pagecapture/src/pagecapture/cache.py: MethodPolicy. `url_keys` is a section parameter.
use stolosio.Prelude.{
  ℕ, String, Option, none, some, Bool, not, ◌&&◌, Time, if◌then◌else◌, ltb, leb, ◌==◌,
}
use stolosio.Prelude.Dicts.{lookup}
use stolosio.MethodCache.Entry.{MethodEntry, is_current, is_usual}
use stolosio.MethodCache.Store.{Comparison, MemoryMethodCache}

-- The settings that the policy reads; the days are a time.
pub record Settings : Type 0 where
  pub cache_ttl : Time
  pub pattern_min_comparisons : ℕ
  pub pattern_max_contradictions : ℕ

-- The sufficient ones and all comparisons stand in the detail.
pub data CacheDecision : Type 0 where
  cache_url cache_pattern : ℕ → ℕ → CacheDecision

abbrev pub fresh_entry : Time → Time → Option MethodEntry → Option MethodEntry
fresh_entry ttl now none = none
fresh_entry ttl now (some e) = if is_current ttl now e then some e else none

-- `_fresh`
abbrev pub fresh : Settings → MemoryMethodCache → String → Time → Option MethodEntry
fresh s entries key now = fresh_entry s.cache_ttl now (lookup key entries)

unfoldable pub pattern_decision : Settings → ℕ → Option MethodEntry → Option CacheDecision
pattern_decision s http_bytes none = none
pattern_decision s http_bytes (some e) =
    if leb s.pattern_min_comparisons e.sufficient
      && (ltb e.contradictions s.pattern_max_contradictions && is_usual http_bytes e)
    then some (cache_pattern e.sufficient e.comparisons)
    else none

unfoldable pub exact_decision : ℕ → Option MethodEntry → Option CacheDecision → Option CacheDecision
exact_decision http_bytes none other = other
exact_decision http_bytes (some e) other =
    if not (e.contradictions == 0)
    then none
    else if e.last_sufficient && is_usual http_bytes e
    then some (cache_url e.sufficient e.comparisons)
    else other

module _ (url_keys : String → String × String) (s : Settings) where
  unfoldable pub http_sufficient : String → ℕ → Time → MemoryMethodCache → Option CacheDecision
  unfolding exact_decision pattern_decision
  http_sufficient url http_bytes now entries =
      let (exact_key, pattern_key) = url_keys url in
      exact_decision http_bytes (fresh s entries exact_key now)
        (pattern_decision s http_bytes (fresh s entries pattern_key now))

  abbrev pub comparison : String → Bool → ℕ → Time → Comparison
  comparison url sufficient http_bytes now =
      let (exact_key, pattern_key) = url_keys url in
      record {
        exact_key = exact_key;
        pattern_key = pattern_key;
        sufficient = sufficient;
        http_bytes = http_bytes;
        now = now;
      }
