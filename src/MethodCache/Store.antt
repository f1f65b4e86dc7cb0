-- ===== src/MethodCache/Store.antt =====
-- MemoryMethodCache of packages/pagecapture/src/pagecapture/cache.py, and PostgresMethodCache of
-- backend/proxy/capture/cache.py. A transaction is one step.
use stolosio.Prelude.{ℕ, String, Option, none, some, List, Bool, Time, if◌then◌else◌}
use stolosio.Prelude.Dicts.{lookup, insert}
use stolosio.MethodCache.Entry.{MethodEntry, new_entry, record_comparison}

-- One comparison: the exact key and the pattern's, what was found, and when.
pub record Comparison : Type 0 where
  pub exact_key : String
  pub pattern_key : String
  pub sufficient : Bool
  pub http_bytes : ℕ
  pub now : Time

abbrev pub MemoryMethodCache : Type 0
MemoryMethodCache = List (String × MethodEntry)

abbrev pub record_key : Time → Comparison → String → MemoryMethodCache → MemoryMethodCache
record_key ttl c key entries =
    insert key (record_comparison (lookup key entries) c.sufficient c.http_bytes c.now ttl) entries

unfoldable pub record_memory : Time → Comparison → MemoryMethodCache → MemoryMethodCache
record_memory ttl c entries = record_key ttl c c.pattern_key (record_key ttl c c.exact_key entries)

-- CaptureMethodCacheEntry
pub record CaptureMethodCacheEntry : Type 0 where
  pub entry : MethodEntry
  pub last_seen : Time

abbrev pub MethodTable : Type 0
MethodTable = List (String × CaptureMethodCacheEntry)

abbrev pub entry_of : Option CaptureMethodCacheEntry → Option MethodEntry
entry_of none = none
entry_of (some row) = some row.entry

-- The insert that does nothing on a conflict, the read of the row, and its write.
abbrev pub row_or_new : Time → Option CaptureMethodCacheEntry → CaptureMethodCacheEntry
row_or_new now none = record { entry = new_entry; last_seen = now }
row_or_new now (some row) = row

abbrev pub record_row : Time → Comparison → String → MethodTable → MethodTable
record_row ttl c key table =
    insert key
      (record {
        entry =
            record_comparison (some (row_or_new c.now (lookup key table)).entry) c.sufficient
              c.http_bytes c.now ttl;
        last_seen = c.now;
      })
      table

-- The keys are written in their order: `is_ordered` says whether the exact one is not the greater.
unfoldable pub record_postgres : Time → Bool → Comparison → MethodTable → MethodTable
record_postgres ttl is_ordered c table =
    if is_ordered
    then record_row ttl c c.pattern_key (record_row ttl c c.exact_key table)
    else record_row ttl c c.exact_key (record_row ttl c c.pattern_key table)
