-- ===== src/MethodCache/Storage.antt =====
-- The table in the database holds what the cache in memory would.
use stolosio.Prelude.{
  String, str_eq, str_eq_iff, Option, none, some, List, [], ◌∷◌, Bool, true, false, ◌≡◌, refl, sym,
  ap, ◌∙◌, inl, inr, Time, if◌then◌else◌, Bool-cases, either,
}
use stolosio.Prelude.Dicts.{lookup, lookup-insert}
use stolosio.MethodCache.Entry.{
  MethodEntry, new_entry, is_current, current_or_new, compared, record_comparison,
}
use stolosio.MethodCache.Store.{
  Comparison, MemoryMethodCache, record_key, record_memory, CaptureMethodCacheEntry, MethodTable,
  entry_of, row_or_new, record_row, record_postgres,
}
use stolosio.MethodCache.History.{record_each}

-- For every key, the same entry or none.
abbrev pub Agrees : MemoryMethodCache → MethodTable → Type 0
Agrees entries table = (k : String) → lookup k entries ≡ entry_of (lookup k table)

-- A row that was just inserted counts for nothing.
inserted_row :
    (ttl now : Time) (o : Option CaptureMethodCacheEntry)
    → current_or_new ttl now (some (row_or_new now o).entry) ≡ current_or_new ttl now (entry_of o)
inserted_row ttl now none = either (λ x. x ≡ new_entry) (is_current ttl now new_entry) refl refl
inserted_row ttl now (some row) = refl

record_row-Agrees :
    (ttl : Time) (c : Comparison) (key : String) (entries : MemoryMethodCache) (table : MethodTable)
    → Agrees entries table
    → Agrees (record_key ttl c key entries) (record_row ttl c key table)
unfolding record_comparison
record_row-Agrees ttl c key entries table a k =
    rw
      (lookup-insert k key
        (record_comparison (lookup key entries) c.sufficient c.http_bytes c.now ttl) entries)
      (rw
        (lookup-insert k key
          (record {
            entry =
                record_comparison (some (row_or_new c.now (lookup key table)).entry) c.sufficient
                  c.http_bytes c.now ttl;
            last_seen = c.now;
          })
          table)
        (elim (Bool-cases (str_eq key k)) [
          | inl t ↦ rw t (
              ap (λ x. some (compared c.sufficient c.http_bytes c.now x))
                (ap (current_or_new ttl c.now) (a key)
                  ∙ sym (inserted_row ttl c.now (lookup key table))))
          | inr t ↦ rw t (a k)
        ]))

-- What a write of one key leaves, by key.
lookup-record_key :
    (ttl : Time) (c : Comparison) (key k : String) (entries : MemoryMethodCache)
    → lookup k (record_key ttl c key entries) ≡ (
        if str_eq key k
        then some (record_comparison (lookup key entries) c.sufficient c.http_bytes c.now ttl)
        else lookup k entries)
lookup-record_key ttl c key k entries = lookup-insert k key _ entries

swap_apart :
    (ttl : Time) (c : Comparison) (a b k : String) (entries : MemoryMethodCache)
    → str_eq a b ≡ false
    → str_eq b a ≡ false
    → lookup k (record_key ttl c a (record_key ttl c b entries))
      ≡ lookup k (record_key ttl c b (record_key ttl c a entries))
swap_apart ttl c a b k entries x y = rw (lookup-record_key ttl c a k (record_key ttl c b entries)) (
    rw (lookup-record_key ttl c b k entries) (
      rw (lookup-record_key ttl c b a entries) (
        rw (lookup-record_key ttl c b k (record_key ttl c a entries)) (
          rw (lookup-record_key ttl c a k entries) (
            rw (lookup-record_key ttl c a b entries)
              (rw (x, y) (apart _ _ _ (str_eq a k) (str_eq b k) refl refl)))))))
  where
    apart :
        (u v w : Option MethodEntry) (p q : Bool)
        → str_eq a k ≡ p
        → str_eq b k ≡ q
        → (if p then u else (if q then v else w)) ≡ (if q then v else (if p then u else w))
    apart u v w true true e f = absurd (
        let same : a ≡ b = (str_eq_iff a k).0 e ∙ sym ((str_eq_iff b k).0 f) in
        let z = (str_eq_iff a b).1 same in cc)
    apart u v w true false e f = refl
    apart u v w false true e f = refl
    apart u v w false false e f = refl

-- The order of the two writes does not matter.
record_key-swap :
    (ttl : Time) (c : Comparison) (a b k : String) (entries : MemoryMethodCache)
    → lookup k (record_key ttl c a (record_key ttl c b entries))
      ≡ lookup k (record_key ttl c b (record_key ttl c a entries))
record_key-swap ttl c a b k entries = elim (Bool-cases (str_eq a b)) [
  | inl e ↦ rw ((str_eq_iff a b).0 e) refl
  | inr e ↦ swap_apart ttl c a b k entries e (elim (Bool-cases (str_eq b a)) [
    | inl f ↦ absurd (let z = (str_eq_iff a b).1 (sym ((str_eq_iff b a).0 f)) in cc)
    | inr f ↦ f
  ])
]

record_postgres-Agrees :
    (ttl : Time) (is_ordered : Bool) (c : Comparison) (entries : MemoryMethodCache)
    (table : MethodTable)
    → Agrees entries table
    → Agrees (record_memory ttl c entries) (record_postgres ttl is_ordered c table)
unfolding record_memory record_postgres
record_postgres-Agrees ttl true c entries table a k =
    record_row-Agrees ttl c c.pattern_key _ _ (record_row-Agrees ttl c c.exact_key entries table a)
      k
record_postgres-Agrees ttl false c entries table a k =
    record_key-swap ttl c c.pattern_key c.exact_key k entries
    ∙ record_row-Agrees ttl c c.exact_key _ _
        (record_row-Agrees ttl c c.pattern_key entries table a) k

module _ (ttl : Time) (is_ordered : Comparison → Bool) where
  unfoldable pub store_each : List Comparison → MethodTable → MethodTable
  unfolding record_postgres
  store_each [] table = table
  store_each (c ∷ comparisons) table =
      store_each comparisons (record_postgres ttl (is_ordered c) c table)

  store_each-Agrees :
      (comparisons : List Comparison) (entries : MemoryMethodCache) (table : MethodTable)
      → Agrees entries table
      → Agrees (record_each ttl comparisons entries) (store_each comparisons table)
  unfolding store_each record_each record_memory
  store_each-Agrees [] entries table a = a
  store_each-Agrees (c ∷ comparisons) entries table a =
      store_each-Agrees comparisons _ _
        (record_postgres-Agrees ttl (is_ordered c) c entries table a)

  -- Any comparisons, from the empty table and the empty cache: for every key, the table's entry is
  -- the one of the cache in memory, whichever of a comparison's two keys is written first and though
  -- a row is inserted before its first comparison.
  pub store_each_same :
      (comparisons : List Comparison) (k : String)
      → entry_of (lookup k (store_each comparisons [])) ≡ lookup k (record_each ttl comparisons [])
  store_each_same comparisons k = sym (store_each-Agrees comparisons [] [] (λ j. refl) k)
