-- ===== src/MethodCache/Retention.antt =====
-- backend/workers/maintenance/retention.py: the part of `run_once` that deletes old entries of the
-- method cache, and that no decision and no comparison sees it.
use stolosio.Prelude.{
  ℕ, ◌+◌, ◌≤◌, String, str_eq, str_eq_iff, Option, none, some, List, [], ◌∷◌, Bool, true, false,
  not, ◌&&◌, ◌≡◌, refl, sym, ◌∙◌, inl, inr, Time, if◌then◌else◌, ltb, Bool-cases, either, arith,
}
use stolosio.Prelude.Dicts.{lookup, lookup-insert}
use stolosio.MethodCache.Entry.{MethodEntry, is_current, record_comparison}
use stolosio.MethodCache.Store.{
  Comparison, MemoryMethodCache, CaptureMethodCacheEntry, MethodTable, entry_of, row_or_new,
  record_row, record_postgres,
}
use stolosio.MethodCache.Policy.{
  Settings, fresh_entry, pattern_decision, exact_decision, http_sufficient,
}
use stolosio.MethodCache.Storage.{store_each}

-- last_seen < now - timedelta(days=...)
abbrev pub is_unseen : Time → Time → Option CaptureMethodCacheEntry → Bool
is_unseen age now none = false
is_unseen age now (some row) = ltb (row.last_seen + age) now

-- The rows whose keys stay.
abbrev pub keep_keys : (String → Bool) → MethodTable → MethodTable
keep_keys stays [] = []
keep_keys stays ((k, row) ∷ table) =
    let rest = keep_keys stays table in if stays k then (k, row) ∷ rest else rest

-- The deletion of the old entries that the limited query takes, which `taken` tells.
unfoldable pub delete_unseen : (String → Bool) → Time → Time → MethodTable → MethodTable
delete_unseen taken age now table =
    keep_keys (λ k. not (taken k && is_unseen age now (lookup k table))) table

-- The entries of the table, as the policy reads them.
abbrev pub read_table : MethodTable → MemoryMethodCache
read_table [] = []
read_table ((k, row) ∷ table) = (k, row.entry) ∷ read_table table

lookup-read_table :
    (k : String) (table : MethodTable) → lookup k (read_table table) ≡ entry_of (lookup k table)
lookup-read_table k [] = refl
lookup-read_table k ((j, row) ∷ table) = elim (Bool-cases (str_eq j k)) [
  | inl t ↦ rw t refl
  | inr t ↦ rw t (lookup-read_table k table)
]

lookup-keep_keys :
    (stays : String → Bool) (k : String) (table : MethodTable)
    → lookup k (keep_keys stays table) ≡ (if stays k then lookup k table else none)
lookup-keep_keys stays k [] = either (λ x. none ≡ x) (stays k) refl refl
lookup-keep_keys stays k ((j, row) ∷ table) =
    let ih = lookup-keep_keys stays k table in
    elim (Bool-cases (str_eq j k)) [
      | inl t ↦
          let same : j ≡ k = (str_eq_iff j k).0 t in
          elim (Bool-cases (stays k)) [
            | inl s ↦ let s' : stays j ≡ true = rw same s in rw (s', t, s) refl
            | inr s ↦ let s' : stays j ≡ false = rw same s in rw (s', s) (ih ∙ rw s refl)
          ]
      | inr t ↦ elim (Bool-cases (stays j)) [ inl s ↦ rw (s, t) ih | inr s ↦ rw (s, t) ih ]
    ]

-- The row's column is the time in its entry.
abbrev IsStamped : MethodTable → Type 0
IsStamped table =
    (k : String) (row : CaptureMethodCacheEntry)
    → lookup k table ≡ some row
    → row.last_seen ≡ row.entry.last_seen

StampedOption : Option CaptureMethodCacheEntry → Type 0
StampedOption o =
    (row : CaptureMethodCacheEntry) → o ≡ some row → row.last_seen ≡ row.entry.last_seen

record_row-IsStamped :
    (ttl : Time) (c : Comparison) (key : String) (table : MethodTable)
    → IsStamped table
    → IsStamped (record_row ttl c key table)
unfolding record_comparison
record_row-IsStamped ttl c key table h k row e = elim (Bool-cases (str_eq key k)) [
  | inl t ↦
      let written : some (record {
        entry =
            record_comparison (some (row_or_new c.now (lookup key table)).entry) c.sufficient
              c.http_bytes c.now ttl;
        last_seen = c.now;
      })
          ≡ some row =
        rw (lookup-insert k key _ table, t) at e in
      let same : record {
        entry =
            record_comparison (some (row_or_new c.now (lookup key table)).entry) c.sufficient
              c.http_bytes c.now ttl;
        last_seen = c.now;
      }
          ≡ row =
        cc in
      rw⁻¹ same refl
  | inr t ↦ h k row (rw (lookup-insert k key _ table, t) at e)
]

record_postgres-IsStamped :
    (ttl : Time) (is_ordered : Bool) (c : Comparison) (table : MethodTable)
    → IsStamped table
    → IsStamped (record_postgres ttl is_ordered c table)
unfolding record_postgres
record_postgres-IsStamped ttl is_ordered c table h =
    either IsStamped is_ordered
      (record_row-IsStamped ttl c c.pattern_key _ (record_row-IsStamped ttl c c.exact_key table h))
      (record_row-IsStamped ttl c c.exact_key _ (record_row-IsStamped ttl c c.pattern_key table h))

store_each-IsStamped :
    (ttl : Time) (is_ordered : Comparison → Bool) (comparisons : List Comparison)
    (table : MethodTable)
    → IsStamped table
    → IsStamped (store_each ttl is_ordered comparisons table)
unfolding store_each
store_each-IsStamped ttl is_ordered [] table h = h
store_each-IsStamped ttl is_ordered (c ∷ comparisons) table h =
    store_each-IsStamped ttl is_ordered comparisons _
      (record_postgres-IsStamped ttl (is_ordered c) c table h)

unseen_expired :
    (ttl age now later : Time) (o : Option CaptureMethodCacheEntry)
    → StampedOption o
    → ttl ≤ age
    → now ≤ later
    → is_unseen age now o ≡ true
    → fresh_entry ttl later (entry_of o) ≡ none
unfolding StampedOption
unseen_expired ttl age now later none h a b u = refl
unseen_expired ttl age now later (some row) h a b u =
    let stamp = h row refl in
    let expired : is_current ttl later row.entry ≡ false = ground arith in rw expired refl

fresh-delete_unseen :
    (taken : String → Bool) (ttl age now later : Time) (k : String) (table : MethodTable)
    → IsStamped table
    → ttl ≤ age
    → now ≤ later
    → fresh_entry ttl later (lookup k (read_table (delete_unseen taken age now table)))
      ≡ fresh_entry ttl later (lookup k (read_table table))
unfolding delete_unseen StampedOption
fresh-delete_unseen taken ttl age now later k table h a b =
    rw
      (lookup-read_table k
        (keep_keys (λ j. not (taken j && is_unseen age now (lookup j table))) table))
      (rw (lookup-keep_keys (λ j. not (taken j && is_unseen age now (lookup j table))) k table) (
        rw (lookup-read_table k table)
          (elim (Bool-cases (taken k && is_unseen age now (lookup k table))) [
            | inl t ↦
                rw t
                  (sym (unseen_expired ttl age now later (lookup k table) (h k) a b (ground arith)))
            | inr t ↦ rw t refl
          ])))

same_decision :
    (s : Settings) (http_bytes : ℕ) (a b c d : Option MethodEntry)
    → a ≡ b
    → c ≡ d
    → exact_decision http_bytes a (pattern_decision s http_bytes c)
      ≡ exact_decision http_bytes b (pattern_decision s http_bytes d)
same_decision s http_bytes a b c d e f = rw (e, f) refl

module _ (url_keys : String → String × String) (s : Settings) (is_ordered : Comparison → Bool)
    (taken : String → Bool) where
  -- Where the retention's age is at least the life of an entry: after any comparisons, deleting old
  -- entries at a time changes no decision from then on.
  pub delete_unseen-hides :
      (comparisons : List Comparison) (age now later : Time) (url : String) (http_bytes : ℕ)
      → s.cache_ttl ≤ age
      → now ≤ later
      → http_sufficient url_keys s url http_bytes later (
          read_table
            (delete_unseen taken age now (store_each s.cache_ttl is_ordered comparisons [])))
        ≡ http_sufficient url_keys s url http_bytes later
            (read_table (store_each s.cache_ttl is_ordered comparisons []))
  unfolding http_sufficient
  delete_unseen-hides comparisons age now later url http_bytes a b =
      let table = store_each s.cache_ttl is_ordered comparisons [] in
      let stamped =
        store_each-IsStamped s.cache_ttl is_ordered comparisons [] (λ k row e. absurd (cc)) in
      let (exact_key, pattern_key) = url_keys url in
      let same_exact =
        fresh-delete_unseen taken s.cache_ttl age now later exact_key table stamped a b in
      let same_pattern =
        fresh-delete_unseen taken s.cache_ttl age now later pattern_key table stamped a b in
      same_decision s http_bytes _ _ _ _ same_exact same_pattern
