-- ===== src/MethodCache/History.antt =====
-- What the entries of the cache count: the comparisons that were made for their keys.
use stolosio.Prelude.{
  String, str_eq, str_eq_iff, Option, none, some, List, [], ◌∷◌, ◌++◌, not, ◌≡◌, refl, inl, inr,
  Time, if◌then◌else◌, either, Bool-cases, length, count, arith,
}
use stolosio.Prelude.Dicts.{lookup, lookup-insert}
use stolosio.MethodCache.Entry.{
  MethodEntry, new_entry, is_current, current_or_new, compared, record_comparison,
}
use stolosio.MethodCache.Store.{Comparison, MemoryMethodCache, record_key, record_memory}

-- The comparisons made for each key, the newest first.
abbrev pub History : Type 0
History = String → List Comparison

abbrev pub noted : Comparison → String → History → History
noted c key past k = if str_eq key k then c ∷ past k else past k

-- A comparison stands for both of its keys, and twice for a key that is both.
unfoldable pub made : List Comparison → History → History
made [] past = past
made (c ∷ comparisons) past = made comparisons (noted c c.pattern_key (noted c c.exact_key past))

-- The numbers of an entry count `recent`, the newest of the comparisons made for its key.
pub record IsCounted (past recent older : List Comparison) (e : MethodEntry) : Type 0 where
  pub split : past ≡ recent ++ older
  pub total : length recent ≡ e.comparisons
  pub good : count (λ c. c.sufficient) recent ≡ e.sufficient
  pub bad : count (λ c. not c.sufficient) recent ≡ e.contradictions

abbrev CountsSome : List Comparison → MethodEntry → Type 0
CountsSome past e =
    (recent : List Comparison) × ((older : List Comparison) × IsCounted past recent older e)

-- An entry of the cache counts one comparison at least, and keeps the newest one's time and outcome.
pub record IsBacked (past : List Comparison) (e : MethodEntry) : Type 0 where
  pub newest : Comparison
  pub earlier : List Comparison
  pub older : List Comparison
  pub counted : IsCounted past (newest ∷ earlier) older e
  pub seen : newest.now ≡ e.last_seen
  pub last : newest.sufficient ≡ e.last_sufficient

abbrev pub IsConsistent : MemoryMethodCache → History → Type 0
IsConsistent entries past =
    (k : String) (e : MethodEntry) → lookup k entries ≡ some e → IsBacked (past k) e

compared-IsBacked :
    (c : Comparison) (past : List Comparison) (e : MethodEntry)
    → CountsSome past e
    → IsBacked (c ∷ past) (compared c.sufficient c.http_bytes c.now e)
compared-IsBacked c past e (recent, (older, counted)) = record {
  newest = c;
  earlier = recent;
  older = older;
  counted =
      let split = counted.split in
      let total = counted.total in
      let good = counted.good in
      let bad = counted.bad in
      record { split = cc; total = omega arith; good = ground arith; bad = ground arith };
  seen = refl;
  last = refl;
}

current_or_new-CountsSome :
    (ttl now : Time) (past : List Comparison) (o : Option MethodEntry)
    → ((e : MethodEntry) → o ≡ some e → IsBacked past e)
    → CountsSome past (current_or_new ttl now o)
current_or_new-CountsSome ttl now past o h = go o h
  where
    started : CountsSome past new_entry
    started = ([], (past, record { split = refl; total = refl; good = refl; bad = refl }))

    go :
        (o : Option MethodEntry)
        → ((e : MethodEntry) → o ≡ some e → IsBacked past e)
        → CountsSome past (current_or_new ttl now o)
    go none h = started
    go (some e) h =
        let b = h e refl in
        either (CountsSome past) (is_current ttl now e) (b.newest ∷ b.earlier, (b.older, b.counted))
          started

record_key-IsConsistent :
    (ttl : Time) (c : Comparison) (key : String) (entries : MemoryMethodCache) (past : History)
    → IsConsistent entries past
    → IsConsistent (record_key ttl c key entries) (noted c key past)
unfolding record_comparison
record_key-IsConsistent ttl c key entries past h k f l =
    let e = record_comparison (lookup key entries) c.sufficient c.http_bytes c.now ttl in
    elim (Bool-cases (str_eq key k)) [
      | inl t ↦
          let same : some e ≡ some f = rw (lookup-insert k key e entries, t) at l in
          let same' : e ≡ f = cc in
          let key' : key ≡ k = (str_eq_iff key k).0 t in
          rw (t) (
            rw⁻¹ same' (
              rw key' (
                compared-IsBacked c (past k) (current_or_new ttl c.now (lookup k entries))
                  (current_or_new-CountsSome ttl c.now (past k) (lookup k entries) (h k)))))
      | inr t ↦ rw t (h k f (rw (lookup-insert k key e entries, t) at l))
    ]

-- Any comparisons, in any order and at any times.
unfoldable pub record_each : Time → List Comparison → MemoryMethodCache → MemoryMethodCache
unfolding record_memory
record_each ttl [] entries = entries
record_each ttl (c ∷ comparisons) entries =
    record_each ttl comparisons (record_memory ttl c entries)

pub record_each-IsConsistent :
    (ttl : Time) (comparisons : List Comparison) (entries : MemoryMethodCache) (past : History)
    → IsConsistent entries past
    → IsConsistent (record_each ttl comparisons entries) (made comparisons past)
unfolding record_each record_memory made
record_each-IsConsistent ttl [] entries past h = h
record_each-IsConsistent ttl (c ∷ comparisons) entries past h =
    record_each-IsConsistent ttl comparisons _ _ (
      record_key-IsConsistent ttl c c.pattern_key (record_key ttl c c.exact_key entries) _
        (record_key-IsConsistent ttl c c.exact_key entries past h))
