-- ===== src/NetworkPolicy/Freshness.antt =====
-- What is written is read back, and what others write is seen when the cache ends.
use stolosio.Prelude.{
  ◌+◌, ◌≤◌, String, Option, none, some, List, ◌≡◌, refl, ap, Time, ltb, by_test, either, arith,
}
use stolosio.NetworkPolicy.Repository.{
  NetworkPolicy, PolicyState, updated, policy_settings, update_row_with, update_policy,
  normalize_domain_patterns,
}

module _ (normalize : String → Option String) (cache_ttl : Time) where
  -- The row as it stands, and a cache that ends within its life after `t`.
  record IsFresh (value : NetworkPolicy) (t : Time) (s : PolicyState) : Type 0 where
    row : s.row ≡ some value
    cached : s.cached ≡ some value
    expires : s.cache_expires_at ≡ t + cache_ttl

  update_row_with-IsFresh :
      (patterns : Option (List String)) (row : Option NetworkPolicy) (now : Time) (s : PolicyState)
      (value : NetworkPolicy)
      → (update_row_with normalize cache_ttl patterns row now s).0 ≡ updated value
      → IsFresh value now (update_row_with normalize cache_ttl patterns row now s).1
  update_row_with-IsFresh none row now s value e = absurd (cc)
  update_row_with-IsFresh (some patterns) none now s value e = absurd (cc)
  update_row_with-IsFresh (some patterns) (some old) now s value e =
      let written : NetworkPolicy = record {
        blocked_domain_patterns = patterns;
        configuration_version = old.configuration_version + 1;
      } in
      let same : written ≡ value = cc in
      record { row = ap some same; cached = ap some same; expires = refl }

  -- Where an update answers a policy: the process that made it reads this policy back at any time, as
  -- long as no other process writes; and where another one has written a policy since, the process
  -- reads that one at the latest when the life of its cache is over.
  pub settings-update :
      (values : List String) (now later : Time) (s : PolicyState) (value other : NetworkPolicy)
      → (update_policy normalize cache_ttl values now s).0 ≡ updated value
      → ((policy_settings normalize cache_ttl later
            (update_policy normalize cache_ttl values now s).1).0
          ≡ value)
        × (now + cache_ttl ≤ later
            → (policy_settings normalize cache_ttl later
                (record (update_policy normalize cache_ttl values now s).1 { row = some other })).0
              ≡ other)
  unfolding update_policy policy_settings
  settings-update values now later s value other e =
      let f =
        update_row_with-IsFresh (normalize_domain_patterns normalize cache_ttl values) s.row now s
          value e in
      (
        rw f.cached (
            either (λ (x : NetworkPolicy × PolicyState). x.0 ≡ value)
              (ltb later
                (update_row_with normalize cache_ttl
                  (normalize_domain_patterns normalize cache_ttl values) s.row now
                  s).1.cache_expires_at)
              refl (rw f.row refl)),
        λ late. rw f.cached (
            by_test (λ (x : NetworkPolicy × PolicyState). x.0 ≡ other)
              (ltb later
                (update_row_with normalize cache_ttl
                  (normalize_domain_patterns normalize cache_ttl values) s.row now
                  s).1.cache_expires_at)
              (λ t. absurd (let x = f.expires in ground arith)) (λ t. refl)),
      )
