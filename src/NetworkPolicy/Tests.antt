-- ===== src/NetworkPolicy/Tests.antt =====
-- An operator blocks two domains.
use stolosio.Prelude.{
  ◌+◌, ◌≤◌, ◌≡◌, refl, String, str_eq, Option, none, some, [], ◌∷◌, if◌then◌else◌,
}
use stolosio.NetworkPolicy.Repository.{
  NetworkPolicy, PolicyState, no_policy, ensure_defaults, policy_settings, update_policy, updated,
}
use stolosio.NetworkPolicy.Freshness.{settings-update}

abbrev normal : String → Option String
normal pattern = if str_eq pattern "" then none else some pattern

abbrev set_up : PolicyState
set_up = ensure_defaults normal 60 0 (record { row = none; cached = none; cache_expires_at = 0 })

abbrev blocked : NetworkPolicy
blocked = record {
  blocked_domain_patterns = "a.example" ∷ "b.example" ∷ [];
  configuration_version = 2;
}

blocks :
    (update_policy normal 60 ("b.example" ∷ "a.example" ∷ "b.example" ∷ []) 5 set_up).0
    ≡ updated blocked
unfolding update_policy ensure_defaults
blocks = refl

settings-update_example :
    ((policy_settings normal 60 90
        (update_policy normal 60 ("b.example" ∷ "a.example" ∷ "b.example" ∷ []) 5 set_up).1).0
      ≡ blocked)
    × (5 + 60 ≤ 90
        → (policy_settings normal 60 90
            (record (update_policy normal 60
              ("b.example" ∷ "a.example" ∷ "b.example" ∷ [])
              5
              set_up).1 { row = some no_policy })).0
          ≡ no_policy)
settings-update_example =
    settings-update normal 60 ("b.example" ∷ "a.example" ∷ "b.example" ∷ []) 5 90 set_up blocked
      no_policy blocks
