-- ===== src/NetworkPolicy/Repository.antt =====
-- backend/proxy/network_policy.py: NetworkPolicyRepository with its cache. `normalize_domain_pattern`,
-- which uses the IDNA codec, is a section parameter: the normal form of a pattern, if it has one.
use stolosio.Prelude.{
  ℕ, ◌+◌, String, Option, none, some, List, [], ◌∷◌, Time, if◌then◌else◌, ltb, leb, length,
}
use Prim.Native.Nat.{Ordering}
use Prim.Native.String.{compare as str_compare}

pub record NetworkPolicy : Type 0 where
  pub blocked_domain_patterns : List String
  pub configuration_version : ℕ

-- The row of all processes, and the cache of one of them.
pub record PolicyState : Type 0 where
  pub row : Option NetworkPolicy
  pub cached : Option NetworkPolicy
  pub cache_expires_at : Time

pub data PolicyAnswer : Type 0 where
  invalid_patterns not_initialized : PolicyAnswer
  updated : NetworkPolicy → PolicyAnswer

-- NetworkPolicy((), 1)
abbrev pub no_policy : NetworkPolicy
no_policy = record { blocked_domain_patterns = []; configuration_version = 1 }

-- A set, and sorted.
abbrev pub insert_text : String → List String → List String
insert_text x [] = x ∷ []
insert_text x (y ∷ ys) =
    let rest = insert_text x ys in
    elim (str_compare x y) [
      | Ordering.lt ↦ x ∷ y ∷ ys
      | Ordering.eq ↦ y ∷ ys
      | Ordering.gt ↦ y ∷ rest
    ]

abbrev pub or_default : Option NetworkPolicy → NetworkPolicy
or_default none = no_policy
or_default (some policy) = policy

module _ (normalize_domain_pattern : String → Option String) (cache_ttl : Time) where
  -- {normalize_domain_pattern(value) for value in values}, sorted
  abbrev pub normalize_each : List String → Option (List String)
  normalize_each [] = some []
  normalize_each (value ∷ values) = joined (normalize_domain_pattern value) (normalize_each values)
    where
      joined : Option String → Option (List String) → Option (List String)
      joined (some pattern) (some rest) = some (insert_text pattern rest)
      joined _ _ = none

  -- At most _MAX_BLOCKED_DOMAIN_PATTERNS
  unfoldable pub normalize_domain_patterns : List String → Option (List String)
  normalize_domain_patterns values =
      if leb (length values) 1000 then normalize_each values else none

  -- `_set_cache`
  abbrev pub set_cache : NetworkPolicy → Time → PolicyState → PolicyState
  set_cache value cached_at s = record s {
    cached = some value;
    cache_expires_at = cached_at + cache_ttl;
  }

  unfoldable pub ensure_defaults : Time → PolicyState → PolicyState
  ensure_defaults now s =
      let value = or_default s.row in set_cache value now (record s { row = some value })

  abbrev pub read_row : Time → PolicyState → NetworkPolicy × PolicyState
  read_row now s = (or_default s.row, set_cache (or_default s.row) now s)

  abbrev pub from_cache : Option NetworkPolicy → Time → PolicyState → NetworkPolicy × PolicyState
  from_cache none now s = read_row now s
  from_cache (some value) now s = if ltb now s.cache_expires_at then (value, s) else read_row now s

  unfoldable pub policy_settings : Time → PolicyState → NetworkPolicy × PolicyState
  policy_settings now s = from_cache s.cached now s

  abbrev pub update_row_with :
      Option (List String) → Option NetworkPolicy → Time → PolicyState → PolicyAnswer × PolicyState
  update_row_with none row now s = (invalid_patterns, s)
  update_row_with (some patterns) none now s = (not_initialized, s)
  update_row_with (some patterns) (some old) now s =
      let value : NetworkPolicy = record {
        blocked_domain_patterns = patterns;
        configuration_version = old.configuration_version + 1;
      } in
      (updated value, set_cache value now (record s { row = some value }))

  unfoldable pub update_policy : List String → Time → PolicyState → PolicyAnswer × PolicyState
  unfolding normalize_domain_patterns
  update_policy values now s = update_row_with (normalize_domain_patterns values) s.row now s
