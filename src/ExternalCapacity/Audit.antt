-- ===== src/ExternalCapacity/Audit.antt =====
-- The audit tells each provider's limits.
use stolosio.Prelude.{
  String, Option, none, some, List, [], ◌∷◌, Bool, true, false, ◌≡◌, refl, inl, inr, Time,
  if◌then◌else◌, find, any, update_row, Bool-cases, either, by_test, arith, ap,
}
use stolosio.Prelude.Writes.{find-update_row, find-test}
use stolosio.Contracts.{ProviderName, browserless, browserless_cloud, same_provider}
use stolosio.Tables.{ExternalProviderLimit}
use stolosio.Blocking.Json.{ℤ, pos, negsuc}
use stolosio.ExternalCapacity.Repository.{
  CapacityValues, CapacityChanges, ExternalProviderLimitEvent, CapacityTables, CapacityAnswer,
  is_limit_of, is_negative, are_valid, number_of, new_limit, ensure, lacks_credential, values_of,
  updated_values, with_values, update_limit, update_capacity, CapacityCall, ensures, updates,
  capacity_step, capacity_run,
}

abbrev pub event_of : ProviderName → ExternalProviderLimitEvent → Bool
event_of provider e = same_provider e.provider provider

-- A row that was never updated has the first version; another has the version and the values of the
-- newest event. No event stands for a provider that has no row.
abbrev pub Tells : Option ExternalProviderLimit → Option ExternalProviderLimitEvent → Type 0
Tells none none = Unit
Tells none (some e) = ⊥
Tells (some row) none = row.configuration_version ≡ 1
Tells (some row) (some e) =
    (e.configuration_version ≡ row.configuration_version) × (e.new_values ≡ values_of row)

abbrev pub IsAudited : ProviderName → CapacityTables → Type 0
IsAudited p t = Tells (find (is_limit_of p) t.limits) (find (event_of p) t.limit_events)

same_provider_self : (p : ProviderName) → same_provider p p ≡ true
same_provider_self browserless = refl
same_provider_self browserless_cloud = refl

pub same_provider-path : (p q : ProviderName) → same_provider p q ≡ true → p ≡ q
same_provider-path browserless browserless e = refl
same_provider-path browserless_cloud browserless_cloud e = refl
same_provider-path browserless browserless_cloud e = absurd (cc)
same_provider-path browserless_cloud browserless e = absurd (cc)

pub find-update_row_other :
    (p q : ProviderName) (f : ExternalProviderLimit → ExternalProviderLimit)
    → ((x : ExternalProviderLimit) → (f x).provider ≡ x.provider)
    → same_provider p q ≡ false
    → (xs : List ExternalProviderLimit)
    → find (is_limit_of q) (update_row (is_limit_of p) f xs) ≡ find (is_limit_of q) xs
find-update_row_other p q f same n [] = refl
find-update_row_other p q f same n (x ∷ xs) = elim (Bool-cases (same_provider x.provider p)) [
  | inl t ↦
      let own : x.provider ≡ p = same_provider-path x.provider p t in
      rw t (rw (same x) (rw own (rw n refl)))
  | inr t ↦
      let ih = find-update_row_other p q f same n xs in
      rw t (ap (λ r. if same_provider x.provider q then some x else r) ih)
]

number_of_valid : (z : ℤ) → is_negative z ≡ false → pos (number_of z) ≡ z
number_of_valid (pos n) e = refl
number_of_valid (negsuc n) e = absurd (cc)

-- What is written is what was asked for.
with_values-values_of :
    (v : CapacityValues) (now : Time) (row : ExternalProviderLimit)
    → are_valid v ≡ true
    → v ≡ values_of (with_values v now row)
with_values-values_of v now row e =
    let a = number_of_valid v.max_active_sessions (ground arith) in
    let b = number_of_valid v.max_queued_attempts (ground arith) in rw (a, b) refl

update_limit-IsAudited :
    (q p : ProviderName) (c : CapacityChanges) (actor : String) (now : Time)
    (found : Option ExternalProviderLimit) (t : CapacityTables)
    → find (is_limit_of p) t.limits ≡ found
    → IsAudited q t
    → IsAudited q (update_limit p c actor now found t).1
unfolding update_limit
update_limit-IsAudited q p c actor now none t e a = a
update_limit-IsAudited q p c actor now (some row) t e a =
    let v = updated_values c (values_of row) in
    by_test (λ (x : CapacityAnswer × CapacityTables). IsAudited q x.1) (are_valid v)
      (λ valid. elim (Bool-cases (same_provider p q)) [
        | inr n ↦ rw n (rw (find-update_row_other p q (with_values v now) (λ x. refl) n t.limits) a)
        | inl s ↦
            let same : p ≡ q = same_provider-path p q s in
            rw s (
              rw⁻¹ same (
                rw
                  (find-update_row (is_limit_of p) (with_values v now) row t.limits e
                    (find-test (is_limit_of p) t.limits e))
                  (refl, with_values-values_of v now row valid)))
      ])
      (λ n. a)

find-none {ℓ} : {A : Type ℓ} (p : A → Bool) (xs : List A) → any p xs ≡ false → find p xs ≡ none
find-none p [] e = refl
find-none p (x ∷ xs) e = let ih = find-none p xs in ground arith

first_row :
    (row : ExternalProviderLimit) (o : Option ExternalProviderLimit)
    (e : Option ExternalProviderLimitEvent)
    → row.configuration_version ≡ 1
    → o ≡ none
    → Tells o e
    → Tells (some row) e
first_row row none none v n t = v
first_row row none (some e) v n t = absurd t
first_row row (some r) e v n t = absurd (cc)

ensure-IsAudited :
    (q p : ProviderName) (v : CapacityValues) (now : Time) (t : CapacityTables)
    → IsAudited q t
    → IsAudited q (ensure p v now t).1
unfolding ensure new_limit
ensure-IsAudited q p v now t a =
    either (λ (x : CapacityAnswer × CapacityTables). IsAudited q x.1) (are_valid v)
      (by_test (λ limits. IsAudited q (record t { limits = limits })) (any (is_limit_of p) t.limits)
        (λ e. a)
        (λ e. elim (Bool-cases (same_provider p q)) [
          | inr n ↦ rw n a
          | inl s ↦ rw s (
              first_row (new_limit p v now) (find (is_limit_of q) t.limits)
                (find (event_of q) t.limit_events) refl
                (rw⁻¹ (same_provider-path p q s) (find-none (is_limit_of p) t.limits e)) a)
        ]))
      a

update_capacity-IsAudited :
    (q : ProviderName) (has_token : Bool) (p : ProviderName) (c : CapacityChanges) (actor : String)
    (now : Time) (t : CapacityTables)
    → IsAudited q t
    → IsAudited q (update_capacity has_token p c actor now t).1
unfolding update_capacity
update_capacity-IsAudited q has_token p c actor now t a =
    either (λ (x : CapacityAnswer × CapacityTables). IsAudited q x.1) c.has_unknown a
      (either (λ (x : CapacityAnswer × CapacityTables). IsAudited q x.1)
        (lacks_credential has_token p c.enabled) a
        (update_limit-IsAudited q p c actor now (find (is_limit_of p) t.limits) t refl a))

-- Calls that ensure and update limits, in any order and with any values, keep the audit true: the
-- row of a provider has the first version if no event stands for it, and otherwise the version and
-- the values of the newest event.
pub capacity_run-IsAudited :
    (q : ProviderName) (calls : List CapacityCall) (t : CapacityTables)
    → IsAudited q t
    → IsAudited q (capacity_run calls t)
unfolding capacity_run capacity_step
capacity_run-IsAudited q [] t a = a
capacity_run-IsAudited q (ensures p v now ∷ calls) t a =
    capacity_run-IsAudited q calls _ (ensure-IsAudited q p v now t a)
capacity_run-IsAudited q (updates has_token p c actor now ∷ calls) t a =
    capacity_run-IsAudited q calls _ (update_capacity-IsAudited q has_token p c actor now t a)
