-- ===== src/ExternalCapacity/Credentials.antt =====
-- backend/proxy/external_capacity.py: what enables a provider. `update` asks for its credential,
-- `ensure` stores what it is given.
use stolosio.Prelude.{
  String, Option, none, some, List, [], ◌∷◌, Bool, true, false, ◌&&◌, ◌≡◌, ◌⊎◌, refl, inl, inr,
  Time, find, any, update_row, either, by_test, Bool-cases, arith,
}
use stolosio.Prelude.Writes.{find-update_row, find-test}
use stolosio.Contracts.{ProviderName, browserless, browserless_cloud, same_provider}
use stolosio.Tables.{ExternalProviderLimit}
use stolosio.ExternalCapacity.Repository.{
  CapacityValues, CapacityChanges, CapacityTables, CapacityAnswer, is_limit_of, are_valid,
  new_limit, ensure, lacks_credential, given_value, values_of, updated_values, with_values,
  update_limit, update_capacity, CapacityCall, ensures, updates, capacity_step, capacity_run,
}
use stolosio.ExternalCapacity.Audit.{same_provider-path, find-update_row_other}

-- The provider has a row, and it is enabled.
abbrev pub is_enabled : Option ExternalProviderLimit → Bool
is_enabled none = false
is_enabled (some row) = row.enabled

-- Browserless cloud needs a token.
abbrev pub may_enable : Bool → ProviderName → Bool
may_enable has_token browserless_cloud = has_token
may_enable has_token browserless = true

abbrev pub asks_to_enable : Option Bool → Bool
asks_to_enable none = false
asks_to_enable (some b) = b

-- A call that may turn the provider on: it sets it up as enabled, or it is an operator's change that
-- asks for it, by a process that has what the provider needs.
abbrev pub turns_on : ProviderName → CapacityCall → Bool
turns_on q (ensures p v now) = same_provider p q && v.enabled
turns_on q (updates has_token p c actor now) =
    same_provider p q && (asks_to_enable c.enabled && may_enable has_token p)

-- Where a provider is enabled after a call, it was before, or the call turned it on.
abbrev pub IsGranted : ProviderName → CapacityCall → CapacityTables → CapacityTables → Type 0
IsGranted q call before after =
    is_enabled (find (is_limit_of q) after.limits) ≡ true
    → (is_enabled (find (is_limit_of q) before.limits) ≡ true) ⊎ (turns_on q call ≡ true)

asked :
    (has_token : Bool) (p : ProviderName) (given : Option Bool) (old : Bool)
    → lacks_credential has_token p given ≡ false
    → given_value given old ≡ true
    → (old ≡ true) ⊎ ((asks_to_enable given && may_enable has_token p) ≡ true)
asked has_token p none old n e = inl e
asked has_token p (some false) old n e = absurd (cc)
asked has_token browserless (some true) old n e = inr refl
asked true browserless_cloud (some true) old n e = inr refl
asked false browserless_cloud (some true) old n e = absurd (cc)

update_limit-IsGranted :
    (q : ProviderName) (has_token : Bool) (p : ProviderName) (c : CapacityChanges) (actor : String)
    (now : Time) (found : Option ExternalProviderLimit) (t : CapacityTables)
    → find (is_limit_of p) t.limits ≡ found
    → lacks_credential has_token p c.enabled ≡ false
    → IsGranted q (updates has_token p c actor now) t (update_limit p c actor now found t).1
unfolding update_limit
update_limit-IsGranted q has_token p c actor now none t e n = λ on. inl on
update_limit-IsGranted q has_token p c actor now (some row) t e n =
    let v = updated_values c (values_of row) in
    either
      (λ (x : CapacityAnswer × CapacityTables). IsGranted q (updates has_token p c actor now) t x.1)
      (are_valid v)
      (λ on. elim (Bool-cases (same_provider p q)) [
        | inr d ↦
            inl (rw (find-update_row_other p q (with_values v now) (λ x. refl) d t.limits) at on)
        | inl s ↦
            let same : p ≡ q = same_provider-path p q s in
            let own : is_enabled
                  (find (is_limit_of p) (update_row (is_limit_of p) (with_values v now) t.limits))
                ≡ true =
              let back : q ≡ p = cc in rw back at on in
            rw s (rw⁻¹ same (own_row own))
      ])
      (λ on. inl on)
  where
    own_row :
        is_enabled (
            find (is_limit_of p) (
              update_row
                (is_limit_of p)
                (with_values (updated_values c (values_of row)) now)
                t.limits))
          ≡ true
        → (is_enabled (find (is_limit_of p) t.limits) ≡ true)
          ⊎ ((asks_to_enable c.enabled && may_enable has_token p) ≡ true)
    own_row on =
        let changed =
          find-update_row (is_limit_of p) (with_values (updated_values c (values_of row)) now) row
            t.limits e (find-test (is_limit_of p) t.limits e) in
        rw e (asked has_token p c.enabled row.enabled n (rw changed at on))

added-IsGranted :
    (q p : ProviderName) (v : CapacityValues) (now : Time) (limits : List ExternalProviderLimit)
    → is_enabled (find (is_limit_of q) (new_limit p v now ∷ limits)) ≡ true
    → (is_enabled (find (is_limit_of q) limits) ≡ true) ⊎ ((same_provider p q && v.enabled) ≡ true)
unfolding new_limit
added-IsGranted q p v now limits on = elim (Bool-cases (same_provider p q)) [
  | inr d ↦ inl (rw d at on)
  | inl s ↦ inr (rw s (rw s at on))
]

ensure-IsGranted :
    (q p : ProviderName) (v : CapacityValues) (now : Time) (t : CapacityTables)
    → IsGranted q (ensures p v now) t (ensure p v now t).1
unfolding ensure
ensure-IsGranted q p v now t =
    either (λ (x : CapacityAnswer × CapacityTables). IsGranted q (ensures p v now) t x.1)
      (are_valid v)
      (either (λ limits. IsGranted q (ensures p v now) t (record t { limits = limits }))
        (any (is_limit_of p) t.limits) (λ on. inl on) (added-IsGranted q p v now t.limits))
      (λ on. inl on)

update_capacity-IsGranted :
    (q : ProviderName) (has_token : Bool) (p : ProviderName) (c : CapacityChanges) (actor : String)
    (now : Time) (t : CapacityTables)
    → IsGranted q (updates has_token p c actor now) t (update_capacity has_token p c actor now t).1
unfolding update_capacity
update_capacity-IsGranted q has_token p c actor now t =
    let P = λ (x : CapacityAnswer × CapacityTables).
      IsGranted q (updates has_token p c actor now) t x.1 in
    either P c.has_unknown (λ on. inl on)
      (by_test P (lacks_credential has_token p c.enabled) (λ l. λ on. inl on)
        (λ l.
          update_limit-IsGranted q has_token p c actor now (find (is_limit_of p) t.limits) t refl
            l))

capacity_step-IsGranted :
    (q : ProviderName) (call : CapacityCall) (t : CapacityTables)
    → IsGranted q call t (capacity_step call t)
unfolding capacity_step
capacity_step-IsGranted q (ensures p v now) t = ensure-IsGranted q p v now t
capacity_step-IsGranted q (updates has_token p c actor now) t =
    update_capacity-IsGranted q has_token p c actor now t

-- Where a provider is enabled after any calls that ensure and update limits, it was enabled before
-- them, or one of them turned it on: a set-up whose given values say enabled, for which no
-- credential is asked, or an operator's change to enabled, which for Browserless cloud is one of a
-- process that has a token.
pub capacity_run-IsGranted :
    (q : ProviderName) (calls : List CapacityCall) (t : CapacityTables)
    → is_enabled (find (is_limit_of q) (capacity_run calls t).limits) ≡ true
    → (is_enabled (find (is_limit_of q) t.limits) ≡ true) ⊎ (any (turns_on q) calls ≡ true)
unfolding capacity_run
capacity_run-IsGranted q [] t on = inl on
capacity_run-IsGranted q (call ∷ calls) t on =
    elim (capacity_run-IsGranted q calls (capacity_step call t) on) [
      | inr later ↦ inr (ground arith)
      | inl after ↦ elim (capacity_step-IsGranted q call t after) [
        | inl before ↦ inl before
        | inr turned ↦ inr (ground arith)
      ]
    ]
