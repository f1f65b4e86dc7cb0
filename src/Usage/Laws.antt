-- ===== src/Usage/Laws.antt =====
-- What finalising an attempt's usage leaves alone: its key and its state.
use stolosio.Prelude.{◌≡◌, refl, ap, ◌∙◌, none, some, Option, List, Time, ℕ}
use stolosio.Contracts.{Key, AttemptState}
use stolosio.Tables.{AcquisitionAttempt, ProviderCostRate}
use stolosio.Usage.{
  close_provider_usage, measure_capacity, measure_browser, charge, finalize_attempt_usage,
}

abbrev kept : AcquisitionAttempt → Key × AttemptState
kept row = (row.id, row.state)

module _ (now : Time) (row : AcquisitionAttempt) where
  kept-close_provider_usage :
      (started ended : Option Time) → kept (close_provider_usage started ended now row) ≡ kept row
  unfolding close_provider_usage
  kept-close_provider_usage none ended = refl
  kept-close_provider_usage (some s) none = refl
  kept-close_provider_usage (some s) (some e) = refl

  kept-measure_capacity : (t : Option Time) → kept (measure_capacity t now row) ≡ kept row
  unfolding measure_capacity
  kept-measure_capacity none = refl
  kept-measure_capacity (some t) = refl

  kept-measure_browser : (t : Option Time) → kept (measure_browser t now row) ≡ kept row
  unfolding measure_browser
  kept-measure_browser none = refl
  kept-measure_browser (some t) = refl

kept-charge :
    (row : AcquisitionAttempt) (rate : Option ProviderCostRate) (ms : Option ℕ)
    → kept (charge rate ms row) ≡ kept row
unfolding charge
kept-charge row none ms = refl
kept-charge row (some r) none = refl
kept-charge row (some r) (some ms) = refl

kept-finalize_attempt_usage :
    (rates : List ProviderCostRate) (now : Time) (row : AcquisitionAttempt)
    → kept (finalize_attempt_usage rates now row) ≡ kept row
unfolding finalize_attempt_usage
kept-finalize_attempt_usage rates now row =
    kept-charge _ _ _
    ∙ (kept-measure_browser now _ _
        ∙ (kept-measure_capacity now _ _ ∙ kept-close_provider_usage now row _ _))

module _ (rates : List ProviderCostRate) (now : Time) (row : AcquisitionAttempt) where
  pub finalize_attempt_usage-state : (finalize_attempt_usage rates now row).state ≡ row.state
  finalize_attempt_usage-state =
      ap (λ (x : Key × AttemptState). x.1) (kept-finalize_attempt_usage rates now row)

  pub finalize_attempt_usage-id : (finalize_attempt_usage rates now row).id ≡ row.id
  finalize_attempt_usage-id =
      ap (λ (x : Key × AttemptState). x.0) (kept-finalize_attempt_usage rates now row)
