-- ===== src/Fleet/Keys.antt =====
-- The writes of a fleet leave the keys of its instances alone.
use stolosio.Prelude.{Option, none, some, ◌≡◌, ◌==◌, refl, Bool, find, either, Time}
use stolosio.Prelude.Keys.{Distinct, Distinct-update_row, Distinct-update_where}
use stolosio.Contracts.{Key, ProviderName, same_provider, ok}
use stolosio.Tables.{ProviderFleet, ProviderInstance, Database}
use stolosio.Fleet.Policy.{ScalingDecision}
use stolosio.Fleet.Configuration.{fleet_of, evaluate_found, evaluate}
use stolosio.Fleet.Instances.{
  drained, undrained, is_draining_of, prepare_found, prepare_scale_down, cancel_scale_down,
}

-- The table of instances has a primary key.
abbrev pub Keyed : Database → Type 0
Keyed db = Distinct (λ (i : ProviderInstance). i.id) db.instances

prepare_found-Keyed :
    (provider : ProviderName) (now : Time) (found : Option ProviderInstance) (db : Database)
    → Keyed db
    → Keyed (prepare_found provider now found db).1
unfolding prepare_found
prepare_found-Keyed provider now none db k = k
prepare_found-Keyed provider now (some row) db k =
    either (λ (x : Bool × Database). Keyed x.1) (same_provider row.provider provider)
      (Distinct-update_row (λ (i : ProviderInstance). i.id) (λ i. i.id == row.id) (drained now)
        (λ x. refl) db.instances k)
      k

pub prepare_scale_down-Keyed :
    (provider : ProviderName) (id : Key) (now : Time) (db : Database)
    → Keyed db
    → Keyed (prepare_scale_down provider id now db).1
unfolding prepare_scale_down
prepare_scale_down-Keyed provider id now db k =
    prepare_found-Keyed provider now (find (λ i. i.id == id) db.instances) db k

pub cancel_scale_down-Keyed :
    (provider : ProviderName) (db : Database) → Keyed db → Keyed (cancel_scale_down provider db)
unfolding cancel_scale_down
cancel_scale_down-Keyed provider db k =
    Distinct-update_where (λ (i : ProviderInstance). i.id) (is_draining_of provider) undrained
      (λ x. refl) db.instances k

evaluate_found-Keyed :
    (provider : ProviderName) (now : Time) (found : Option ProviderFleet) (db : Database)
    (decision : ScalingDecision) (next : Database)
    → evaluate_found provider now found db ≡ ok (decision, next)
    → Keyed db
    → Keyed next
unfolding evaluate_found
evaluate_found-Keyed provider now none db decision next e k = absurd (cc)
evaluate_found-Keyed provider now (some row) db decision next e k =
    let same : db.instances ≡ next.instances = cc in rw⁻¹ same k

pub evaluate-Keyed :
    (provider : ProviderName) (now : Time) (db : Database) (decision : ScalingDecision)
    (next : Database)
    → evaluate provider now db ≡ ok (decision, next)
    → Keyed db
    → Keyed next
unfolding evaluate
evaluate-Keyed provider now db decision next e k =
    evaluate_found-Keyed provider now (find (fleet_of provider) db.fleets) db decision next e k
