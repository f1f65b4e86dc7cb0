-- ===== src/Fleet/Draining.antt =====
-- An instance that is prepared for removal serves nobody and is not chosen any more.
use stolosio.Prelude.{
  ◌≡◌, ◌≢◌, refl, Option, none, some, true, false, ◌==◌, ==_iff, List, [], ◌∷◌, Time, arith, All,
  Bool-cases, inl, inr, any, find, update_row,
}
use stolosio.Prelude.Keys.{Distinct}
use stolosio.Prelude.Writes.{find-test}
use stolosio.Contracts.{Key, ProviderName, same_provider}
use stolosio.Tables.{ProviderInstance, Database}
use stolosio.Attempts.Placement.{select_instance}
use stolosio.Attempts.Occupancy.{best_sound}
use stolosio.Fleet.Instances.{is_draining, drained, assigned, prepare_found, prepare_scale_down}

IsDraining : Key → ProviderInstance → Type 0
IsDraining id i = i.id ≡ id → is_draining i.state ≡ true

absent-IsDraining :
    (id k : Key) (xs : List ProviderInstance)
    → k ≡ id
    → any (λ i. i.id == k) xs ≡ false
    → All (IsDraining id) xs
unfolding IsDraining
absent-IsDraining id k [] e h = tt
absent-IsDraining id k (x ∷ xs) e h =
    (λ same. absurd (ground arith), absent-IsDraining id k xs e (ground arith))

update_row-IsDraining :
    (id : Key) (now : Time) (xs : List ProviderInstance)
    → Distinct (λ (i : ProviderInstance). i.id) xs
    → All (IsDraining id) (update_row (λ i. i.id == id) (drained now) xs)
unfolding IsDraining
update_row-IsDraining id now [] d = tt
update_row-IsDraining id now (x ∷ xs) d = elim (Bool-cases (x.id == id)) [
  | inl t ↦ rw t ((λ same. refl), absent-IsDraining id x.id xs (ground arith) d.0)
  | inr t ↦ rw t ((λ same. absurd (ground arith)), update_row-IsDraining id now xs d.1)
]

-- No attempt of a live session with a running lease is on the instance, and no provider's selection
-- chooses it, at any time.
pub record IsRetired (id : Key) (now : Time) (db : Database) : Type 0 where
  pub idle : assigned id now db ≡ 0
  pub unchosen :
      (q : ProviderName) (t : Time) (i : ProviderInstance)
      → select_instance q t db ≡ some i
      → i.id ≢ id

unchosen_draining :
    (id : Key) (db : Database) (q : ProviderName) (t : Time) (i : ProviderInstance)
    → All (IsDraining id) db.instances
    → select_instance q t db ≡ some i
    → i.id ≢ id
unfolding IsDraining select_instance
unchosen_draining id db q t i a e same =
    let facts = best_sound (IsDraining id) q t db db.instances i a e in
    let drains = facts.2 same in let free = facts.0 in ground arith

prepare_found-IsRetired :
    (provider : ProviderName) (id : Key) (now : Time) (db : Database)
    (found : Option ProviderInstance)
    → find (λ i. i.id == id) db.instances ≡ found
    → Distinct (λ (i : ProviderInstance). i.id) db.instances
    → (prepare_found provider now found db).0 ≡ true
    → IsRetired id now (prepare_found provider now found db).1
unfolding prepare_found assigned
prepare_found-IsRetired provider id now db none e d h = cc
prepare_found-IsRetired provider id now db (some row) e d h =
    let key : row.id ≡ id = (==_iff row.id id).0 (find-test (λ i. i.id == id) db.instances e) in
    elim (Bool-cases (same_provider row.provider provider)) [
      | inr t ↦ absurd (let f : false ≡ true = rw t at h in cc)
      | inl t ↦
          rw (t, key)
            (record {
              idle = (==_iff (assigned id now db) 0).0 (rw (t, key) at h);
              unchosen = λ q u i s.
                  unchosen_draining id _ q u i (update_row-IsDraining id now db.instances d) s;
            })
    ]

-- Where the instances have different keys and `prepare_scale_down` answers yes for one of them: in
-- the database that it leaves, no attempt of a session that is live with a running lease is on that
-- instance, and no provider's selection chooses it, at any time.
pub prepare_scale_down-IsRetired :
    (provider : ProviderName) (id : Key) (now : Time) (db : Database)
    → Distinct (λ (i : ProviderInstance). i.id) db.instances
    → (prepare_scale_down provider id now db).0 ≡ true
    → IsRetired id now (prepare_scale_down provider id now db).1
unfolding prepare_scale_down
prepare_scale_down-IsRetired provider id now db d h =
    prepare_found-IsRetired provider id now db (find (λ i. i.id == id) db.instances) refl d h
