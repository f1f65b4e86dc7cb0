-- ===== src/Reconciler/Caution.antt =====
-- What a careful command is, and the commands of the loop that checks the instances.
use stolosio.Prelude.{
  ℕ, ◌+◌, ◌≤◌, ◌<◌, none, some, List, [], ◌∷◌, ◌++◌, Bool, true, false, ◌≡◌, refl, if◌then◌else◌,
  length, count, All, by_test, either, arith, Time,
}
use stolosio.Prelude.Registers.{entry, pop}
use stolosio.Contracts.{Key}
use stolosio.Tables.{Database}
use stolosio.Fleet.Instances.{prepare_scale_down}
use stolosio.Fleet.Keys.{Keyed, prepare_scale_down-Keyed}
use stolosio.Fleet.Draining.{IsRetired, prepare_scale_down-IsRetired}
use stolosio.Reconciler.State.{
  RuntimeInstance, Moment, preparing, checking, replacing, Surroundings, Command, scale, remove,
  Call, Pass, Progress, ends, goes_on,
}
use stolosio.Reconciler.Health.{
  Checks, noted, is_expired, set_since, replace_instance, check_instance, check_each,
}

-- No other process gives two rows of instances the same key: their table has a primary key.
abbrev pub KeepsKeys : Surroundings → Type 0
KeepsKeys w = (m : Moment) (db : Database) → Keyed db → Keyed (w.others m db)

-- The number is one away from the current one at most, and below it only where the runtime's
-- candidate is retired.
abbrev pub IsModest : Surroundings → ℕ → Database → Type 0
IsModest w n db =
    (n ≤ length w.first_listing + 1)
    × (length w.first_listing ≤ n + 1)
    × (n < length w.first_listing
        → (c : RuntimeInstance) × (w.scale_down_candidate w.first_listing ≡ some c)
          × IsRetired c.instance_id (w.clock preparing) db)

-- The instance's port is closed, and the instance is retired.
abbrev pub IsSpent : Surroundings → Key → Database → Type 0
IsSpent w id db =
    IsRetired id (w.clock (replacing id)) db
    × ((i : RuntimeInstance) × (i.instance_id ≡ id) × (w.port_open i ≡ false))

abbrev pub IsCautious : Surroundings → Call → Type 0
IsCautious w call = by_command call.command
  where
    by_command : Command → Type 0
    by_command (scale n capacity) = IsModest w n call.database
    by_command (remove id) = IsSpent w id call.database

abbrev pub is_scale : Call → Bool
is_scale call = test call.command
  where
    test : Command → Bool
    test (scale _ _) = true
    test (remove _) = false

-- The commands of a pass: each is cautious, and one at most scales the deployment.
pub record IsCareful (w : Surroundings) (calls : List Call) : Type 0 where
  pub cautious : All (IsCautious w) calls
  pub single : count is_scale calls ≤ 1

All-append {ℓ κ} :
    {A : Type ℓ} (P : A → Type κ) (xs : List A) (y : A) → All P xs → P y → All P (xs ++ y ∷ [])
All-append P [] y a p = (p, tt)
All-append P (x ∷ xs) y a p = (a.0, All-append P xs y a.1 p)

count-append :
    (xs : List Call) (y : Call)
    → is_scale y ≡ false
    → count is_scale (xs ++ y ∷ []) ≡ count is_scale xs
count-append [] y e = ground arith
count-append (x ∷ xs) y e = let ih = count-append xs y e in ground arith

-- What holds all along a pass.
pub record IsGood (w : Surroundings) (p : Pass) : Type 0 where
  pub keyed : Keyed p.database
  pub careful : IsCareful w p.calls

abbrev pub Keeps : {A : Type 0} → Surroundings → Progress A → Type 0
Keeps w (ends e p) = IsCareful w p.calls
Keeps w (goes_on a p) = IsGood w p

remove-IsCareful :
    (w : Surroundings) (calls : List Call) (id : Key) (db : Database)
    → IsCareful w calls
    → IsSpent w id db
    → IsCareful w (calls ++ record { command = remove id; database = db } ∷ [])
remove-IsCareful w calls id db c s = record {
  cautious =
      All-append (IsCautious w) calls (record { command = remove id; database = db }) c.cautious s;
  single = rw (count-append calls (record { command = remove id; database = db }) refl) c.single;
}

entry-pop : (id : Key) (m : List (Key × Time)) → entry id (pop id m) ≡ none
entry-pop id [] = refl
entry-pop id ((j, t) ∷ m) = let ih = entry-pop id m in ground arith

-- An instance whose port is open has no time from which it is unhealthy.
expired_closed :
    (is_ready : Bool) (id : Key) (now : Time) (m : List (Key × Time)) (timeout : Time)
    → is_expired (entry id (noted is_ready id now m)) timeout now ≡ true
    → is_ready ≡ false
expired_closed false id now m timeout e = refl
expired_closed true id now m timeout e =
    absurd (let f : is_expired none timeout now ≡ true = rw (entry-pop id m) at e in cc)

module _ (w : Surroundings) (keeps : KeepsKeys w) where
  replace_instance-Keeps :
      (i : RuntimeInstance) (free : Bool) (c : Checks) (p : Pass)
      → IsGood w p
      → (free ≡ true → IsSpent w i.instance_id p.database)
      → Keeps w (replace_instance w i free c p)
  unfolding replace_instance
  replace_instance-Keeps i false c p g s = record { keyed = g.keyed; careful = g.careful }
  replace_instance-Keeps i true c p g s =
      let careful = remove-IsCareful w p.calls i.instance_id p.database g.careful (s refl) in
      either (Keeps w) (w.remove_fails i.instance_id) careful
        (record { keyed = g.keyed; careful = careful })

  check_instance-Keeps :
      (i : RuntimeInstance) (c : Checks) (p : Pass)
      → IsGood w p
      → Keeps w (check_instance w i (w.port_open i) c p)
  unfolding check_instance
  check_instance-Keeps i c p g =
      let id = i.instance_id in
      let now = w.clock (checking id) in
      let since = noted (w.port_open i) id now p.reconciler.unhealthy_since in
      by_test (Keeps w) (is_expired (entry id since) w.startup_timeout now)
        (λ e.
          let db = w.others (replacing id) p.database in
          let keyed = keeps (replacing id) p.database g.keyed in
          replace_instance-Keeps i (prepare_scale_down w.provider id (w.clock (replacing id)) db).0
            (if w.port_open i then record c { ready_ids = id ∷ c.ready_ids } else c)
            (record (set_since since p) {
              database = (prepare_scale_down w.provider id (w.clock (replacing id)) db).1;
            })
            (record {
              keyed = prepare_scale_down-Keyed w.provider id (w.clock (replacing id)) db keyed;
              careful = g.careful;
            })
            (λ free. (
              prepare_scale_down-IsRetired w.provider id (w.clock (replacing id)) db keyed free,
              (
                i,
                refl,
                expired_closed (w.port_open i) id now p.reconciler.unhealthy_since w.startup_timeout
                    e,
              ),
            )))
        (λ e. record { keyed = g.keyed; careful = g.careful })

  and_then :
      (instances : List RuntimeInstance) (r : Progress Checks)
      → Keeps w r
      → ((c : Checks) (p : Pass) → IsGood w p → Keeps w (check_each w instances c p))
      → Keeps w (elim r [ ends e q ↦ ends e q | goes_on d q ↦ check_each w instances d q ])
  and_then instances (ends e q) k next = k
  and_then instances (goes_on d q) k next = next d q k

  pub check_each-Keeps :
      (instances : List RuntimeInstance) (c : Checks) (p : Pass)
      → IsGood w p
      → Keeps w (check_each w instances c p)
  unfolding check_each
  check_each-Keeps [] c p g = g
  check_each-Keeps (i ∷ instances) c p g =
      and_then instances (check_instance w i (w.port_open i) c p) (check_instance-Keeps i c p g)
        (check_each-Keeps instances)
