-- ===== src/Attempts/Placement.antt =====
-- backend/proxy/postgres/attempts.py: `_select_instance`, the fullest ready instance with room.
use stolosio.Prelude.{
  Bool, true, false, ◌&&◌, ◌||◌, Option, none, some, List, [], ◌∷◌, Time, ◌==◌, ltb, if◌then◌else◌,
}
use stolosio.Contracts.{ProviderName, same_provider}
use stolosio.Tables.{ProviderInstance, FleetInstanceState, ready, Database}
use stolosio.Attempts.Live.{occupied}

abbrev pub is_ready : FleetInstanceState → Bool
is_ready ready = true
is_ready _ = false

-- The instances that are read: ready, and seen not long ago.
abbrev pub available : ProviderName → Time → ProviderInstance → Bool
available provider now i =
    same_provider i.provider provider && (is_ready i.state && ltb now i.observation_expires_at)

abbrev pub has_room : Time → Database → ProviderInstance → Bool
has_room now db i = ltb (occupied now db i.id) i.capacity

-- The order of the candidates: by occupied slots, then by key.
abbrev pub is_below : Time → Database → ProviderInstance → ProviderInstance → Bool
is_below now db i j =
    let a = occupied now db i.id in
    let b = occupied now db j.id in ltb a b || a == b && ltb i.id j.id

abbrev pub larger : Time → Database → ProviderInstance → Option ProviderInstance → ProviderInstance
larger now db i none = i
larger now db i (some j) = if is_below now db i j then j else i

-- max(candidates, key=(occupied, id))
unfoldable pub best :
    ProviderName → Time → Database → List ProviderInstance → Option ProviderInstance
best provider now db [] = none
best provider now db (i ∷ rest) =
    let others = best provider now db rest in
    if available provider now i && has_room now db i then some (larger now db i others) else others

unfoldable pub select_instance : ProviderName → Time → Database → Option ProviderInstance
unfolding best
select_instance provider now db = best provider now db db.instances
