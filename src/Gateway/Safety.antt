-- ===== src/Gateway/Safety.antt =====
-- After any calls of the two repositories, no instance holds more attempts than its capacity.
use stolosio.Prelude.{ℕ, ◌≤◌, List, [], ◌∷◌, ◌&&◌, Time, arith}
use stolosio.Prelude.Counts.{count_mono}
use stolosio.Contracts.{Key, ProviderName}
use stolosio.Tables.{Database}
use stolosio.Sessions.Events.{SessionRepositorySettings}
use stolosio.Sessions.Calls
use stolosio.Sessions.Calls.{SessionCall, admits, heartbeats, opens, releases}
use stolosio.Attempts.Live.{session_serves, occupies, occupied}
use stolosio.Attempts.Occupancy.{IsRoomy}
use stolosio.Attempts.Methods.{
  enqueue-IsRoomy, claim-IsRoomy, activate-IsRoomy, bind_provider_session-IsRoomy,
  record_provider_usage-IsRoomy, finish-IsRoomy,
}
use stolosio.Gateway.Calls.{
  GatewayCall, session_call, enqueues, claims, activates, binds, records_usage, finishes, step, run,
}
use stolosio.Gateway.Slots.{admit-IsRoomy, heartbeat-IsRoomy, open_lease-IsRoomy, release-IsRoomy}

module _ (k : Key) (p : ProviderName) (c : ℕ) (settings : SessionRepositorySettings)
    (max_active : ℕ) where
  session_step-IsRoomy :
      (db : Database) (call : Time × SessionCall)
      → IsRoomy k p c db
      → IsRoomy k p c (Calls.step settings max_active db call)
  unfolding Calls.step
  session_step-IsRoomy db (now, admits s requested reference) w =
      admit-IsRoomy k p c settings max_active now db s requested reference w
  session_step-IsRoomy db (now, heartbeats s) w =
      heartbeat-IsRoomy k p c settings max_active now db s w
  session_step-IsRoomy db (now, opens s) w = open_lease-IsRoomy k p c settings max_active now db s w
  session_step-IsRoomy db (now, releases s failed reason) w =
      release-IsRoomy k p c settings max_active now db s failed reason w

  step-IsRoomy :
      (db : Database) (call : Time × GatewayCall)
      → IsRoomy k p c db
      → IsRoomy k p c (step settings max_active db call)
  unfolding step
  step-IsRoomy db (now, session_call call) w = session_step-IsRoomy db (now, call) w
  step-IsRoomy db (now, enqueues s id q resolved sources replacement) w =
      enqueue-IsRoomy k p c s id q resolved sources replacement now db w
  step-IsRoomy db (now, claims s attempt) w = claim-IsRoomy k p c s attempt now db w
  step-IsRoomy db (now, activates attempt) w = activate-IsRoomy k p c attempt now db w
  step-IsRoomy db (now, binds attempt id started) w =
      bind_provider_session-IsRoomy k p c attempt id started db w
  step-IsRoomy db (now, records_usage attempt ended) w =
      record_provider_usage-IsRoomy k p c attempt ended now db w
  step-IsRoomy db (now, finishes attempt failed reason commands phases) w =
      finish-IsRoomy k p c attempt failed reason commands phases now db w

  run-IsRoomy :
      (db : Database) (calls : List (Time × GatewayCall))
      → IsRoomy k p c db
      → IsRoomy k p c (run settings max_active db calls)
  unfolding run
  run-IsRoomy db [] w = w
  run-IsRoomy db (call ∷ calls) w =
      run-IsRoomy (step settings max_active db call) calls (step-IsRoomy db call w)

  -- Where the database knows instance `k` as one of provider `p` with `c` slots, its attempts have
  -- different keys, those on the instance are of `p` and of sessions in the table, and at most `c`
  -- of them are in an active state: after any calls of the two repositories, whatever their order
  -- and their clock values, at most `c` slots of the instance are occupied at any time `t`.
  pub occupied-run_le :
      (db : Database) (calls : List (Time × GatewayCall)) (t : Time)
      → IsRoomy k p c db
      → occupied t (run settings max_active db calls) k ≤ c
  occupied-run_le db calls t w =
      let after : Database = run settings max_active db calls in
      let w' = run-IsRoomy db calls w in
      let fewer =
        count_mono (λ a. occupies k a && session_serves t after.sessions a.session_id) (occupies k)
          (λ a e. ground arith) after.attempts in
      omega (arith, fewer, w'.bounded)
