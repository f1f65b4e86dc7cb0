-- ===== src/Gateway/Calls.antt =====
-- The calls of both repositories, as one relation of the database to the next one.
use stolosio.Prelude.{ℕ, String, Option, List, [], ◌∷◌, Bool, Time}
use stolosio.Contracts.{Key, Json, ProviderName, StolosioSession, ProviderAttempt}
use stolosio.Tables.{Database}
use stolosio.Sessions.Events.{SessionRepositorySettings}
use stolosio.Sessions.Calls
use stolosio.Sessions.Calls.{SessionCall}
use stolosio.Attempts.Enqueue.{enqueue}
use stolosio.Attempts.Claim.{claim}
use stolosio.Attempts.Progress.{activate, bind_provider_session, record_provider_usage, finish}
use stolosio.Attempts.Slots.{after}

pub data GatewayCall : Type 0 where
  session_call : SessionCall → GatewayCall
  enqueues : StolosioSession → Key → ProviderName → Json → Json → Option Key → GatewayCall
  claims : StolosioSession → ProviderAttempt → GatewayCall
  activates : ProviderAttempt → GatewayCall
  binds : ProviderAttempt → Option String → Option Time → GatewayCall
  records_usage : ProviderAttempt → Option Time → GatewayCall
  finishes : ProviderAttempt → Bool → String → Option Json → Option Json → GatewayCall

module _ (settings : SessionRepositorySettings) (max_active : ℕ) where
  unfoldable pub step : Database → Time × GatewayCall → Database
  step db (now, session_call call) = Calls.step settings max_active db (now, call)
  step db (now, enqueues s id provider resolved sources replacement) =
      after (enqueue s id provider resolved sources replacement now db) db
  step db (now, claims s attempt) = after (claim s attempt now db) db
  step db (now, activates attempt) = (activate attempt now db).1
  step db (now, binds attempt id started) = bind_provider_session attempt id started db
  step db (now, records_usage attempt ended) = record_provider_usage attempt ended now db
  step db (now, finishes attempt failed reason commands phases) =
      (finish attempt failed reason commands phases now db).1

  unfoldable pub run : Database → List (Time × GatewayCall) → Database
  run db [] = db
  run db (call ∷ calls) = run (step db call) calls
