-- ===== src/Blocking/Secured.antt =====
-- A session is taken for configured only when the provider has confirmed it.
use stolosio.Prelude.{
  String, str_eq_iff, Option, none, some, true, false, ◌≡◌, inl, inr, refl, Bool-cases,
}
use stolosio.Prelude.Dicts.{contains}
use stolosio.Blocking.Json.{Json}
use stolosio.Blocking.Messages.{CommandKey}
use stolosio.Blocking.Session.{Phase, created, awaiting, leaving, DomainBlocking}
use stolosio.Blocking.Configuration.{phase_of, result_of, is_error, settle, confirm}
use stolosio.Blocking.Calls.{
  Event, subscribes, receives, closes, sends, arrives, resumes, stream_ends, stream_breaks, starts,
  confirms, gives_up, leaves, advance,
}
use stolosio.Blocking.Gating.{IsQuiet}
use stolosio.Blocking.Tracking.{IsTracked, closed-fail_closed}
use stolosio.Blocking.Advance.{is_confirm, advance-Withholds}

-- The task of the session waits for the response of a command, and it is there and is no error.
pub record IsConfirmed (s : String) (d : DomainBlocking) : Type 0 where
  key : CommandKey
  value : Json
  waits_for : phase_of s d ≡ some (awaiting key)
  answered : result_of key d ≡ some value
  accepted : is_error value ≡ false

module _ (s : String) (d : DomainBlocking) (u : contains s d.unconfigured_targets ≡ true)
    (w : IsTracked d) where
  settle-IsConfirmed :
      (key : CommandKey) (v : Option Json)
      → d.closed ≡ false
      → phase_of s d ≡ some (awaiting key)
      → result_of key d ≡ v
      → contains s (settle s key v d).unconfigured_targets ≡ false
      → (settle s key v d).closed ≡ false
      → IsConfirmed s d
  unfolding settle
  settle-IsConfirmed key none o p e gone still = absurd (cc)
  settle-IsConfirmed key (some v) o p e gone still = elim (Bool-cases (is_error v)) [
    | inl t ↦ absurd (let c = closed-fail_closed d o w in let f = rw t at still in cc)
    | inr f ↦ record { key = key; value = v; waits_for = p; answered = e; accepted = f }
  ]

  confirm-IsConfirmed :
      (p : Option Phase)
      → d.closed ≡ false
      → phase_of s d ≡ p
      → contains s (confirm s p d).unconfigured_targets ≡ false
      → (confirm s p d).closed ≡ false
      → IsConfirmed s d
  unfolding confirm
  confirm-IsConfirmed none o e gone still = absurd (cc)
  confirm-IsConfirmed (some created) o e gone still = absurd (cc)
  confirm-IsConfirmed (some (leaving key)) o e gone still = absurd (cc)
  confirm-IsConfirmed (some (awaiting key)) o e gone still =
      settle-IsConfirmed key (result_of key d) o e refl gone still

module _ (loads : String → Option Json) where
  confirms-IsConfirmed :
      (s r : String) (d : DomainBlocking)
      → r ≡ s
      → contains s d.unconfigured_targets ≡ true
      → d.closed ≡ false
      → IsTracked d
      → contains s (confirm r (phase_of r d) d).unconfigured_targets ≡ false
      → (confirm r (phase_of r d) d).closed ≡ false
      → IsConfirmed s d
  confirms-IsConfirmed s r d same u o w gone still =
      confirm-IsConfirmed s d u w (phase_of s d) o refl (rw same at gone) (rw same at still)

  at_confirm :
      (s : String) (d : DomainBlocking) (e : Event)
      → contains s d.unconfigured_targets ≡ true
      → d.closed ≡ false
      → IsTracked d
      → is_confirm s e ≡ true
      → contains s (advance loads e d).unconfigured_targets ≡ false
      → (advance loads e d).closed ≡ false
      → IsConfirmed s d
  unfolding advance
  at_confirm s d (confirms r) u o w t gone still =
      confirms-IsConfirmed s r d ((str_eq_iff r s).0 t) u o w gone still
  at_confirm s d subscribes u o w t gone still = absurd (cc)
  at_confirm s d receives u o w t gone still = absurd (cc)
  at_confirm s d closes u o w t gone still = absurd (cc)
  at_confirm s d (sends _ _) u o w t gone still = absurd (cc)
  at_confirm s d (arrives _) u o w t gone still = absurd (cc)
  at_confirm s d resumes u o w t gone still = absurd (cc)
  at_confirm s d stream_ends u o w t gone still = absurd (cc)
  at_confirm s d stream_breaks u o w t gone still = absurd (cc)
  at_confirm s d (starts _) u o w t gone still = absurd (cc)
  at_confirm s d (gives_up _) u o w t gone still = absurd (cc)
  at_confirm s d (leaves _) u o w t gone still = absurd (cc)

  -- Where an event takes a session from those that are not configured and the proxy stays open, the
  -- event is the wake-up of the session's task and the task waited for a command whose response has
  -- come and is no error.
  pub advance-IsConfirmed :
      (s : String) (d : DomainBlocking) (e : Event)
      → contains s d.unconfigured_targets ≡ true
      → d.closed ≡ false
      → IsQuiet d
      → IsTracked d
      → contains s (advance loads e d).unconfigured_targets ≡ false
      → (advance loads e d).closed ≡ false
      → (is_confirm s e ≡ true) × IsConfirmed s d
  advance-IsConfirmed s d e u o q w gone still = elim (Bool-cases (is_confirm s e)) [
    | inr n ↦ elim (advance-Withholds loads s d (inl u) q e n).held [
      | inl v ↦ absurd (cc)
      | inr c ↦ absurd (cc)
    ]
    | inl t ↦ (t, at_confirm s d e u o w t gone still)
  ]
