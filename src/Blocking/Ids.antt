-- ===== src/Blocking/Ids.antt =====
-- The start of a session's configuration: the search for a free command id, and the command.
use stolosio.Prelude.{
  ℕ, zero, suc, ◌+◌, ◌≤◌, ◌<◌, leb, ◌==◌, String, str_eq_iff, Option, none, some, List, [], ◌∷◌,
  ◌++◌, Bool, true, false, ◌&&◌, ◌≡◌, refl, sym, ap, subst, by_test, is_some, find, if◌then◌else◌,
  inl, inr, any, count, length, Bool-cases, arith,
}
use stolosio.Blocking.Json.{ℤ, pos, negsuc, int_eq}
use stolosio.Blocking.Messages.{CommandKey, same_session, same_key}
use stolosio.Blocking.Session.{
  DomainBlocking, Response, Phase, created, awaiting, Task, set_blocked_urls, for_session, for_key,
}
use stolosio.Blocking.Configuration.{
  internal_key, in_use, free_id, id_fuel, set_phase, begin_command, task_phase, phase_of, start,
}
use stolosio.Blocking.Targets.{phase_of-set_phase}

-- A key of a command of the proxy's own, -(n + 1) or below.
abbrev reaches_id : ℕ → ℤ → Bool
reaches_id n (pos i) = false
reaches_id n (negsuc i) = leb n i

abbrev reaches : ℕ → CommandKey → Bool
reaches n key = reaches_id n key.command_id

reaches_later : (n : ℕ) (i : ℤ) → reaches_id (n + 1) i ≡ true → reaches_id n i ≡ true
reaches_later n (pos i) e = e
reaches_later n (negsuc i) e = ground arith

reaches_hit :
    (n : ℕ) (i : ℤ)
    → int_eq (negsuc n) i ≡ true
    → (reaches_id n i ≡ true) × (reaches_id (n + 1) i ≡ false)
reaches_hit n (pos i) e = absurd (cc)
reaches_hit n (negsuc i) e = (ground arith, ground arith)

and_second : (a b : Bool) → (a && b) ≡ true → b ≡ true
and_second true b e = e
and_second false b e = absurd (cc)

and_second_turned :
    (i : ℤ) (n : ℕ) (a : Bool) → (a && int_eq i (negsuc n)) ≡ true → int_eq (negsuc n) i ≡ true
and_second_turned (pos i) n a e = absurd (let f = and_second a false e in cc)
and_second_turned (negsuc i) n a e = let f = and_second a (i == n) e in ground arith

reaches-same_key :
    (s : String) (n : ℕ) (key : CommandKey)
    → same_key (internal_key s n) key ≡ true
    → (reaches n key ≡ true) × (reaches (n + 1) key ≡ false)
reaches-same_key s n key e =
    reaches_hit n key.command_id
      (and_second (same_session (some s) key.session_id) (int_eq (negsuc n) key.command_id) e)

reaches-for_key :
    (s : String) (n : ℕ) (r : Response)
    → for_key (internal_key s n) r ≡ true
    → (reaches n r.key ≡ true) × (reaches (n + 1) r.key ≡ false)
reaches-for_key s n r e =
    reaches_hit n r.key.command_id
      (and_second_turned r.key.command_id n (same_session r.key.session_id (some s)) e)

-- Where a test leaves a row out that an earlier one counts, there is one row less.
module _ {A : Type 0} (at : ℕ → A → Bool)
    (later : (n : ℕ) (x : A) → at (n + 1) x ≡ true → at n x ≡ true) where
  count_later : (n : ℕ) (xs : List A) → count (at (n + 1)) xs ≤ count (at n) xs
  count_later n [] = omega arith
  count_later n (x ∷ xs) = let ih = count_later n xs in ground (arith, later n x)

  count_hit :
      (n : ℕ) (hit : A → Bool)
      → ((x : A) → hit x ≡ true → (at n x ≡ true) × (at (n + 1) x ≡ false))
      → (xs : List A) → any hit xs ≡ true
      → count (at (n + 1)) xs < count (at n) xs
  count_hit n hit h [] e = absurd (cc)
  count_hit n hit h (x ∷ xs) e = elim (Bool-cases (hit x)) [
    | inl t ↦ let (a, b) = h x t in let le = count_later n xs in ground arith
    | inr f ↦ let ih = count_hit n hit h xs (ground arith) in ground (arith, later n x)
  ]

  count-length : (n : ℕ) (xs : List A) → count (at n) xs ≤ length xs
  count-length n [] = omega arith
  count-length n (x ∷ xs) = let ih = count-length n xs in ground arith

-- A search over a test that uses up a bounded supply.
free_id-ends :
    (used : ℕ → Bool) (supply : ℕ → ℕ)
    → ((n : ℕ) → used n ≡ true → supply (n + 1) < supply n)
    → (fuel n : ℕ) → supply n < fuel
    → (m : ℕ) × (free_id fuel used n ≡ some m) × (used m ≡ false) × (n ≤ m)
unfolding free_id
free_id-ends used supply h zero n lt = elim lt [ ]
free_id-ends used supply h (suc fuel) n lt = elim (Bool-cases (used n)) [
  | inl t ↦
      let s = h n t in
      let (m, e, f, le) = free_id-ends used supply h fuel (n + 1) (omega arith) in
      (m, rw t e, f, omega arith)
  | inr f ↦ (n, rw f refl, f, omega arith)
]

-- The proxy's command with the id -(n + 1) in the session.
abbrev pub own_key : String → ℕ → CommandKey
own_key s n = record { session_id = some s; command_id = negsuc n }

-- The configuration of a session is under way: the id -(n + 1) was free, the list of blocked URLs was
-- sent under it, and the task waits for the response.
pub record IsBegun (s : String) (d : DomainBlocking) (n : ℕ) (next : DomainBlocking) : Type 0 where
  pub unclaimed : any (same_key (own_key s n)) d.downstream_command_ids ≡ false
  pub unused : any (for_key (own_key s n)) d.internal_responses ≡ false
  pub below : d.internal_command_id ≤ n
  pub sent : next.sent ≡ d.sent ++ set_blocked_urls (own_key s n) d.url_patterns ∷ []
  pub expected :
      next.internal_responses
      ≡ d.internal_responses ++ record { key = own_key s n; result = none } ∷ []
  pub taken : next.internal_command_id ≡ n + 1
  pub waits_for : phase_of s next ≡ some (awaiting (own_key s n))

module _ (s : String) (d : DomainBlocking) where
  abbrev supply : ℕ → ℕ
  supply n =
      count (reaches n) d.downstream_command_ids + count (λ r. reaches n r.key) d.internal_responses

  supply_used : (n : ℕ) → in_use s d n ≡ true → supply (n + 1) < supply n
  supply_used n e =
      let ids =
        count_later reaches (λ m key. reaches_later m key.command_id) n d.downstream_command_ids in
      let own =
        count_later (λ m (r : Response). reaches m r.key) (λ m r. reaches_later m r.key.command_id)
          n d.internal_responses in
      elim (Bool-cases (any (same_key (internal_key s n)) d.downstream_command_ids)) [
        | inl t ↦
            let lt =
              count_hit reaches (λ m key. reaches_later m key.command_id) n
                (same_key (internal_key s n)) (reaches-same_key s n) d.downstream_command_ids t in
            omega arith
        | inr f ↦
            let lt =
              count_hit (λ m (r : Response). reaches m r.key)
                (λ m r. reaches_later m r.key.command_id) n (for_key (internal_key s n))
                (reaches-for_key s n) d.internal_responses (ground arith) in
            omega arith
      ]

  found_task :
      (p : Phase) (o : Option Task)
      → task_phase o ≡ some created
      → (if true && is_some o then some p else task_phase o) ≡ some p
  found_task p none e = absurd (cc)
  found_task p (some t) e = refl

  begun_phase :
      (p : Phase) (ts : List Task)
      → task_phase (find (for_session s) ts) ≡ some created
      → task_phase (find (for_session s) (set_phase s p ts)) ≡ some p
  begun_phase p ts e =
      rw (phase_of-set_phase s s p ts)
        (rw ((str_eq_iff s s).1 refl) (found_task p (find (for_session s) ts) e))

  begin_command-IsBegun :
      (n : ℕ)
      → phase_of s d ≡ some created
      → in_use s d n ≡ false
      → d.internal_command_id ≤ n
      → IsBegun s d n (begin_command s (some n) d)
  unfolding begin_command
  begin_command-IsBegun n p f le = record {
    unclaimed = ground arith;
    unused = ground arith;
    below = le;
    sent = refl;
    expected = refl;
    taken = refl;
    waits_for = begun_phase (awaiting (internal_key s n)) d.configuration_tasks p;
  }

  start_taken :
      (n : ℕ)
      → d.closed ≡ false
      → free_id (id_fuel d) (in_use s d) d.internal_command_id ≡ some n
      → start s (some created) d ≡ begin_command s (some n) d
  unfolding start
  start_taken n o e =
      by_test (λ x. x ≡ begin_command s (some n) d) d.closed (λ c. absurd (cc))
        (λ c. ap (λ m. begin_command s m d) e)

  -- The first section of the task that configures a session, on a proxy that is open: the search for
  -- an id ends, at or below the one that is next in turn, with an id that no command of the client and no
  -- command of the proxy has in that session; the proxy's whole list of blocked URLs goes to the
  -- provider as one command with that id, after what was sent before; a future for its response is
  -- kept; and the task waits for it.
  pub start-IsBegun :
      d.closed ≡ false
      → phase_of s d ≡ some created
      → (n : ℕ) × IsBegun s d n (start s (phase_of s d) d)
  start-IsBegun o p =
      let ids =
        count-length reaches (λ m key. reaches_later m key.command_id) d.internal_command_id
          d.downstream_command_ids in
      let own =
        count-length (λ m (r : Response). reaches m r.key) (λ m r. reaches_later m r.key.command_id)
          d.internal_command_id d.internal_responses in
      let (n, e, f, le) =
        free_id-ends (in_use s d) supply supply_used (id_fuel d) d.internal_command_id
          (omega arith) in
      (
        n,
        subst (λ x. IsBegun s d n (start s x d)) (sym p)
            (subst (IsBegun s d n) (sym (start_taken n o e)) (begin_command-IsBegun n p f le)),
      )
