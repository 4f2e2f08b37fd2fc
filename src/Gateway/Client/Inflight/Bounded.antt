-- ===== src/Gateway/Client/Inflight/Bounded.antt =====
-- What holds of one client under every interleaving of its requests.
use mathlib.Core.Path.{subst}
use distr_sys_itrvw.Base.{
  ℕ, ◌<◌, ◌≤◌, ◌≡◌, refl, sym, ◌∙◌, inl, inr, List, [], ◌∷◌, ◌++◌, arith, leb, ltb, Bool-cases,
  if◌then◌else◌,
}
use distr_sys_itrvw.Gateway.Client.{
  HttpAccountClient, Body, Outcome, timed_out, crashed, response, Reason, unreachable, server_error,
  settle, circuit_allows, record_downstream_failure, record_downstream_success,
}
use distr_sys_itrvw.Gateway.Client.Breaker.{IsConsistent, failure-IsConsistent, settle-IsConsistent}
use distr_sys_itrvw.Gateway.Client.Inflight.{
  Phase, created, sending, pausing, finished, Inflight, gave_up, received, advance, Moves, goes_on,
  comes_in, Interleaving, none_yet, and_then,
}

module _ {J : Type 0} where
  -- The number of an attempt is one that the client makes, and after the last there is no pause.
  abbrev pub IsPhase : ℕ → Phase J → Type 0
  IsPhase tries created = Unit {0}
  IsPhase tries (sending attempt) = (1 ≤ attempt) × (attempt ≤ tries)
  IsPhase tries (pausing attempt) = (1 ≤ attempt) × (attempt < tries)
  IsPhase tries (finished answer) = Unit {0}

  abbrev pub AllPhases : ℕ → List (Phase J) → Type 0
  AllPhases tries [] = Unit {0}
  AllPhases tries (q ∷ qs) = IsPhase tries q × AllPhases tries qs

  -- The client is consistent, it still makes as many attempts, and no request exceeds them.
  pub record IsBounded (tries : ℕ) (s : Inflight J) : Type 0 where
    pub consistent : IsConsistent s.client
    pub configured : s.client.max_attempts ≡ tries
    pub requests : AllPhases tries s.requests

  abbrev IsAdvanced : ℕ → Phase J × HttpAccountClient → Type 0
  IsAdvanced tries (q, c) = IsPhase tries q × IsConsistent c × (c.max_attempts ≡ tries)

  retry_or_gave_up :
      (now attempt tries : ℕ) (reason : Reason) (c : HttpAccountClient)
      (r : Phase J × HttpAccountClient)
      → r ≡ (if ltb attempt c.max_attempts then (pausing attempt, c) else gave_up now reason c)
      → IsConsistent c
      → c.max_attempts ≡ tries
      → 1 ≤ attempt
      → IsAdvanced tries r
  unfolding record_downstream_failure
  retry_or_gave_up now attempt tries reason c r eq h e low =
      elim (Bool-cases (ltb attempt c.max_attempts)) [
        | inl more ↦ subst (IsAdvanced tries) (sym (rw more at eq)) ((low, ground arith), h, e)
        | inr last ↦
            subst (IsAdvanced tries) (sym (rw last at eq)) (tt, failure-IsConsistent now c h, e)
      ]

  settled_attempts :
      (status : ℕ) (body : Body J) (c : HttpAccountClient)
      → (settle status body c).1.max_attempts ≡ c.max_attempts
  unfolding settle record_downstream_success
  settled_attempts status body c = elim (Bool-cases (leb 400 status)) [
    | inl e ↦ rw e refl
    | inr e ↦ rw e refl
  ]

  received-IsAdvanced :
      (now : ℕ) (o : Outcome J) (attempt tries : ℕ) (c : HttpAccountClient)
      → IsConsistent c
      → c.max_attempts ≡ tries
      → 1 ≤ attempt
      → IsAdvanced tries (received now o attempt c)
  unfolding received
  received-IsAdvanced now timed_out attempt tries c h e low =
      retry_or_gave_up now attempt tries unreachable c _ refl h e low
  received-IsAdvanced now crashed attempt tries c h e low = (tt, h, e)
  received-IsAdvanced now (response status body) attempt tries c h e low =
      elim (Bool-cases (leb 500 status)) [
        | inl wrong ↦ rw wrong (retry_or_gave_up now attempt tries server_error c _ refl h e low)
        | inr fine ↦
            rw fine (tt, settle-IsConsistent status body c h, settled_attempts status body c ∙ e)
      ]

  advance-IsAdvanced :
      (now : ℕ) (o : Outcome J) (q : Phase J) (tries : ℕ) (c : HttpAccountClient)
      → IsConsistent c
      → c.max_attempts ≡ tries
      → IsPhase tries q
      → IsAdvanced tries (advance now o q c)
  unfolding advance
  advance-IsAdvanced now o created tries c h e low = elim (Bool-cases (circuit_allows now c)) [
    | inl allowed ↦ rw allowed ((omega arith, omega (arith, h.tries, e)), h, e)
    | inr refused ↦ rw refused (tt, h, e)
  ]
  advance-IsAdvanced now o (sending attempt) tries c h e (low, high) =
      received-IsAdvanced now o attempt tries c h e low
  advance-IsAdvanced now o (pausing attempt) tries c h e (low, high) =
      ((omega arith, omega (arith, high)), h, e)
  advance-IsAdvanced now o (finished answer) tries c h e low = (tt, h, e)

  AllPhases-at :
      (tries : ℕ) (before : List (Phase J)) (q : Phase J) (after : List (Phase J))
      → AllPhases tries (before ++ q ∷ after)
      → IsPhase tries q
  AllPhases-at tries [] q after h = h.0
  AllPhases-at tries (x ∷ before) q after h = AllPhases-at tries before q after h.1

  AllPhases-put :
      (tries : ℕ) (before : List (Phase J)) (q r : Phase J) (after : List (Phase J))
      → AllPhases tries (before ++ q ∷ after)
      → IsPhase tries r
      → AllPhases tries (before ++ r ∷ after)
  AllPhases-put tries [] q r after h hr = (hr, h.1)
  AllPhases-put tries (x ∷ before) q r after h hr =
      (h.0, AllPhases-put tries before q r after h.1 hr)

  AllPhases-more :
      (tries : ℕ) (qs : List (Phase J)) → AllPhases tries qs → AllPhases tries (qs ++ created ∷ [])
  AllPhases-more tries [] h = (tt, tt)
  AllPhases-more tries (q ∷ qs) h = (h.0, AllPhases-more tries qs h.1)

  Moves-IsBounded :
      (tries : ℕ) {s t : Inflight J} → IsBounded tries s → Moves s t → IsBounded tries t
  Moves-IsBounded tries {s} h (goes_on now o before q after at eq) =
      let all = subst (AllPhases tries) at h.requests in
      let (phase, consistent, configured) =
        advance-IsAdvanced now o q tries s.client h.consistent h.configured
          (AllPhases-at tries before q after all) in
      subst (IsBounded tries) (sym eq) (record {
        consistent = consistent;
        configured = configured;
        requests = AllPhases-put tries before q (advance now o q s.client).0 after all phase;
      })
  Moves-IsBounded tries {s} h (comes_in eq) = subst (IsBounded tries) (sym eq) (record {
    consistent = h.consistent;
    configured = h.configured;
    requests = AllPhases-more tries s.requests h.requests;
  })

  -- However many requests are in flight on one client and in whatever order they go on, whatever their
  -- outcomes and whenever: the client stays consistent, that is, its circuit is open exactly if the
  -- failures in a row have reached the threshold; its number of attempts stays; and no request makes
  -- an attempt beyond that number, or pauses after the last one.
  pub Interleaving-IsBounded :
      (tries : ℕ) {s t : Inflight J} → IsBounded tries s → Interleaving s t → IsBounded tries t
  Interleaving-IsBounded tries h none_yet = h
  Interleaving-IsBounded tries h (and_then run move) =
      Moves-IsBounded tries (Interleaving-IsBounded tries h run) move
