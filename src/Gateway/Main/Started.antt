-- ===== src/Gateway/Main/Started.antt =====
-- What the Gateway starts with.
use distr_sys_itrvw.Base.{◌≡◌, refl, Option, none, some}
use distr_sys_itrvw.Base.{ℕ}
use distr_sys_itrvw.Base.Int.{ℤ}
use distr_sys_itrvw.Shared.Text.{Text}
use distr_sys_itrvw.Shared.Metrics.Counts.{IsCounted, empty-IsCounted}
use distr_sys_itrvw.Gateway.Repository.{Table}
use distr_sys_itrvw.Gateway.Client.{HttpAccountClient}
use distr_sys_itrvw.Gateway.Client.Breaker.{IsConsistent, init_client-IsConsistent}
use distr_sys_itrvw.Gateway.Main.{State}
use distr_sys_itrvw.Gateway.Main.App.{
  Environment, client_of, configured_client, chosen_table, app_state, create_app,
}
use mathlib.Core.Path.{subst}

some_inj : {A : Type 0} {a b : A} → some a ≡ some b → a ≡ b
some_inj e = cc

not_some : {A : Type 0} {a : A} → none ≡ some a → ⊥
not_some e = cc

client_of-IsConsistent :
    (url : Text) (timeout : Option ℕ) (attempts backoff threshold reset : Option ℤ)
    {c : HttpAccountClient}
    → client_of url timeout attempts backoff threshold reset ≡ some c
    → IsConsistent c
client_of-IsConsistent url (some t) (some a) (some b) (some th) (some r) e =
    subst IsConsistent (some_inj e) (init_client-IsConsistent url t a b th r)
client_of-IsConsistent url none a b th r e = absurd (not_some e)
client_of-IsConsistent url (some t) none b th r e = absurd (not_some e)
client_of-IsConsistent url (some t) (some a) none th r e = absurd (not_some e)
client_of-IsConsistent url (some t) (some a) (some b) none r e = absurd (not_some e)
client_of-IsConsistent url (some t) (some a) (some b) (some th) none e = absurd (not_some e)

module _ (env : Environment) where
  configured_client-IsConsistent :
      {c : HttpAccountClient} → configured_client env ≡ some c → IsConsistent c
  unfolding configured_client
  configured_client-IsConsistent e = client_of-IsConsistent _ _ _ _ _ _ e

  -- What holds of the state that the application starts with.
  abbrev pub IsStarted : {W : Type 0} → Option Table → State W → Type 0
  IsStarted repository s =
      IsConsistent s.account_client
      × IsCounted s.metrics
      × (s.repository ≡ chosen_table env repository)

  app_state-IsStarted :
      {W : Type 0} (repository : Option Table) (world : W) (client : Option HttpAccountClient)
      {s : State W}
      → ((c : HttpAccountClient) → client ≡ some c → IsConsistent c)
      → app_state env (chosen_table env repository) world client ≡ some s
      → IsStarted repository s
  app_state-IsStarted repository world none h e = absurd cc
  app_state-IsStarted repository world (some c) h e =
      subst (IsStarted repository) (some_inj e) (h c refl, empty-IsCounted, refl)

  -- Whatever the settings are, if the application starts, that is if each setting that it reads is
  -- a number, and a client that it was given is consistent, then its client is consistent: it has
  -- at least one attempt and a threshold of at least one, and its circuit is open exactly if its failures
  -- have reached that; its registry counts consistently; and its table is the one that it was given, or
  -- the one that it opened.
  pub create_app-IsStarted :
      {W : Type 0} (repository : Option Table) (client : Option HttpAccountClient) (world : W)
      {s : State W}
      → ((c : HttpAccountClient) → client ≡ some c → IsConsistent c)
      → create_app env repository client world ≡ some s
      → IsStarted repository s
  unfolding create_app
  create_app-IsStarted repository none world h e =
      app_state-IsStarted repository world (configured_client env)
        (λ c. configured_client-IsConsistent) e
  create_app-IsStarted repository (some c) world h e =
      app_state-IsStarted repository world (some c) h e
