-- ===== src/Account/Main/Retry.antt =====
-- Retrying `POST /accounts/{account_id}/transactions` is safe.
use distr_sys_itrvw.Base.{ℕ, ◌≡◌, refl, Bool, true, false, inl, inr, Bool-cases}
use distr_sys_itrvw.Shared.Text.{Text, codes, text_eq}
use distr_sys_itrvw.Shared.Time.{DateTime}
use distr_sys_itrvw.Shared.Time.Utc.{IsUtc}
use distr_sys_itrvw.Shared.Contracts.{
  Platform, IsPlatform, EventPayload, TransactionRecord, duplicate_conflict, currency_mismatch,
  validation_error, value_error, overflow_error, integrity_error, runtime_error, Result, ok, err,
}
use distr_sys_itrvw.Shared.Rows.{Engine}
use distr_sys_itrvw.Account.Repository
use distr_sys_itrvw.Account.Repository.{Row, Table}
use distr_sys_itrvw.Account.Deliveries.{IsTable, IsCall, apply_transaction-twice}
use distr_sys_itrvw.Account.Main.{State, answered, http_error, count, applied, apply_transaction}

not_answered :
    {A : Type 0} {n m : ℕ} {detail : Text} {a : A} → http_error n detail ≡ answered m a → ⊥
not_answered h = cc

module _ (p : Platform) where
  open p use {Metadata}

  applied_answer :
      (q : Result (TransactionRecord Metadata × Bool)) (s : State) {status : ℕ}
      {r : TransactionRecord Metadata}
      → (applied p q s).0 ≡ answered status r
      → (created : Bool) × (q ≡ ok (r, created)) × ((applied p q s).1.repository ≡ s.repository)
  applied_answer (ok (x, true)) s h = (true, cc, refl)
  applied_answer (ok (x, false)) s h = (false, cc, refl)
  applied_answer (err (duplicate_conflict id)) s h = cc
  applied_answer (err (currency_mismatch a b)) s h = cc
  applied_answer (err validation_error) s h = cc
  applied_answer (err value_error) s h = cc
  applied_answer (err overflow_error) s h = cc
  applied_answer (err integrity_error) s h = cc
  applied_answer (err runtime_error) s h = cc

module _ (p : Platform) (laws : IsPlatform p) (engine : Engine Row) where
  open p use {Metadata}

  -- On a well-formed table, a request with a validated payload whose currency has three
  -- characters, which was answered with a record and is sent again at any reading of a clock in
  -- UTC, is answered with 200 and the same record, and changes nothing but the counter of replays.
  pub apply_transaction_retried :
      (account_id : Text) (now later : DateTime) (e : EventPayload Metadata) (s : State)
      {status : ℕ} {r : TransactionRecord Metadata}
      → IsCall p now e
      → IsUtc later
      → IsTable p s.repository
      → (apply_transaction p engine account_id now e s).0 ≡ answered status r
      → apply_transaction p engine account_id later e
          (apply_transaction p engine account_id now e s).1
        ≡ (
          answered 200 r,
          count
              (codes "account.transactions.duplicate_replay")
              (apply_transaction p engine account_id now e s).1,
        )
  unfolding apply_transaction
  apply_transaction_retried account_id now later e s call hlater held h =
      elim (Bool-cases (text_eq e.account_id account_id)) [
        | inr other ↦ absurd (not_answered (rw other at h))
        | inl same ↦
            let (outcome, table) = Repository.apply_transaction p engine now e s.repository in
            let (created, done, kept) =
              applied_answer p outcome (record s { repository = table }) (rw same at h) in
            rw same (
              rw kept (
                rw
                  (apply_transaction-twice p laws engine now later e s.repository call hlater held
                    done)
                  refl))
      ]
