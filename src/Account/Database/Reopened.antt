-- ===== src/Account/Database/Reopened.antt =====
-- The ledger outlives the process: what was applied is there when the file is opened again.
use distr_sys_itrvw.Base.{◌≡◌, refl, sym, ◌∙◌, false, List, [], ◌∷◌}
use distr_sys_itrvw.Shared.Text.{Text, text_eq}
use distr_sys_itrvw.Shared.Time.{DateTime}
use distr_sys_itrvw.Shared.Contracts.{Platform, EventPayload}
use distr_sys_itrvw.Shared.Rows.{Engine}
use mathlib.Core.Path.{subst}
use distr_sys_itrvw.Shared.Database.{done, opened, Files, IsFiles, memory}
use distr_sys_itrvw.Shared.Database.Saved.{
  with_rows, IsSaved, init_repository-IsSaved, init_repository-again, execute-IsSaved,
}
use distr_sys_itrvw.Account.Repository
use distr_sys_itrvw.Account.Repository.{Row, Table}
use distr_sys_itrvw.Account.Deliveries.{deliver_all}
use distr_sys_itrvw.Account.Database.{
  AccountRepository, init_repository, apply_transaction, apply_all,
}

rows-injective : {t u : Table} → opened (with_rows t) ≡ opened (with_rows u) → t ≡ u
rows-injective e = cc

module _ {F : Type 0} (files : Files Row F) (laws : IsFiles files) (p : Platform)
    (engine : Engine Row) where
  open p use {Metadata}

  apply_all-IsSaved :
      (calls : List (DateTime × EventPayload Metadata)) {r : AccountRepository} {f : F} {t : Table}
      → IsSaved files r f t
      → let (r', f') = apply_all files p engine calls r f in
        IsSaved files r' f' (deliver_all p engine calls t) × (r'.db_path ≡ r.db_path)
  unfolding apply_all deliver_all apply_transaction
  apply_all-IsSaved [] h = (h, refl)
  apply_all-IsSaved ((now, e) ∷ rest) h =
      let (_, after, path) =
        execute-IsSaved files laws (λ t. Repository.apply_transaction p engine now e t) h in
      let (saved, path') = apply_all-IsSaved rest after in (saved, path' ∙ path)

  -- If files keep what is written to them, and the repository at a path that is not ":memory:" was
  -- initialized with the rows `t`, then after any calls of `apply_transaction` a repository at the
  -- same path initializes again, with exactly the rows that these calls make of `t`.
  pub init_repository_reopened :
      (path : Text) (f : F) (calls : List (DateTime × EventPayload Metadata))
      {r : AccountRepository} {g : F} {t : Table}
      → text_eq path memory ≡ false
      → init_repository files path f ≡ done (r, g)
      → r.conn ≡ opened (with_rows t)
      → (s : AccountRepository) × (k : F) × (init_repository files path
            (apply_all files p engine calls r g).1
          ≡ done (s, k))
        × (s.conn ≡ opened (with_rows (deliver_all p engine calls t)))
  unfolding init_repository
  init_repository_reopened path f calls {r} {g} {t} disk eq has =
      let (t', start, at) = init_repository-IsSaved files laws path f disk eq in
      let (saved, kept) = apply_all-IsSaved calls start in
      let same : t' ≡ t = rows-injective (sym start.conn ∙ has) in
      init_repository-again files laws path (kept ∙ at) (
        subst
          (λ u.
            IsSaved files (apply_all files p engine calls r g).0
              (apply_all files p engine calls r g).1 (deliver_all p engine calls u))
          same saved)
