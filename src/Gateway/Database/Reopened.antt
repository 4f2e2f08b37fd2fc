-- ===== src/Gateway/Database/Reopened.antt =====
-- The record of events outlives the process: the log is there when the file is opened again.
use mathlib.Core.Path.{subst}
use distr_sys_itrvw.Base.{◌≡◌, refl, sym, ap, ◌∙◌, false, List, [], ◌∷◌}
use distr_sys_itrvw.Shared.Text.{Text, text_eq}
use distr_sys_itrvw.Shared.Time.{DateTime}
use distr_sys_itrvw.Shared.Contracts.{Platform, IsPlatform, EventPayload}
use distr_sys_itrvw.Shared.Database.{done, opened, Files, IsFiles, memory}
use distr_sys_itrvw.Shared.Database.Saved.{
  with_rows, IsSaved, init_repository-IsSaved, init_repository-again, execute-IsSaved,
}
use distr_sys_itrvw.Account.Deliveries.{AllCalls}
use distr_sys_itrvw.Gateway.Repository
use distr_sys_itrvw.Gateway.Repository.{Row, Table}
use distr_sys_itrvw.Gateway.Log.{Log, IsLog, encode_all, insert_event}
use distr_sys_itrvw.Gateway.Log.Refinement.{insert_event-IsLog, insert_applied_event-insert_event}
use distr_sys_itrvw.Gateway.Database.{
  GatewayRepository, init_repository, insert_applied_event, insert_all,
}

rows-injective : {t u : Table} → opened (with_rows t) ≡ opened (with_rows u) → t ≡ u
rows-injective e = cc

module _ (p : Platform) where
  open p use {Metadata}

  -- The log after a sequence of calls.
  unfoldable pub log_all : List (DateTime × EventPayload Metadata) → Log p → Log p
  log_all [] l = l
  log_all ((now, e) ∷ rest) l = log_all rest (insert_event p now e l).1

module _ {F : Type 0} (files : Files Row F) (laws : IsFiles files) (p : Platform)
    (platform : IsPlatform p) where
  open p use {Metadata}

  insert_all-IsSaved :
      (calls : List (DateTime × EventPayload Metadata)) (l : Log p) {r : GatewayRepository} {f : F}
      → AllCalls p calls
      → IsLog p l
      → IsSaved files r f (encode_all p l)
      → let (r', f') = insert_all files p calls r f in
        IsSaved files r' f' (encode_all p (log_all p calls l))
        × IsLog p (log_all p calls l)
        × (r'.db_path ≡ r.db_path)
  unfolding insert_all log_all insert_applied_event
  insert_all-IsSaved [] l hc hl h = (h, hl, refl)
  insert_all-IsSaved ((now, e) ∷ rest) l hc hl h =
      let (_, after, path) =
        execute-IsSaved files laws (λ t. Repository.insert_applied_event p now e t) h in
      let after' =
        subst (IsSaved files _ _)
          (ap (λ o. o.1) (insert_applied_event-insert_event p platform now e l hc.0 hl)) after in
      let (saved, well, path') =
        insert_all-IsSaved rest (insert_event p now e l).1 hc.1
          (insert_event-IsLog p now e l hc.0 hl) after' in
      (saved, well, path' ∙ path)

  -- On a platform that behaves as documented, if files keep what is written to them, and the
  -- repository at a path that is not ":memory:" was initialized with the rows of a well-formed log,
  -- then after any calls of `insert_applied_event` with validated payloads whose currency has three
  -- characters, at times in UTC, a repository at the same path initializes again, and its rows are
  -- those of the well-formed log that the calls of `insert_event` make of the first one.
  pub init_repository_logged :
      (path : Text) (f : F) (calls : List (DateTime × EventPayload Metadata)) (l : Log p)
      {r : GatewayRepository} {g : F}
      → AllCalls p calls
      → IsLog p l
      → text_eq path memory ≡ false
      → init_repository files path f ≡ done (r, g)
      → r.conn ≡ opened (with_rows (encode_all p l))
      → (s : GatewayRepository) × (k : F) × (init_repository files path
            (insert_all files p calls r g).1
          ≡ done (s, k))
        × (s.conn ≡ opened (with_rows (encode_all p (log_all p calls l))))
        × IsLog p (log_all p calls l)
  unfolding init_repository
  init_repository_logged path f calls l {r} {g} hc hl disk eq has =
      let (t, start, at) = init_repository-IsSaved files laws path f disk eq in
      let same : t ≡ encode_all p l = rows-injective (sym start.conn ∙ has) in
      let (saved, well, kept) =
        insert_all-IsSaved calls l hc hl (subst (IsSaved files r g) same start) in
      let (s, k, again, rows) = init_repository-again files laws path (kept ∙ at) saved in
      (s, k, again, rows, well)
