-- ===== src/Shared/Database.antt =====
-- What src/account_service/db.py and src/gateway_service/db.py have in common around their methods: the
-- connection to a SQLite database, its schema, `close` and `health_check`. Files are a parameter.
pub mod Saved
use distr_sys_itrvw.Base.{ℕ, ◌≡◌, Bool, true, false, Option, none, some, List, [], if◌then◌else◌}
use distr_sys_itrvw.Shared.Text.{Text, codes, text_eq}

-- A database, for one kind of rows: the service's table, if it was created, and whether it has the index.
pub record Database (R : Type 0) : Type 0 where
  pub table : Option (List R)
  pub index : Bool

abbrev pub blank_database : {R : Type 0} → Database R
blank_database = record { table = none; index = false }

-- A connection shows its database until it is closed.
pub data Connection (R : Type 0) : Type 0 where
  opened : Database R → Connection R
  closed : Connection R

-- What the calls of `Path` and `sqlite3` raise: no directory; no database at the path, no table or
-- a failure of the file; a closed connection; and SQLite's other errors.
pub data SqlFailure : Type 0 where
  os_error operational_error programming_error database_error : SqlFailure

pub data Sql (A : Type 0) : Type 0 where
  done : A → Sql A
  raised : SqlFailure → Sql A

abbrev pub required : {A : Type 0} → SqlFailure → Option A → Sql A
required x none = raised x
required x (some a) = done a

infixl 10 ◌>>=◌
abbrev pub ◌>>=◌ : {A B : Type 0} → Sql A → (A → Sql B) → Sql B
done a >>= k = k a
raised x >>= k = raised x

-- The files of the machine: making a path's directory with its parents, the database in a file, which
-- is a blank one where there is no file, and writing a database to its file.
pub record Files (R F : Type 0) : Type 0 where
  pub make_parent : Text → F → Option F
  pub open_file : Text → F → Option (Database R)
  pub commit : Text → Database R → F → F

-- The documented behaviour: a database that was written is read back, and its directory is there, so
-- that making it changes nothing.
pub record IsFiles {R F : Type 0} (files : Files R F) : Type 0 where
  pub open_file-commit :
      (path : Text) (d : Database R) (f : F) → files.open_file path (files.commit path d f) ≡ some d
  pub make_parent-commit :
      (path : Text) (d : Database R) (f : F)
      → files.make_parent path (files.commit path d f) ≡ some (files.commit path d f)

-- The attributes of a repository; the lock makes each method one step.
pub record Repository (R : Type 0) : Type 0 where
  pub db_path : Text
  pub conn : Connection R

abbrev pub memory : Text
memory = codes ":memory:"

module _ {R : Type 0} where
  -- `CREATE TABLE IF NOT EXISTS`
  abbrev pub created : Option (List R) → List R
  created none = []
  created (some t) = t

  unfoldable pub create_table : Database R → Database R
  create_table d = record d { table = some (created d.table) }

  -- `CREATE INDEX IF NOT EXISTS`, which asks for the table.
  abbrev pub indexed : Option (List R) → Database R → Sql (Database R)
  indexed none d = raised operational_error
  indexed (some t) d = done (record d { index = true })

  unfoldable pub create_index : Database R → Sql (Database R)
  create_index d = indexed d.table d

  -- What `SELECT 1` comes to on a connection, where SQLite answers it or raises the error `failure`.
  abbrev pub select_one : Option SqlFailure → Connection R → Sql ℕ
  select_one none (opened d) = done 1
  select_one (some failure) (opened d) = raised failure
  select_one failure closed = raised programming_error

  -- `health_check`: the row that is fetched is not looked at.
  unfoldable pub health_check : Option SqlFailure → Repository R → Sql Bool
  health_check failure r = do row ← select_one failure r.conn; done true

  unfoldable pub close : Repository R → Repository R
  close r = record r { conn = closed }

  module _ {F : Type 0} (files : Files R F) where
    -- The end of `with self._conn`. A database in memory has no file.
    abbrev pub committed : Text → Database R → F → F
    committed path d f = if text_eq path memory then f else files.commit path d f

    -- `_initialize`
    unfoldable pub initialize : Text → Database R → F → Sql (Repository R × F)
    unfolding create_table create_index
    initialize path d f = do
      e ← create_index (create_table d)
      done (record { db_path = path; conn = opened e }, committed path e f)

    -- `__init__`
    unfoldable pub init_repository : Text → F → Sql (Repository R × F)
    init_repository path f = if text_eq path memory then initialize path blank_database f else (do
      g ← required os_error (files.make_parent path f)
      d ← required operational_error (files.open_file path g)
      initialize path d g)

    -- A method that reads and writes the table, and commits.
    abbrev pub on_table :
        {A : Type 0}
        → (List R → A × List R)
        → Repository R
        → Database R
        → Option (List R)
        → F
        → Sql A × Repository R × F
    on_table method r d none f = (raised operational_error, r, f)
    on_table method r d (some t) f =
        let e : Database R = record d { table = some (method t).1 } in
        (done (method t).0, record r { conn = opened e }, committed r.db_path e f)

    unfoldable pub execute :
        {A : Type 0} → (List R → A × List R) → Repository R → F → Sql A × Repository R × F
    execute method r f = elim r.conn [
      | opened d ↦ on_table method r d d.table f
      | closed ↦ (raised programming_error, r, f)
    ]
