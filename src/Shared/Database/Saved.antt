-- ===== src/Shared/Database/Saved.antt =====
-- What a repository has written to its file is there when the file is opened again.
use mathlib.Core.Path.{subst}
use distr_sys_itrvw.Base.{◌≡◌, refl, sym, ap, ◌∙◌, true, false, Option, none, some, List}
use distr_sys_itrvw.Shared.Text.{Text, text_eq}
use distr_sys_itrvw.Shared.Database.{
  Database, opened, done, Files, IsFiles, Repository, memory, created, initialize, init_repository,
  execute, required, ◌>>=◌, operational_error, os_error, create_table, create_index,
}

done-injective : {A : Type 0} {a b : A} → done a ≡ done b → a ≡ b
done-injective e = cc

module _ {R : Type 0} where
  -- The database with its schema, and these rows.
  abbrev pub with_rows : List R → Database R
  with_rows t = record { table = some t; index = true }

  module _ {F : Type 0} (files : Files R F) where
    -- The file has what the connection shows.
    pub record IsSaved (r : Repository R) (f : F) (t : List R) : Type 0 where
      pub on_file : text_eq r.db_path memory ≡ false
      pub conn : r.conn ≡ opened (with_rows t)
      pub file : files.open_file r.db_path f ≡ some (with_rows t)
      pub parent : files.make_parent r.db_path f ≡ some f

    initialize_lem :
        (path : Text) (d : Database R) (f : F)
        → text_eq path memory ≡ false
        → initialize files path d f ≡ (
            done (
              record { db_path = path; conn = opened (with_rows (created d.table)) },
              files.commit path (with_rows (created d.table)) f,
            ))
    initialize_lem path d f disk = unfold initialize create_table create_index in rw disk refl

    module _ (laws : IsFiles files) where
      -- What was just written.
      written :
          (path : Text) (t : List R) (f : F)
          → text_eq path memory ≡ false
          → IsSaved
              (record { db_path = path; conn = opened (with_rows t) })
              (files.commit path (with_rows t) f)
              t
      written path t f disk = record {
        on_file = disk;
        conn = refl;
        file = laws.open_file-commit path (with_rows t) f;
        parent = laws.make_parent-commit path (with_rows t) f;
      }

      opened_file :
          (path : Text) (f : F) (q : Option (Database R)) {r : Repository R} {g : F}
          → text_eq path memory ≡ false
          → (do d ← required operational_error q; initialize files path d f) ≡ done (r, g)
          → (t : List R) × IsSaved r g t × (r.db_path ≡ path)
      opened_file path f none disk eq = absurd cc
      opened_file path f (some d) disk eq =
          let t = created d.table in
          let same = done-injective (sym (initialize_lem path d f disk) ∙ eq) in
          (
            t,
            subst (λ o. IsSaved o.0 o.1 t) same (written path t f disk),
            ap (λ o. o.0.db_path) (sym same),
          )

      made_parent :
          (path : Text) (q : Option F) {r : Repository R} {g : F}
          → text_eq path memory ≡ false
          → (do
            f ← required os_error q
            d ← required operational_error (files.open_file path f)
            initialize files path d f)
            ≡ done (r, g)
          → (t : List R) × IsSaved r g t × (r.db_path ≡ path)
      made_parent path none disk eq = absurd cc
      made_parent path (some f) disk eq = opened_file path f (files.open_file path f) disk eq

      -- A repository on a file starts saved.
      pub init_repository-IsSaved :
          (path : Text) (f : F) {r : Repository R} {g : F}
          → text_eq path memory ≡ false
          → init_repository files path f ≡ done (r, g)
          → (t : List R) × IsSaved r g t × (r.db_path ≡ path)
      unfolding init_repository
      init_repository-IsSaved path f disk eq =
          made_parent path (files.make_parent path f) disk (rw disk at eq)

      -- A repository on the file of a saved one starts with its rows.
      pub init_repository-saved :
          {r : Repository R} {f : F} {t : List R}
          → IsSaved r f t
          → init_repository files r.db_path f
            ≡ done (
              record { db_path = r.db_path; conn = opened (with_rows t) },
              files.commit r.db_path (with_rows t) f,
            )
      init_repository-saved {r} {f} {t} h =
          unfold init_repository in
          rw h.on_file
            (rw h.parent (rw h.file (initialize_lem r.db_path (with_rows t) f h.on_file)))

      -- A method returns what it returns on the rows, and leaves the rows that it leaves, saved.
      pub execute-IsSaved :
          {A : Type 0} (method : List R → A × List R) {r : Repository R} {f : F} {t : List R}
          → IsSaved r f t
          → let (answer, r', f') = execute files method r f in
            (answer ≡ done (method t).0) × IsSaved r' f' (method t).1 × (r'.db_path ≡ r.db_path)
      execute-IsSaved method {r} {f} {t} h =
          unfold execute in
          rw h.conn (rw h.on_file (refl, written r.db_path (method t).1 f h.on_file, refl))

      -- The same, at the path that the saved one has.
      pub init_repository-again :
          (path : Text) {r : Repository R} {f : F} {t : List R}
          → r.db_path ≡ path
          → IsSaved r f t
          → (s : Repository R) × (g : F) × (init_repository files path f ≡ done (s, g))
            × (s.conn ≡ opened (with_rows t))
      init_repository-again path {r} {f} {t} at h =
          subst
            (λ x.
              (s : Repository R) × (g : F) × (init_repository files x f ≡ done (s, g))
              × (s.conn ≡ opened (with_rows t)))
            at
            (
              record { db_path = r.db_path; conn = opened (with_rows t) },
              files.commit r.db_path (with_rows t) f,
              init_repository-saved h,
              refl,
            )
