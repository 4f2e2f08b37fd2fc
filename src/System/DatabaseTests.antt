-- ===== src/System/DatabaseTests.antt =====
-- The repositories on their files, at files that are a function from paths to databases.
use distr_sys_itrvw.Base.{◌≡◌, refl, true, none, some, [], ◌∷◌, if◌then◌else◌}
use distr_sys_itrvw.Shared.Text.{Text, codes, text_eq, text_eq_refl}
use distr_sys_itrvw.Shared.Contracts.Samples.{sample_platform, sample_laws}
use distr_sys_itrvw.Shared.Contracts.Payloads.{
  noon, noon-IsUtc, salary, rent, salary-IsPayload, rent-IsPayload,
}
use distr_sys_itrvw.Shared.Database.{
  Database, blank_database, Files, IsFiles, Sql, done, raised, opened, programming_error,
  database_error, create_table, create_index, health_check, close,
}
use distr_sys_itrvw.Shared.Database
use distr_sys_itrvw.Shared.Database.Saved.{with_rows}
use distr_sys_itrvw.Account
use distr_sys_itrvw.Account.Tests.{engine}
use distr_sys_itrvw.Account.Deliveries.{deliver_all}
use distr_sys_itrvw.Account.Database.{AccountRepository}
use distr_sys_itrvw.Account.Database.Reopened.{init_repository_reopened}
use distr_sys_itrvw.Gateway
use distr_sys_itrvw.Gateway.Log.{IsLog, encode_all}
use distr_sys_itrvw.Gateway.Database.{GatewayRepository}
use distr_sys_itrvw.Gateway.Database.Reopened.{init_repository_logged, log_all}

-- A file that was never written is a blank database.
abbrev Disk : Type 0 → Type 0
Disk R = Text → Database R

abbrev disk_files : {R : Type 0} → Files R (Disk R)
disk_files = record {
  make_parent = λ path f. some f;
  open_file = λ path f. some (f path);
  commit = λ path d f path'. if text_eq path path' then d else f path';
}

disk_files-IsFiles : {R : Type 0} → IsFiles (disk_files {R = R})
disk_files-IsFiles = record {
  open_file-commit = λ path d f. rw (text_eq_refl path) refl;
  make_parent-commit = λ path d f. refl;
}

abbrev path : Text
path = codes "/tmp/a.sqlite"

abbrev accounts : AccountRepository
accounts = record { db_path = path; conn = opened (with_rows []) }

abbrev events : GatewayRepository
events = record { db_path = path; conn = opened (with_rows []) }

abbrev account_disk : Disk Account.Repository.Row
account_disk = disk_files.commit path (with_rows []) (λ p. blank_database)

abbrev gateway_disk : Disk Gateway.Repository.Row
gateway_disk = disk_files.commit path (with_rows []) (λ p. blank_database)

accounts_started :
    Account.Database.init_repository disk_files path (λ p. blank_database)
    ≡ done (accounts, account_disk)
unfolding Account.Database.init_repository Database.init_repository Database.initialize create_table
    create_index text_eq
accounts_started = refl

events_started :
    Gateway.Database.init_repository disk_files path (λ p. blank_database)
    ≡ done (events, gateway_disk)
unfolding Gateway.Database.init_repository Database.init_repository Database.initialize create_table
    create_index text_eq
events_started = refl

init_repository_reopened_example :
    (s : AccountRepository) × (k : Disk Account.Repository.Row) × (Account.Database.init_repository
        disk_files path
        (Account.Database.apply_all disk_files sample_platform engine
          ((noon, salary) ∷ (noon, rent) ∷ [])
          accounts
          account_disk).1
      ≡ done (s, k))
    × (s.conn
        ≡ opened (
            with_rows (deliver_all sample_platform engine ((noon, salary) ∷ (noon, rent) ∷ []) [])))
unfolding text_eq
init_repository_reopened_example =
    init_repository_reopened disk_files disk_files-IsFiles sample_platform engine path
      (λ p. blank_database) ((noon, salary) ∷ (noon, rent) ∷ []) refl accounts_started refl

init_repository_logged_example :
    (s : GatewayRepository) × (k : Disk Gateway.Repository.Row) × (Gateway.Database.init_repository
        disk_files path
        (Gateway.Database.insert_all disk_files sample_platform
          ((noon, salary) ∷ (noon, rent) ∷ [])
          events
          gateway_disk).1
      ≡ done (s, k))
    × (s.conn
        ≡ opened (
            with_rows (
              encode_all sample_platform
                (log_all sample_platform ((noon, salary) ∷ (noon, rent) ∷ []) []))))
    × IsLog sample_platform (log_all sample_platform ((noon, salary) ∷ (noon, rent) ∷ []) [])
unfolding text_eq
init_repository_logged_example =
    init_repository_logged disk_files disk_files-IsFiles sample_platform sample_laws path
      (λ p. blank_database) ((noon, salary) ∷ (noon, rent) ∷ []) []
      ((noon-IsUtc, salary-IsPayload, refl), ((noon-IsUtc, rent-IsPayload, refl), tt)) tt refl
      events_started refl

accounts_up : Account.Database.health noon none accounts ≡ done (Account.Main.App.health true noon)
unfolding Account.Database.health health_check
accounts_up = refl

accounts_malformed :
    Account.Database.health noon (some database_error) accounts ≡ raised database_error
unfolding Account.Database.health health_check
accounts_malformed = refl

events_up : Gateway.Database.health noon none events ≡ done (Gateway.Main.App.health true noon)
unfolding Gateway.Database.health health_check
events_up = refl

events_closed :
    Gateway.Database.health noon none (Gateway.Database.close events) ≡ raised programming_error
unfolding Gateway.Database.health Gateway.Database.close health_check close
events_closed = refl
