-- ===== src/Tests/Postgres.antt =====
-- Migrations of src/postgres/migrator.ts.
use bullmq.Shared.{
  ℕ, zero, suc, ◌+◌, Option, String, ◌≡◌, refl, List, [], ◌∷◌, ◌++◌, map, none, some, max, returns,
  throws, false,
}
use bullmq.Postgres.Migrator.{
  Migration, Row, Db, Statement, insert, Server, Failure, max_version, rows_of, row_of, filled,
  latest_schema_version, run_migrations,
}
use bullmq.Postgres.Migrator.Atomic.{pending, idle, durable, run_migrations_atomic}

-- `MIGRATIONS`.
abbrev migrations : List Migration
migrations =
    record { version = 1; name = "0001_schema"; min_client_version = 6; sql = "schema" }
    ∷ record { version = 2; name = "0002_functions"; min_client_version = 6; sql = "functions" }
    ∷ []

abbrev server : Server ℕ
server = record {
  version_num = some 160002;
  version = "16.2";
  failing = λ s. none;
  exec = λ s o. o + 1;
}

-- A database with the first of the two migrations.
abbrev database : Db ℕ
database = record {
  table = some (record { version = 1; name = "0001_schema"; min_client_version = none } ∷ []);
  objects = 0;
}

migrates :
    (run_migrations server 6 migrations "bullmq" false false (idle server 6 database)).0 ≡ returns 2
unfolding run_migrations bullmq.Postgres.Migrator.latest_schema_version
migrates = refl

abbrev failing_insert : Statement → Option String
failing_insert (insert (suc (suc zero))) = some "23505"
failing_insert s = none

-- The second migration fails after its script has run.
rolled_back :
    let s =
      (run_migrations
        (record server { failing = failing_insert })
        6
        migrations
        "bullmq"
        false
        false
        (idle server 6 database)).1 in
    (s.db ≡ database) × (s.saved ≡ none)
unfolding run_migrations bullmq.Postgres.Migrator.latest_schema_version
rolled_back = (refl, refl)

run_migrations_atomic_example :
    let (answer, s) =
      run_migrations server 6 migrations "bullmq" false false (idle server 6 database) in
    ((e : Failure) → answer ≡ throws e → durable server 6 s ≡ database)
    × ((v : ℕ)
        → answer ≡ returns v
        → (s.saved ≡ none)
          × (v ≡ max 1 (latest_schema_version migrations))
          × (rows_of (durable server 6 s).table
              ≡ map (filled 6) (rows_of database.table) ++ map row_of (pending 1 migrations)))
run_migrations_atomic_example =
    run_migrations_atomic server 6 migrations "bullmq" false false database
