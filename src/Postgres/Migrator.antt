-- ===== src/Postgres/Migrator.antt =====
-- `runMigrations` and `assertSchemaCompatibility` of src/postgres/migrator.ts. The database is the
-- ledger table `migration`, if there is one, and objects of a type `O`; what a script does to these
-- and which statements fail is the server's, a parameter. A session works on a database, and while
-- a transaction is open it keeps the database as it was at `BEGIN`.
pub mod Atomic
use bullmq.Shared.{
  ℕ, zero, suc, ◌+◌, ◌/◌, ◌==◌, ltb, leb, if◌then◌else◌, not, ◌&&◌, ◌||◌, Bool, true, false, List,
  [], ◌∷◌, ◌++◌, map, Option, none, some, String, ◌<>◌, codes, length, keep, max, Outcome, returns,
  throws, throw_if, ◌>>=◌, ◌>>◌, ◌===◌,
}

pub record Migration : Type 0 where
  pub version : ℕ
  pub name : String
  pub min_client_version : ℕ
  pub sql : String

-- A row of the ledger; an old one may have no `min_client_version`.
pub record Row : Type 0 where
  pub version : ℕ
  pub name : String
  pub min_client_version : Option ℕ

pub record Db (O : Type 0) : Type 0 where
  pub table : Option (List Row)
  pub objects : O

pub data Statement : Type 0 where
  server_version begin advisory_lock create_schema set_search_path create_ledger add_column :
      Statement
  fill_column require_column read_version read_minimum read_state commit rollback : Statement
  script : String → Statement
  insert : ℕ → Statement

pub data Failure : Type 0 where
  invalid_schema_name : String → Failure
  unsupported_postgres : String → Failure
  schema_version_mismatch : ℕ → Failure
  schema_migration_required : String → Failure
  query : String → Failure

-- The session of the client. Outside a transaction nothing is `saved`; inside one, others see what
-- is.
pub record Session (O : Type 0) : Type 0 where
  pub db : Db O
  pub saved : Option (Db O)

-- An error in a transaction, and the database that the statements before it have left.
pub record Broken (O : Type 0) : Type 0 where
  pub failure : Failure
  pub left : Db O

-- The server: its version as `parseInt` reads it, where `none` is `NaN`, and as text; the
-- statements that fail, with their error codes; what a script does.
pub record Server (O : Type 0) : Type 0 where
  pub version_num : Option ℕ
  pub version : String
  pub failing : Statement → Option String
  pub exec : String → O → O

abbrev is_letter : ℕ → Bool
is_letter c = (leb b'A' c && leb c b'Z') || (leb b'a' c && leb c b'z') || c == b'_'

abbrev is_rest : ℕ → Bool
is_rest c = is_letter c || (leb b'0' c && leb c b'9') || c == b'$'

abbrev all_rest : List ℕ → Bool
all_rest [] = true
all_rest (c ∷ cs) = is_rest c && all_rest cs

-- `/^[A-Za-z_][A-Za-z0-9_$]*$/`.
abbrev pub is_identifier : List ℕ → Bool
is_identifier [] = false
is_identifier (c ∷ cs) = is_letter c && all_rest cs

unfoldable pub quote_schema_name : String → Outcome Failure String
quote_schema_name schema =
    if not (is_identifier (codes schema)) || ltb 63 (length (codes schema))
    then throws (invalid_schema_name schema)
    else returns ("\"" <> schema <> "\"")

-- `Math.floor(num / 10000) < n`.
abbrev is_below : Option ℕ → ℕ → Bool
is_below none n = false
is_below (some num) n = ltb (num / 10000) n

-- Whether the warning has been given is kept.
unfoldable pub assert_postgres_version_values : Option ℕ → String → Bool → Outcome Failure Bool
assert_postgres_version_values num reported warned =
    if is_below num 13
    then throws (unsupported_postgres reported)
    else returns (if is_below num 14 then true else warned)

abbrev pub max_version : List Row → ℕ
max_version [] = 0
max_version (r ∷ rs) = max r.version (max_version rs)

abbrev max_some : Option ℕ → Option ℕ → Option ℕ
max_some none o = o
max_some (some n) none = some n
max_some (some n) (some m) = some (max n m)

abbrev max_minimum : List Row → Option ℕ
max_minimum [] = none
max_minimum (r ∷ rs) = max_some r.min_client_version (max_minimum rs)

abbrev or_else : Option ℕ → ℕ → ℕ
or_else none n = n
or_else (some m) n = m

abbrev pub rows_of : Option (List Row) → List Row
rows_of none = []
rows_of (some rs) = rs

abbrev pub filled : ℕ → Row → Row
filled major r = record r { min_client_version = some (or_else r.min_client_version major) }

abbrev pub row_of : Migration → Row
row_of m = record {
  version = m.version;
  name = m.name;
  min_client_version = some m.min_client_version;
}

-- `LATEST_SCHEMA_VERSION`: the version of the last entry.
unfoldable pub latest_schema_version : List Migration → ℕ
latest_schema_version [] = 0
latest_schema_version (m ∷ []) = m.version
latest_schema_version (m ∷ n ∷ ms) = latest_schema_version (n ∷ ms)

module _ {O : Type 0} (server : Server O) (major : ℕ) where
  -- A statement that only may fail.
  abbrev pub run : Statement → Outcome Failure (Unit {0})
  run s = elim (server.failing s) [ none ↦ returns tt | some code ↦ throws (query code) ]

  unfoldable pub assert_postgres_version : Bool → Bool → Outcome Failure Bool
  unfolding assert_postgres_version_values
  assert_postgres_version skip warned =
      if skip
      then returns warned
      else run server_version
        >> assert_postgres_version_values server.version_num server.version warned

  -- An error that comes while the database is `db`.
  abbrev pub on {ℓ} : {A : Type ℓ} → Db O → Outcome Failure A → Outcome (Broken O) A
  on db (returns a) = returns a
  on db (throws e) = throws (record { failure = e; left = db })

  unfoldable pub get_current_schema_version : Db O → Outcome (Broken O) ℕ
  get_current_schema_version db =
      on db (run read_version) >> returns (max_version (rows_of db.table))

  unfoldable pub get_minimum_client_version : Db O → Outcome (Broken O) ℕ
  get_minimum_client_version db =
      on db (run read_minimum) >> returns (or_else (max_minimum (rows_of db.table)) major)

  -- The table is there, and then each row has a minimum.
  abbrev pub with_table : Db O → Db O
  with_table db = record db { table = some (rows_of db.table) }

  abbrev pub with_minimums : Db O → Db O
  with_minimums db = record db { table = some (map (filled major) (rows_of db.table)) }

  unfoldable pub ensure_ledger_table : Db O → Outcome (Broken O) (Db O)
  ensure_ledger_table db =
      on db (run create_ledger)
      >> on (with_table db) (run add_column)
      >> on (with_table db) (run fill_column)
      >> on (with_minimums db) (run require_column)
      >> returns (with_minimums db)

  abbrev pub after_script : Migration → Db O → Db O
  after_script m db = record db { objects = server.exec m.sql db.objects }

  unfoldable pub apply_migration : Migration → Db O → Outcome (Broken O) (Db O)
  apply_migration m db =
      on db (run (script m.name))
      >> on (after_script m db) (run (insert m.version))
      >> returns (record (after_script m db) { table = some (rows_of db.table ++ row_of m ∷ []) })

  -- The `for` loop.
  unfoldable pub apply_pending : ℕ → List Migration → Db O → Outcome (Broken O) (Db O)
  unfolding apply_migration
  apply_pending current [] db = returns db
  apply_pending current (m ∷ ms) db =
      (if ltb current m.version then apply_migration m db else returns db) >>= λ db'.
      apply_pending current ms db'

  -- What follows the two versions that are read, up to `COMMIT`.
  unfoldable pub upgrade : List Migration → ℕ → ℕ → Db O → Outcome (Broken O) (ℕ × Db O)
  unfolding apply_pending
  upgrade migrations current minimum db =
      let latest = latest_schema_version migrations in
      on db (throw_if (ltb major minimum) (schema_version_mismatch minimum))
      >> ((if ltb current latest then apply_pending current migrations db else returns db)
          >>= λ db'. returns (max current latest, db'))

  -- The statements between `BEGIN` and `COMMIT`.
  unfoldable pub transaction : List Migration → Db O → Outcome (Broken O) (ℕ × Db O)
  unfolding ensure_ledger_table get_current_schema_version get_minimum_client_version upgrade
  transaction migrations db =
      on db (run advisory_lock)
      >> on db (run create_schema)
      >> on db (run set_search_path)
      >> ensure_ledger_table db
      >>= λ db'.
          (get_current_schema_version db' >>= λ current.
          (get_minimum_client_version db' >>= λ minimum. upgrade migrations current minimum db'))

  -- `BEGIN` inside a transaction changes nothing.
  abbrev pub open_transaction : Session O → Session O
  open_transaction s = elim s.saved [ none ↦ record s { saved = some s.db } | some d ↦ s ]

  abbrev pub close_transaction : Session O → Session O
  close_transaction s = record s { saved = none }

  -- `ROLLBACK` outside a transaction changes nothing.
  abbrev pub restored : Session O → Session O
  restored s = elim s.saved [ none ↦ s | some d ↦ record s { db = d; saved = none } ]

  -- The `catch` block. Where `ROLLBACK` fails, its error is thrown and the transaction stays open.
  unfoldable pub roll_back : Failure → Session O → Outcome Failure ℕ × Session O
  roll_back e s = elim (server.failing rollback) [
    | none ↦ (throws e, restored s)
    | some code ↦ (throws (query code), s)
  ]

  -- The end of the `try` block.
  unfoldable pub commit_with : ℕ → Session O → Outcome Failure ℕ × Session O
  unfolding roll_back
  commit_with v s = elim (server.failing commit) [
    | none ↦ (returns v, close_transaction s)
    | some code ↦ roll_back (query code) s
  ]

  -- The `try` statement, in a session in which `BEGIN` was sent.
  unfoldable pub migrate : List Migration → Session O → Outcome Failure ℕ × Session O
  unfolding transaction commit_with roll_back
  migrate migrations s = elim (transaction migrations s.db) [
    | returns done ↦ commit_with done.0 (record s { db = done.1 })
    | throws b ↦ roll_back b.failure (record s { db = b.left })
  ]

  -- Whether the warning has been given is the argument `warned`.
  unfoldable pub run_migrations :
      List Migration → String → Bool → Bool → Session O → Outcome Failure ℕ × Session O
  unfolding quote_schema_name assert_postgres_version migrate
  run_migrations migrations schema skip warned s =
      elim (quote_schema_name schema >>= λ quoted.
      (assert_postgres_version skip warned >>= λ warned'. run begin)) [
        | returns u ↦ migrate migrations (open_transaction s)
        | throws e ↦ (throws e, s)
      ]

  abbrev missing_table : String → String → Failure
  missing_table schema code =
      if code === "42P01" then schema_migration_required schema else query code

  -- The answer to the one query: the largest version and the largest minimum.
  abbrev read : String → Db O → Outcome Failure (ℕ × ℕ)
  read schema db = elim (server.failing read_state) [
    | some code ↦ throws (missing_table schema code)
    | none ↦ elim db.table [
      | none ↦ throws (schema_migration_required schema)
      | some rows ↦ returns (max_version rows, or_else (max_minimum rows) major)
    ]
  ]

  unfoldable pub assert_schema_compatibility : String → Bool → Bool → Db O → Outcome Failure ℕ
  unfolding quote_schema_name assert_postgres_version_values
  assert_schema_compatibility schema skip warned db = quote_schema_name schema >>= λ quoted.
      (read schema db >>= λ state.
      ((if skip
          then returns warned
          else assert_postgres_version_values server.version_num server.version warned)
        >>= λ warned'.
            (throw_if (ltb major state.1) (schema_version_mismatch state.1) >> returns state.0)))
