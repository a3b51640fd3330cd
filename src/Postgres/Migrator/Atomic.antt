-- ===== src/Postgres/Migrator/Atomic.antt =====
-- What `runMigrations` of src/postgres/migrator.ts leaves behind.
use bullmq.Shared.{
  ℕ, ◌≤◌, ltb, if◌then◌else◌, Bool, true, false, List, [], ◌∷◌, ◌++◌, append-nil, append_assoc, map,
  none, some, Option, String, keep, max, Outcome, Outcome-cases, returns, throws, throw_if, ◌>>=◌,
  ◌>>◌, >>-returns, >>=-returns, ◌≡◌, refl, sym, ap, ◌∙◌, inl, inr, arith,
}
use bullmq.Postgres.Migrator.{
  Migration, Row, Db, Session, Broken, Server, Failure, on, with_table, with_minimums, after_script,
  query, rollback, restored, close_transaction, roll_back, commit_with, migrate, script, insert,
  begin, quote_schema_name, assert_postgres_version, commit, advisory_lock, create_schema,
  set_search_path, create_ledger, add_column, fill_column, require_column, read_version,
  max_version, rows_of, run, row_of, filled, ensure_ledger_table, get_current_schema_version,
  get_minimum_client_version, apply_migration, apply_pending, latest_schema_version, upgrade,
  transaction, run_migrations, schema_version_mismatch,
}

-- The migrations that are still to be applied.
abbrev pub pending : ℕ → List Migration → List Migration
pending current migrations =
    if ltb current (latest_schema_version migrations)
    then keep (λ m. ltb current m.version) migrations
    else []

guard_lem :
    {O A : Type 0} (server : Server O) (major : ℕ) (d : Db O) (b : Bool) (e : Failure)
    (k : Outcome (Broken O) A) (a : A)
    → (on server major d (throw_if b e) >> k) ≡ returns a
    → (b ≡ false) × (k ≡ returns a)
guard_lem server major d true e k a h = absurd cc
guard_lem server major d false e k a h = (refl, h)

le_lem : (major minimum : ℕ) → ltb major minimum ≡ false → minimum ≤ major
le_lem major minimum h = ground arith

module _ {O : Type 0} (server : Server O) (major : ℕ) where
  max_version-filled : (rows : List Row) → max_version (map (filled major) rows) ≡ max_version rows
  max_version-filled [] = refl
  max_version-filled (r ∷ rows) = ap (max r.version) (max_version-filled rows)

  -- The ledger of the database that was returned.
  abbrev rows_after : Outcome (Broken O) (Db O) → List Row
  rows_after (returns db) = rows_of db.table
  rows_after (throws e) = []

  apply_migration-rows :
      (m : Migration) (db db' : Db O)
      → apply_migration server major m db ≡ returns db'
      → rows_of db'.table ≡ rows_of db.table ++ row_of m ∷ []
  unfolding apply_migration
  apply_migration-rows m db db' h = sym (
      ap rows_after (
        >>-returns
          (on server major db (run server major (script m.name))
            >> on server major (after_script server major m db)
                (run server major (insert m.version)))
          _ db' h))

  -- One round of the loop.
  round_rows :
      (b : Bool) (m : Migration) (ms : List Migration) (db mid : Db O)
      → (if b then apply_migration server major m db else returns db) ≡ returns mid
      → rows_of mid.table ++ map row_of ms
        ≡ rows_of db.table ++ map row_of (if b then m ∷ ms else ms)
  round_rows true m ms db mid h =
      ap (λ rs. rs ++ map row_of ms) (apply_migration-rows m db mid h)
      ∙ append_assoc (rows_of db.table) (row_of m ∷ []) (map row_of ms)
  round_rows false m ms db mid h = ap (λ d. rows_after d ++ map row_of ms) (sym h)

  apply_pending-rows :
      (current : ℕ) (ms : List Migration) (db db' : Db O)
      → apply_pending server major current ms db ≡ returns db'
      → rows_of db'.table ≡ rows_of db.table ++ map row_of (keep (λ m. ltb current m.version) ms)
  unfolding apply_pending
  apply_pending-rows current [] db db' h =
      ap rows_after (sym h) ∙ sym (append-nil (rows_of db.table))
  apply_pending-rows current (m ∷ ms) db db' h =
      let (mid, e, rest) =
        >>=-returns
          (if ltb current m.version then apply_migration server major m db else returns db) _ db'
          h in
      apply_pending-rows current ms mid db' rest
      ∙ round_rows (ltb current m.version) m (keep (λ n. ltb current n.version) ms) db mid e

  loop_rows :
      (b : Bool) (current : ℕ) (ms : List Migration) (db mid : Db O)
      → (if b then apply_pending server major current ms db else returns db) ≡ returns mid
      → rows_of mid.table
        ≡ rows_of db.table ++ map row_of (if b then keep (λ m. ltb current m.version) ms else [])
  loop_rows true current ms db mid h = apply_pending-rows current ms db mid h
  loop_rows false current ms db mid h = ap rows_after (sym h) ∙ sym (append-nil (rows_of db.table))

  -- The two parts of what a transaction returns.
  abbrev version_of : Outcome (Broken O) (ℕ × Db O) → ℕ
  version_of (returns (v, db)) = v
  version_of (throws e) = 0

  abbrev ledger_of : Outcome (Broken O) (ℕ × Db O) → List Row
  ledger_of (returns (v, db)) = rows_of db.table
  ledger_of (throws e) = []

  upgrade_lem :
      (migrations : List Migration) (current minimum v : ℕ) (db db' : Db O)
      → upgrade server major migrations current minimum db ≡ returns (v, db')
      → (minimum ≤ major)
        × (v ≡ max current (latest_schema_version migrations))
        × (rows_of db'.table ≡ rows_of db.table ++ map row_of (pending current migrations))
  unfolding upgrade
  upgrade_lem migrations current minimum v db db' h =
      let (compatible, k) =
        guard_lem server major db (ltb major minimum) (schema_version_mismatch minimum) _ _ h in
      let (mid, e, rest) =
        >>=-returns
          (if ltb current (latest_schema_version migrations)
            then apply_pending server major current migrations db
            else returns db)
          (λ d. returns (max current (latest_schema_version migrations), d)) (v, db') k in
      (
        le_lem major minimum compatible,
        sym (ap version_of rest),
        sym (ap ledger_of rest)
            ∙ loop_rows (ltb current (latest_schema_version migrations)) current migrations db mid
                e,
      )

  abbrev db_or : Db O → Outcome (Broken O) (Db O) → Db O
  db_or d (returns db) = db
  db_or d (throws e) = d

  abbrev number_of : {E : Type 0} → Outcome E ℕ → ℕ
  number_of (returns n) = n
  number_of (throws e) = 0

  ensure-rows :
      (before : Outcome (Broken O) (Unit {0})) (db db' : Db O)
      → (before >> ensure_ledger_table server major db) ≡ returns db'
      → db' ≡ with_minimums server major db
  unfolding ensure_ledger_table
  ensure-rows before db db' h =
      let ledger =
        on server major db (run server major create_ledger)
        >> on server major (with_table server major db) (run server major add_column)
        >> on server major (with_table server major db) (run server major fill_column)
        >> on server major (with_minimums server major db) (run server major require_column) in
      sym (
        ap (db_or db) (
          >>-returns ledger (returns (with_minimums server major db)) db'
            (>>-returns before (ensure_ledger_table server major db) db' h)))

  abbrev after_current : List Migration → Db O → ℕ → Outcome (Broken O) (ℕ × Db O)
  after_current migrations d current =
      get_minimum_client_version server major d >>= λ n. upgrade server major migrations current n d

  abbrev after_ledger : List Migration → Db O → Outcome (Broken O) (ℕ × Db O)
  after_ledger migrations d =
      get_current_schema_version server major d >>= after_current migrations d

  transaction_lem :
      (migrations : List Migration) (v : ℕ) (db db' : Db O)
      → transaction server major migrations db ≡ returns (v, db')
      → (v ≡ max (max_version (rows_of db.table)) (latest_schema_version migrations))
        × (rows_of db'.table
            ≡ map (filled major) (rows_of db.table)
              ++ map row_of (pending (max_version (rows_of db.table)) migrations))
  unfolding transaction get_current_schema_version get_minimum_client_version
  transaction_lem migrations v db db' h =
      let before =
        on server major db (run server major advisory_lock)
        >> on server major db (run server major create_schema)
        >> on server major db (run server major set_search_path) in
      let (d, e, rest) =
        >>=-returns (before >> ensure_ledger_table server major db) (after_ledger migrations)
          (v, db') h in
      let (current, e', rest') =
        >>=-returns (get_current_schema_version server major d) (after_current migrations d)
          (v, db') rest in
      let (minimum, e'', rest'') =
        >>=-returns (get_minimum_client_version server major d)
          (λ n. upgrade server major migrations current n d) (v, db') rest' in
      let same = ensure-rows before db d e in
      let read : max_version (rows_of d.table) ≡ current = ap number_of (
        >>-returns (on server major d (run server major read_version))
          (returns (max_version (rows_of d.table))) current e') in
      let now : current ≡ max_version (rows_of db.table) =
        sym read
        ∙ ap (λ (x : Db O). max_version (rows_of x.table)) same
        ∙ max_version-filled (rows_of db.table) in
      let u = upgrade_lem migrations current minimum v d db' rest'' in
      (
        u.1 ∙ ap (λ n. max n (latest_schema_version migrations)) now,
        u.2
            ∙ ap (λ (x : Db O). rows_of x.table ++ map row_of (pending current migrations)) same
            ∙ ap (λ n. map (filled major) (rows_of db.table) ++ map row_of (pending n migrations))
                now,
      )

  -- What others see: the database as it was while a transaction is open.
  abbrev pub durable : Session O → Db O
  durable s = elim s.saved [ none ↦ s.db | some d ↦ d ]

  -- Outside a transaction.
  abbrev pub idle : Db O → Session O
  idle db = record { db = db; saved = none }

  -- The same, for an answer and the session after it.
  abbrev IsAtomic : List Migration → Db O → Outcome Failure ℕ × Session O → Type 0
  IsAtomic migrations db r =
      ((e : Failure) → r.0 ≡ throws e → durable r.1 ≡ db)
      × ((v : ℕ)
          → r.0 ≡ returns v
          → (r.1.saved ≡ none)
            × (v ≡ max (max_version (rows_of db.table)) (latest_schema_version migrations))
            × (rows_of (durable r.1).table
                ≡ map (filled major) (rows_of db.table)
                  ++ map row_of (pending (max_version (rows_of db.table)) migrations)))

  roll_back-IsAtomic :
      (migrations : List Migration) (e : Failure) (db left : Db O)
      → IsAtomic migrations db (roll_back server major e (record { db = left; saved = some db }))
  unfolding roll_back
  roll_back-IsAtomic migrations e db left = go (server.failing rollback)
    where
      go :
          (o : Option String)
          → IsAtomic migrations db (elim o [
            | none ↦ (throws e, restored server major (record { db = left; saved = some db }))
            | some code ↦ (throws (query code), record { db = left; saved = some db })
          ])
      go none = (λ x same. refl, λ v no_return. absurd cc)
      go (some code) = (λ x same. refl, λ v no_return. absurd cc)

  commit-IsAtomic :
      (migrations : List Migration) (v : ℕ) (db db' : Db O)
      → (v ≡ max (max_version (rows_of db.table)) (latest_schema_version migrations))
        × (rows_of db'.table
            ≡ map (filled major) (rows_of db.table)
              ++ map row_of (pending (max_version (rows_of db.table)) migrations))
      → IsAtomic migrations db (commit_with server major v (record { db = db'; saved = some db }))
  unfolding commit_with
  commit-IsAtomic migrations v db db' h = go (server.failing commit)
    where
      s : Session O
      s = record { db = db'; saved = some db }

      go :
          (o : Option String)
          → IsAtomic migrations db (elim o [
            | none ↦ (returns v, close_transaction server major s)
            | some code ↦ roll_back server major (query code) s
          ])
      go none = (λ e no_throw. absurd cc, λ u e. (refl, ap number_of (sym e) ∙ h.0, h.1))
      go (some code) = roll_back-IsAtomic migrations (query code) db db'

  migrate-IsAtomic :
      (migrations : List Migration) (db : Db O)
      → IsAtomic migrations db
          (migrate server major migrations (record { db = db; saved = some db }))
  unfolding migrate commit_with
  migrate-IsAtomic migrations db = elim (Outcome-cases (transaction server major migrations db)) [
    | inl ((v, db'), e) ↦
        rw (e, migrate)
          (commit-IsAtomic migrations v db db' (transaction_lem migrations v db db' e))
    | inr (b, e) ↦ rw (e, migrate) (roll_back-IsAtomic migrations b.failure db b.left)
  ]

  -- `runMigrations` in a session outside a transaction is atomic, and complete where it succeeds.
  -- If it throws, the database that others see is as it was, also if `COMMIT` or `ROLLBACK` fails.
  -- If it returns `v`, then no transaction is open, `v` is the larger of the version that the
  -- ledger had and the latest of the migrations, and the ledger that others see has the rows it
  -- had, with the client's major version where one had no minimum, followed by one row for each
  -- migration above the version it had, in their order, unless that version was not below the
  -- latest one.
  pub run_migrations_atomic :
      (migrations : List Migration) (schema : String) (skip warned : Bool) (db : Db O)
      → let (answer, s) = run_migrations server major migrations schema skip warned (idle db) in
        let current = max_version (rows_of db.table) in
        ((e : Failure) → answer ≡ throws e → durable s ≡ db)
        × ((v : ℕ)
            → answer ≡ returns v
            → (s.saved ≡ none)
              × (v ≡ max current (latest_schema_version migrations))
              × (rows_of (durable s).table
                  ≡ map (filled major) (rows_of db.table)
                    ++ map row_of (pending current migrations)))
  unfolding run_migrations
  run_migrations_atomic migrations schema skip warned db =
      elim (Outcome-cases (
        quote_schema_name schema >>= λ quoted.
        (assert_postgres_version server major skip warned >>= λ warned'. run server major begin))) [
          | inl (u, e) ↦ rw (e, run_migrations) (migrate-IsAtomic migrations db)
          | inr (x, e) ↦ rw (e, run_migrations) (λ y same. refl, λ v no_return. absurd cc)
        ]
