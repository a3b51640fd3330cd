-- ===== src/Postgres.antt =====
-- The PostgreSQL backend of src/postgres: its migrations.
pub mod Migrator
