-- ===== src/Migrations.antt =====
-- alembic/env.py: what do_run_migrations does before Alembic runs, and around it; and the upgrade of
-- alembic/versions. Alembic's run_migrations is a parameter. The catalog has what these statements
-- read and change. A statement raises only when PostgreSQL refuses it; the engine and its disposal,
-- and the offline mode, which prints the statements, are left out.
pub mod Prepared
pub mod Settled
use stock_tracker_data_colle.Base.{
  String, Bool, true, false, not, ◌&&◌, Option, none, some, is_some, List, [], ◌∷◌, map, ◌==◌,
  if◌then◌else◌, contains,
}
use stock_tracker_data_colle.Errors.{Exn, foreign_error}
use stock_tracker_data_colle.Exec.{ok, raised, Outcome, Exec, pure, raise, modify, ◌>>◌}

pub record Catalog : Type 0 where
  pub collector_schema : Bool
  -- the names of the tables and the indexes, with their schema
  pub relations : List String
  -- the rows of collector.alembic_version and of public.alembic_version, none without the table
  pub collector_versions : List String
  pub public_versions : List String

abbrev pub control_plane_revision : String
control_plane_revision = "202608300001"

abbrev pub control_plane_tables : List String
control_plane_tables =
    "collector.pipeline_runs" ∷ "collector.pipeline_steps" ∷ "collector.watermarks"
    ∷ "collector.raw_objects" ∷ []

-- SELECT to_regclass(name)
unfoldable pub to_regclass : String → Catalog → Option String
to_regclass name c = if contains name c.relations then some name else none

unfoldable pub all_exist : List String → Catalog → Bool
unfolding to_regclass
all_exist [] c = true
all_exist (table_name ∷ names) c = is_some (to_regclass table_name c) && all_exist names c

-- CREATE SCHEMA IF NOT EXISTS collector
unfoldable pub create_schema : Exec Catalog (Unit {0})
create_schema = modify λ c. record c { collector_schema = true }

-- CREATE TABLE and CREATE INDEX, of a name in the schema
unfoldable pub create_relation : String → Exec Catalog (Unit {0})
create_relation name c =
    if c.collector_schema && not (contains name c.relations)
    then (ok tt, record c { relations = name ∷ c.relations })
    else (raised (foreign_error "asyncpg.PostgresError"), c)

-- the upgrade of the revision. The index of a constraint is created after its table: uq_pipeline_step
-- has the name that the migration gives; the others have names that PostgreSQL chooses among those that
-- are free, and are left out, as the sequences are.
unfoldable pub upgrade : Exec Catalog (Unit {0})
unfolding create_schema create_relation
upgrade = do
  create_schema
  create_relation "collector.pipeline_runs"
  create_relation "collector.ix_pipeline_runs_pipeline_started"
  create_relation "collector.ix_pipeline_runs_status_heartbeat"
  create_relation "collector.pipeline_steps"
  create_relation "collector.uq_pipeline_step"
  create_relation "collector.watermarks"
  create_relation "collector.raw_objects"
  create_relation "collector.ix_raw_objects_run_operation"
  pure tt

-- The row of the old version table goes, if it is the revision.
unfoldable pub discard_public : Exec Catalog (Unit {0})
unfolding to_regclass
discard_public c =
    if not (is_some (to_regclass "public.alembic_version" c))
    then (ok tt, c)
    else (elim c.public_versions [
      | [] ↦ (ok tt, c)
      | public_revision ∷ rest ↦
          if public_revision == control_plane_revision
          then (ok tt, record c { public_versions = [] })
          else (ok tt, c)
    ])

-- CREATE TABLE collector.alembic_version with the index of its constraint, and the INSERT of the revision
unfoldable pub stamp : Exec Catalog (Unit {0})
unfolding create_relation
stamp = do
  create_relation "collector.alembic_version"
  create_relation "collector.alembic_version_pkc"
  modify λ c. record c { collector_versions = control_plane_revision ∷ [] }

unfoldable pub prepare_version_table : Exec Catalog (Unit {0})
unfolding create_schema to_regclass all_exist stamp discard_public
prepare_version_table = do
  create_schema
  λ c.
      let collector_version_table = to_regclass "collector.alembic_version" c in
      let control_plane_exists = all_exist control_plane_tables c in
      if not (is_some collector_version_table) && control_plane_exists
      then (stamp >> discard_public) c
      else (ok tt, c)

-- `run_migrations` is Alembic's function, which is given the upgrade.
module _ (run_migrations : Exec Catalog (Unit {0}) → Exec Catalog (Unit {0})) where
  unfoldable pub do_run_migrations : Exec Catalog (Unit {0})
  unfolding prepare_version_table upgrade
  do_run_migrations = prepare_version_table >> run_migrations upgrade

  -- `async with engine.begin()`: an exception rolls the transaction back.
  unfoldable pub committed : Catalog → Outcome (Unit {0}) × Catalog → Outcome (Unit {0}) × Catalog
  committed before (ok _, after) = (ok tt, after)
  committed before (raised e, after) = (raised e, before)

  unfoldable pub run_async_migrations : Exec Catalog (Unit {0})
  unfolding do_run_migrations committed
  run_async_migrations c = committed c (do_run_migrations c)
