-- ===== src/Tests/Migrations.antt =====
-- A runner of scripts in Alembic's place, and catalogs of three ages.
use stock_tracker_data_colle.Base.{String, ◌≡◌, refl, true, List, [], ◌∷◌, if◌then◌else◌}
use stock_tracker_data_colle.Errors.{foreign_error}
use stock_tracker_data_colle.Exec.{ok, raised, Outcome, Exec}
use stock_tracker_data_colle.Migrations.{
  Catalog, control_plane_revision, control_plane_tables, upgrade, stamp, discard_public,
  to_regclass, all_exist, create_schema, create_relation, prepare_version_table, do_run_migrations,
  committed, run_async_migrations,
}
use stock_tracker_data_colle.Migrations.Prepared.{has_version, is_blocked, stamped}

abbrev recorded : Outcome (Unit {0}) × Catalog → Outcome (Unit {0}) × Catalog
recorded (ok _, c) = (ok tt, stamped c)
recorded (raised e, c) = (raised e, c)

abbrev runner : Exec Catalog (Unit {0}) → Exec Catalog (Unit {0})
runner script c =
    if has_version c
    then (ok tt, c)
    else if is_blocked c
    then (raised (foreign_error "asyncpg.DuplicateTableError"), c)
    else recorded (script c)

abbrev catalog : List String → List String → Catalog
catalog relations public_versions = record {
  collector_schema = true;
  relations = relations;
  collector_versions = [];
  public_versions = public_versions;
}

-- the tables with their revision in the public schema, no table, and one table alone
abbrev old : Catalog
old = catalog ("public.alembic_version" ∷ control_plane_tables) (control_plane_revision ∷ [])

abbrev fresh : Catalog
fresh = catalog [] []

abbrev partial : Catalog
partial = catalog ("collector.watermarks" ∷ []) []

run-old : run_async_migrations runner old ≡ (
  ok tt,
  record {
    collector_schema = true;
    relations =
        "collector.alembic_version_pkc" ∷ "collector.alembic_version" ∷ "public.alembic_version"
        ∷ control_plane_tables;
    collector_versions = "202608300001" ∷ [];
    public_versions = [];
  },
)
unfolding run_async_migrations do_run_migrations committed prepare_version_table upgrade stamp
    discard_public to_regclass all_exist create_schema create_relation
run-old = refl

run-partial :
    run_async_migrations runner partial ≡ (raised (foreign_error "asyncpg.PostgresError"), partial)
unfolding run_async_migrations do_run_migrations committed prepare_version_table upgrade stamp
    discard_public to_regclass all_exist create_schema create_relation
run-partial = refl
