-- ===== src/Migrations/Settled.antt =====
-- What the migrations leave of a catalog, and what another run of them does.
use stock_tracker_data_colle.Base.{◌≡◌, ◌⊎◌, Bool, true, false, not, ◌&&◌, ◌||◌, [], ◌∷◌}
use stock_tracker_data_colle.Exec.{ok, Exec}
use stock_tracker_data_colle.Migrations.{
  Catalog, control_plane_revision, control_plane_tables, run_async_migrations,
}
use stock_tracker_data_colle.Migrations.Prepared.{
  upgrade_relations, any_exist, all_in, version_table, version_index, is_blocked, has_version,
  is_old, kept_public,
}

-- Nothing is recorded, or the revision with its tables is.
abbrev pub IsKnown : Catalog → Type 0
IsKnown c =
    (has_version c ≡ false)
    ⊎ ((has_version c ≡ true)
        × (c.collector_versions ≡ control_plane_revision ∷ [])
        × (all_in control_plane_tables c.relations ≡ true))

-- Nothing is recorded, and the name of the version table's index is taken, or a table of the control
-- plane is missing and a name of the upgrade is taken.
abbrev pub is_refused : Catalog → Bool
is_refused c =
    not (has_version c)
    && (is_blocked c
        || (not (all_in control_plane_tables c.relations)
            && any_exist upgrade_relations c.relations))

module _ (run_migrations : Exec Catalog (Unit {0}) → Exec Catalog (Unit {0})) where
  pub record IsSettled (c c' : Catalog) : Type 0 where
    pub schema : c'.collector_schema ≡ true
    pub recorded : has_version c' ≡ true
    pub revision : c'.collector_versions ≡ control_plane_revision ∷ []
    pub tables : all_in control_plane_tables c'.relations ≡ true
    pub public_rows : c'.public_versions ≡ kept_public c
    pub adopted : (is_old c ≡ false) ⊎ (c'.relations ≡ version_index ∷ version_table ∷ c.relations)
    pub again : run_async_migrations run_migrations c' ≡ (ok tt, c')
