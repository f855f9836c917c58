-- ===== src/Control.antt =====
-- app/control: the schema of the migration, the store, and the run context.
pub mod Schema
pub mod Context
pub mod Store
