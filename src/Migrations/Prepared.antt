-- ===== src/Migrations/Prepared.antt =====
-- The statements of alembic/env.py before Alembic, and the upgrade, by what they find.
use stock_tracker_data_colle.Base.{
  String, ◌≡◌, refl, ap, ◌∙◌, inl, inr, Bool, true, false, not, ◌&&◌, ◌||◌, is_some, List, [], ◌∷◌,
  ◌==◌, eq_iff, if◌then◌else◌, contains, arith, Bool-cases,
}
use stock_tracker_data_colle.Errors.{Exn, foreign_error}
use stock_tracker_data_colle.Exec.{ok, raised, Outcome, continue, Exec, pure, modify, ◌>>◌}
use stock_tracker_data_colle.Migrations.{
  Catalog, control_plane_revision, control_plane_tables, to_regclass, all_exist, create_schema,
  create_relation, upgrade, discard_public, stamp, prepare_version_table,
}

-- The names that the upgrade creates.
abbrev pub upgrade_relations : List String
upgrade_relations =
    "collector.pipeline_runs" ∷ "collector.ix_pipeline_runs_pipeline_started"
    ∷ "collector.ix_pipeline_runs_status_heartbeat" ∷ "collector.pipeline_steps"
    ∷ "collector.uq_pipeline_step" ∷ "collector.watermarks" ∷ "collector.raw_objects"
    ∷ "collector.ix_raw_objects_run_operation" ∷ []

abbrev pub any_exist : List String → List String → Bool
any_exist [] relations = false
any_exist (name ∷ names) relations = contains name relations || any_exist names relations

abbrev pub distinct : List String → Bool
distinct [] = true
distinct (name ∷ names) = not (contains name names) && distinct names

abbrev pub added : List String → List String → List String
added [] relations = relations
added (name ∷ names) relations = added names (name ∷ relations)

abbrev pub create_all : List String → Exec Catalog (Unit {0})
create_all [] = pure tt
create_all (name ∷ names) = create_relation name >> create_all names

pub upgrade-create_all :
    (c : Catalog) → upgrade c ≡ create_all upgrade_relations (record c { collector_schema = true })
unfolding upgrade create_schema
upgrade-create_all c = refl

any_exist-cons :
    (name : String) (names relations : List String)
    → any_exist names (name ∷ relations) ≡ (contains name names || any_exist names relations)
any_exist-cons name [] relations = refl
any_exist-cons name (other ∷ names) relations =
    ground (arith, any_exist-cons name names relations, eq_iff name other, eq_iff other name)

-- One statement that creates, by what it finds.
create_relation-absent :
    (name : String) (c : Catalog)
    → c.collector_schema ≡ true
    → contains name c.relations ≡ false
    → create_relation name c ≡ (ok tt, record c { relations = name ∷ c.relations })
unfolding create_relation
create_relation-absent name c s a = ground (arith, s, a)

create_relation-taken :
    (name : String) (c : Catalog)
    → contains name c.relations ≡ true
    → create_relation name c ≡ (raised (foreign_error "asyncpg.PostgresError"), c)
unfolding create_relation
create_relation-taken name c a = ground (arith, a)

pub create_all-absent :
    (names : List String) (c : Catalog)
    → c.collector_schema ≡ true
    → distinct names ≡ true
    → any_exist names c.relations ≡ false
    → create_all names c ≡ (ok tt, record c { relations = added names c.relations })
create_all-absent [] c s d a = refl
create_all-absent (name ∷ names) c s d a =
    let absent : contains name c.relations ≡ false = ground (arith, a) in
    let fresh : contains name names ≡ false = ground (arith, d) in
    let rest : distinct names ≡ true = ground (arith, d) in
    let next : Catalog = record c { relations = name ∷ c.relations } in
    let still : any_exist names next.relations ≡ false =
      ground (arith, a, fresh, any_exist-cons name names c.relations) in
    ap (λ r. continue r.0 (λ _. create_all names) r.1) (create_relation-absent name c s absent)
    ∙ create_all-absent names next s rest still

pub create_all-taken :
    (names : List String) (c : Catalog)
    → c.collector_schema ≡ true
    → any_exist names c.relations ≡ true
    → (e : Exn) × (c' : Catalog) × (create_all names c ≡ (raised e, c'))
create_all-taken [] c s a = absurd (ground (arith, a))
create_all-taken (name ∷ names) c s a = elim (Bool-cases (contains name c.relations)) [
  | inl there ↦ (
    foreign_error "asyncpg.PostgresError",
    c,
    ap (λ r. continue r.0 (λ _. create_all names) r.1) (create_relation-taken name c there),
  )
  | inr absent ↦
      let next : Catalog = record c { relations = name ∷ c.relations } in
      let still : any_exist names next.relations ≡ true =
        ground (arith, a, absent, any_exist-cons name names c.relations) in
      let (e, c', later) = create_all-taken names next s still in
      (
        e,
        c',
        ap (λ r. continue r.0 (λ _. create_all names) r.1) (create_relation-absent name c s absent)
            ∙ later,
      )
]

abbrev pub all_in : List String → List String → Bool
all_in [] relations = true
all_in (name ∷ names) relations = contains name relations && all_in names relations

all_exist-all_in :
    (names : List String) (c : Catalog) → all_exist names c ≡ all_in names c.relations
unfolding all_exist to_regclass
all_exist-all_in [] c = refl
all_exist-all_in (name ∷ names) c = ground (arith, all_exist-all_in names c)

abbrev pub version_table : String
version_table = "collector.alembic_version"

-- the index of its constraint, whose name is given too
abbrev pub version_index : String
version_index = "collector.alembic_version_pkc"

abbrev pub is_blocked : Catalog → Bool
is_blocked c = contains version_index c.relations

abbrev pub has_version : Catalog → Bool
has_version c = contains version_table c.relations

-- The control plane is there, and Alembic's version table of the schema is not.
abbrev pub is_old : Catalog → Bool
is_old c = not (has_version c) && all_in control_plane_tables c.relations

abbrev pub is_head : List String → Bool
is_head [] = false
is_head (revision ∷ rest) = revision == control_plane_revision

-- What is left of public.alembic_version.
abbrev pub kept_public : Catalog → List String
kept_public c =
    if is_old c && contains "public.alembic_version" c.relations && is_head c.public_versions
    then []
    else c.public_versions

-- The catalog after the statements before Alembic, by the case.
abbrev pub stamped : Catalog → Catalog
stamped c = record c {
  relations = version_index ∷ version_table ∷ c.relations;
  collector_versions = control_plane_revision ∷ [];
}

abbrev pub has_public : Catalog → Bool
has_public c = contains "public.alembic_version" c.relations

abbrev pub discarded : Catalog → Catalog
discarded c = record c {
  public_versions = if has_public c && is_head c.public_versions then [] else c.public_versions;
}

discard_public-discarded : (c : Catalog) → discard_public c ≡ (ok tt, discarded c)
unfolding discard_public to_regclass
discard_public-discarded c = split c.public_versions refl
  where
    split :
        (rows : List String) → c.public_versions ≡ rows → discard_public c ≡ (ok tt, discarded c)
    split [] e = ground (arith, e)
    split (row ∷ rows) e = ground (arith, e)

record_revision : Exec Catalog (Unit {0})
record_revision = modify λ c. record c { collector_versions = control_plane_revision ∷ [] }

stamp-stamped :
    (c : Catalog)
    → c.collector_schema ≡ true
    → has_version c ≡ false
    → is_blocked c ≡ false
    → stamp c ≡ (ok tt, stamped c)
unfolding stamp record_revision
stamp-stamped c s a free =
    let tabled : Catalog = record c { relations = version_table ∷ c.relations } in
    ap (λ r. continue r.0 (λ _. create_relation version_index >> record_revision) r.1)
      (create_relation-absent version_table c s a)
    ∙ ap (λ r. continue r.0 (λ _. record_revision) r.1)
        (create_relation-absent version_index tabled s free)

stamp-blocked :
    (c : Catalog)
    → c.collector_schema ≡ true
    → has_version c ≡ false
    → is_blocked c ≡ true
    → (e : Exn) × (c' : Catalog) × (stamp c ≡ (raised e, c'))
unfolding stamp record_revision
stamp-blocked c s a taken =
    let tabled : Catalog = record c { relations = version_table ∷ c.relations } in
    (
      foreign_error "asyncpg.PostgresError",
      tabled,
      ap (λ r. continue r.0 (λ _. create_relation version_index >> record_revision) r.1)
            (create_relation-absent version_table c s a)
          ∙ ap (λ r. continue r.0 (λ _. record_revision) r.1)
              (create_relation-taken version_index tabled taken),
    )

abbrev pub prepared : Catalog → Catalog
prepared c =
    let made : Catalog = record c { collector_schema = true } in
    if is_old c then discarded (stamped made) else made

is_some-to_regclass :
    (name : String) (c : Catalog) → is_some (to_regclass name c) ≡ contains name c.relations
unfolding to_regclass
is_some-to_regclass name c = ground arith

-- The block of the old control plane runs, or it does not.
prepare-branch :
    (c : Catalog)
    → let made : Catalog = record c { collector_schema = true } in
      prepare_version_table c ≡ (if is_old c then (stamp >> discard_public) made else (ok tt, made))
unfolding prepare_version_table create_schema
prepare-branch c =
    let made : Catalog = record c { collector_schema = true } in
    let branch : Bool → Outcome (Unit {0}) × Catalog =
      λ old. if old then (stamp >> discard_public) made else (ok tt, made) in
    let tests : (not (is_some (to_regclass version_table made))
          && all_exist control_plane_tables made)
        ≡ is_old c =
      ap (λ t. not t && all_exist control_plane_tables made)
        (is_some-to_regclass version_table made)
      ∙ ap (λ t. not (has_version c) && t) (all_exist-all_in control_plane_tables made) in
    ap branch tests

pub prepare_version_table-prepared :
    (c : Catalog)
    → (is_old c && is_blocked c) ≡ false
    → prepare_version_table c ≡ (ok tt, prepared c)
prepare_version_table-prepared c free =
    let made : Catalog = record c { collector_schema = true } in
    prepare-branch c ∙ elim (Bool-cases (is_old c)) [
      | inl old ↦
          let absent : has_version c ≡ false = ground (arith, old) in
          let open_name : is_blocked c ≡ false = ground (arith, old, free) in
          let stamps : (stamp >> discard_public) made ≡ (ok tt, discarded (stamped made)) =
            ap (λ r. continue r.0 (λ _. discard_public) r.1)
              (stamp-stamped made refl absent open_name)
            ∙ discard_public-discarded (stamped made) in
          rw old stamps
      | inr young ↦ rw young refl
    ]

pub prepare_version_table-blocked :
    (c : Catalog)
    → is_old c ≡ true
    → is_blocked c ≡ true
    → (e : Exn) × (c' : Catalog) × (prepare_version_table c ≡ (raised e, c'))
prepare_version_table-blocked c old taken =
    let made : Catalog = record c { collector_schema = true } in
    let absent : has_version c ≡ false = ground (arith, old) in
    let (e, c', failed) = stamp-blocked made refl absent taken in
    let stops : (stamp >> discard_public) made ≡ (raised e, c') =
      ap (λ r. continue r.0 (λ _. discard_public) r.1) failed in
    (e, c', prepare-branch c ∙ rw old stops)
