-- ===== src/Base/Tables.antt =====
-- Tables as lists of rows: the `WHERE` of the SQL statements, and dictionaries keyed by texts.
use Prim.Native.String.{String}
use mathlib.Core.Path.{◌≡◌, refl}
use mathlib.Core.Bool.{Bool, true, false}
use mathlib.Core.List.{List, [], ◌∷◌, ◌++◌}
use mathlib.Core.Option.{Option, none, some}
use native.Mathlib.Omega.{arith}
use text.Mathlib.Text.{◌==◌}
use text.Mathlib.TextEquality.{eq_iff}
use mathlib.Core.Logic.{inl, inr}
use stock_tracker_data_colle.Base.Tests.{if◌then◌else◌, is_some, Option-cases}

module _ {ℓ} {A : Type ℓ} where
  -- SELECT … WHERE test
  abbrev pub select : (A → Bool) → List A → List A
  select test [] = []
  select test (r ∷ rs) = let rest = select test rs in if test r then r ∷ rest else rest

  -- The first row that passes, as `fetchrow` returns it.
  abbrev pub first : (A → Bool) → List A → Option A
  first test [] = none
  first test (r ∷ rs) = if test r then some r else first test rs

  -- UPDATE … SET … WHERE test
  abbrev pub update_where : (A → Bool) → (A → A) → List A → List A
  update_where test change [] = []
  update_where test change (r ∷ rs) = (if test r then change r else r) ∷ update_where test change rs

  abbrev pub exists : (A → Bool) → List A → Bool
  exists test rs = is_some (first test rs)

-- Dictionaries in insertion order: an assignment to a present key keeps its place.
module _ {ℓ} {V : Type ℓ} where
  abbrev pub lookup : String → List (String × V) → Option V
  lookup name [] = none
  lookup name ((held, value) ∷ entries) = if held == name then some value else lookup name entries

  abbrev pub insert : String → V → List (String × V) → List (String × V)
  insert name value [] = (name, value) ∷ []
  insert name value ((held, old) ∷ entries) =
      if held == name then (held, value) ∷ entries else (held, old) ∷ insert name value entries

  -- After an assignment, the assigned name reads the value, and every other name what it read.
  pub lookup-insert :
      (name other : String) (value : V) (entries : List (String × V))
      → (if name == other then some value else lookup other entries)
        ≡ lookup other (insert name value entries)
  lookup-insert name other value [] = refl
  lookup-insert name other value ((held, old) ∷ entries) = ground (
    arith,
    lookup-insert name other value entries,
    eq_iff name other,
    eq_iff held name,
    eq_iff held other,
  )

module _ {ℓ} {A : Type ℓ} where
  -- A change that the selection cannot see moves into the selected row.
  pub first-update_where :
      (sel test : A → Bool) (change : A → A)
      → ((r : A) → sel (change r) ≡ sel r)
      → (rs : List A)
      → first sel (update_where test change rs)
        ≡ elim (first sel rs) [ none ↦ none | some r ↦ some (if test r then change r else r) ]
  first-update_where sel test change keeps [] = refl
  first-update_where sel test change keeps (r ∷ rs) =
      ground (arith, keeps r, first-update_where sel test change keeps rs)

  pub exists-update_where :
      (sel test : A → Bool) (change : A → A)
      → ((r : A) → sel (change r) ≡ sel r)
      → (rs : List A) → exists sel (update_where test change rs) ≡ exists sel rs
  exists-update_where sel test change keeps rs =
      ground (arith, first-update_where sel test change keeps rs)

  pub first-append :
      (sel : A → Bool) (xs ys : List A)
      → first sel (xs ++ ys) ≡ elim (first sel xs) [ none ↦ first sel ys | some r ↦ some r ]
  first-append sel [] ys = refl
  first-append sel (x ∷ xs) ys = ground (arith, first-append sel xs ys)

  -- The row that `first` returns passes the test.
  pub first-passes : (sel : A → Bool) (rs : List A) (r : A) → first sel rs ≡ some r → sel r ≡ true
  first-passes sel [] r h = cc
  first-passes sel (x ∷ xs) r h = ground (arith, first-passes sel xs r)

  -- An update of no row changes nothing.
  pub update_where-none :
      (test : A → Bool) (change : A → A) (rs : List A)
      → select test rs ≡ []
      → update_where test change rs ≡ rs
  update_where-none test change [] h = refl
  update_where-none test change (r ∷ rs) h = ground (arith, update_where-none test change rs)

  -- After an update that makes its rows fail the test, no row passes.
  pub select-update_where :
      (test : A → Bool) (change : A → A)
      → ((r : A) → test (change r) ≡ false)
      → (rs : List A) → select test (update_where test change rs) ≡ []
  select-update_where test change fails [] = refl
  select-update_where test change fails (r ∷ rs) =
      ground (arith, fails r, select-update_where test change fails rs)

-- An `INSERT … ON CONFLICT DO UPDATE` read back. `sel` picks the row with the key of `w`, `sel'`
-- the row with the key that is read, and `same` says whether the two keys are equal.
module _ {ℓ} {A : Type ℓ} (sel sel' : A → Bool) (change : A → A) (w : A) (same : Bool) where
  abbrev pub upserted : List A → List A
  upserted rows = if exists sel rows then update_where sel change rows else rows ++ w ∷ []

  module _ (equal : same ≡ true → (r : A) → sel r ≡ sel' r)
      (apart : same ≡ false → (r : A) → sel' r ≡ true → sel r ≡ false)
      (keeps : (r : A) → sel' (change r) ≡ sel' r) (becomes : (r : A) → sel r ≡ true → change r ≡ w)
      (written : sel' w ≡ same) where
    first-same : (rows : List A) → same ≡ true → first sel rows ≡ first sel' rows
    first-same [] h = refl
    first-same (r ∷ rs) h = ground (arith, equal h r, first-same rs h)

    pub first-upserted :
        (rows : List A) → first sel' (upserted rows) ≡ (if same then some w else first sel' rows)
    first-upserted rows = elim (Option-cases (first sel' rows)) [
      | inl absent ↦ ground (
        arith,
        first-same rows,
        first-update_where sel' sel change keeps rows,
        first-append sel' rows (w ∷ []),
      )
      | inr (r, found) ↦ ground (
        arith,
        first-same rows,
        first-update_where sel' sel change keeps rows,
        first-append sel' rows (w ∷ []),
        λ (h : same ≡ true). equal h r,
        λ (h : same ≡ false). apart h r,
        becomes r,
        first-passes sel' rows r found,
      )
    ]
