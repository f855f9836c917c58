-- ===== src/Vnstock/Baskets.antt =====
-- The baskets of the catalog of indices.
use stock_tracker_data_colle.Base.{
  String, ◌≡◌, refl, sym, Bool, true, false, not, ◌&&◌, ◌||◌, Option, none, some, List, [], ◌∷◌,
  arith, contains, inl, inr, Bool-cases, All, eq_iff, lookup, subst, eq_refl, if◌then◌else◌, ap,
}
use stock_tracker_data_colle.Base.Texts.{lower, upper, strip, is_blank, upper-is_blank}
use stock_tracker_data_colle.Exec.{ok, Exec, lift, chain-ok, ok-cancel, ok-ne-raised}
use stock_tracker_data_colle.Config.{Settings}
use stock_tracker_data_colle.Frames.{Pandas}
use stock_tracker_data_colle.Schemas.{IndexBasketRow}
use stock_tracker_data_colle.Vnstock.{Sdk, IndexInfo, call, run_in_thread}
use stock_tracker_data_colle.Vnstock.Catalog.{
  drop_duplicates, symbols_of, any_na, is_nil, values_of, constituents, symbols_by_group,
  catalog_rows, checked_rows, with_members, get_or, no_info, build_indices_catalog, provider_group,
  supported_index_groups, requested, setdefault_all,
}

abbrev pub is_distinct : List String → Bool
is_distinct [] = true
is_distinct (x ∷ xs) = not (contains x xs) && is_distinct xs

contains-drop_duplicates :
    (y : String) (seen xs : List String)
    → contains y (drop_duplicates seen xs) ≡ (contains y xs && not (contains y seen))
contains-drop_duplicates y seen [] = refl
contains-drop_duplicates y seen (x ∷ xs) = ground (
  arith,
  contains-drop_duplicates y seen xs,
  contains-drop_duplicates y (x ∷ seen) xs,
  eq_iff x y,
)

drop_duplicates-is_distinct : (seen xs : List String) → is_distinct (drop_duplicates seen xs) ≡ true
drop_duplicates-is_distinct seen [] = refl
drop_duplicates-is_distinct seen (x ∷ xs) = ground (
  arith,
  drop_duplicates-is_distinct seen xs,
  drop_duplicates-is_distinct (x ∷ seen) xs,
  contains-drop_duplicates x (x ∷ seen) xs,
  eq_refl x,
)

abbrev pub any_blank : List String → Bool
any_blank [] = false
any_blank (x ∷ xs) = is_blank x || any_blank xs

any_blank-drop_duplicates :
    (seen xs : List String) → any_blank xs ≡ false → any_blank (drop_duplicates seen xs) ≡ false
any_blank-drop_duplicates seen [] h = refl
any_blank-drop_duplicates seen (x ∷ xs) h =
    ground (arith, h, any_blank-drop_duplicates seen xs, any_blank-drop_duplicates (x ∷ seen) xs)

any_blank-symbols_of :
    (pd : Pandas) (values : List pd.Cell)
    → contains "" (symbols_of pd values) ≡ false
    → any_blank (symbols_of pd values) ≡ false
any_blank-symbols_of pd [] h = refl
any_blank-symbols_of pd (value ∷ values) h = ground (
  arith,
  h,
  any_blank-symbols_of pd values,
  upper-is_blank (pd.str value),
  eq_iff (upper (strip (pd.str value))) "",
)

-- The symbols are not none, none of them is blank or white space alone, and no two of them are the same.
abbrev pub AreMembers : List String → Type 0
AreMembers symbols =
    (is_nil symbols ≡ false) × (any_blank symbols ≡ false) × (is_distinct symbols ≡ true)

is_nil-drop_duplicates : (xs : List String) → is_nil (drop_duplicates [] xs) ≡ is_nil xs
is_nil-drop_duplicates [] = refl
is_nil-drop_duplicates (x ∷ xs) = refl

is_nil-symbols_of :
    (pd : Pandas) (values : List pd.Cell) → is_nil (symbols_of pd values) ≡ is_nil values
is_nil-symbols_of pd [] = refl
is_nil-symbols_of pd (value ∷ values) = refl

module _ {pd : Pandas} {W : Type 0} (sdk : Sdk pd W) (settings : Settings) where
  constituents-AreMembers :
      (group : String) (values : Option (List pd.Cell)) (members : List String)
      → constituents sdk settings group values ≡ ok members
      → AreMembers members
  unfolding constituents
  constituents-AreMembers group none members done = absurd (ground (arith, done))
  constituents-AreMembers group (some values) members done =
      elim (Bool-cases (is_nil values || any_na pd values)) [
        | inl invalid ↦ absurd (ground (arith, done, invalid))
        | inr valid ↦
            let symbols = symbols_of pd values in
            ground (
              arith,
              done,
              valid,
              is_nil-drop_duplicates (symbols_of pd values),
              is_nil-symbols_of pd values,
              any_blank-symbols_of pd values,
              any_blank-drop_duplicates [] (symbols_of pd values),
              drop_duplicates-is_distinct [] (symbols_of pd values),
            )
      ]

  symbols_by_group-AreMembers :
      (group : String) (w last : W) (members : List String)
      → symbols_by_group sdk settings group w ≡ (ok members, last)
      → AreMembers members
  unfolding symbols_by_group
  symbols_by_group-AreMembers group w last members done =
      let (raw, s, called, checked) =
        chain-ok
          (call sdk "symbols_by_group"
            (sdk.list_by_group (provider_group group) (lower settings.vnstock_indices_source)))
          _ w last members done in
      constituents-AreMembers group (values_of sdk settings raw) members (ap (λ r. r.0) checked)

  catalog_rows-AreBaskets :
      (metadata : List (String × IndexInfo)) (supported : List String)
      (symbols : List (String × Option String)) (w last : W) (rows : List IndexBasketRow)
      → catalog_rows sdk settings metadata supported symbols w ≡ (ok rows, last)
      → All (λ row. AreMembers row.constituent_symbols) rows
  unfolding catalog_rows
  catalog_rows-AreBaskets metadata supported [] w last rows done =
      subst (All (λ row. AreMembers row.constituent_symbols)) (ok-cancel (ap (λ r. r.0) done)) tt
  catalog_rows-AreBaskets metadata supported ((symbol, group) ∷ symbols) w last rows done =
      let later = catalog_rows sdk settings metadata supported symbols in
      let round : Bool → Exec W (List IndexBasketRow) = λ listed.
        if not listed
        then later
        else with_members sdk settings symbol group
            (get_or (no_info sdk settings) (lookup symbol metadata)) later in
      elim (Bool-cases (contains (provider_group symbol) supported)) [
        | inl listed ↦
            let (members, s, held, in_later) =
              chain-ok (symbols_by_group sdk settings symbol) _ w last rows
                (subst (λ b. round b w ≡ (ok rows, last)) listed done) in
            let (others, s', looped, made) = chain-ok later _ s last rows in_later in
            subst (All (λ row. AreMembers row.constituent_symbols)) (ok-cancel (ap (λ r. r.0) made))
              (
                symbols_by_group-AreMembers symbol w s members held,
                catalog_rows-AreBaskets metadata supported symbols s s' others looped,
              )
        | inr unlisted ↦
            catalog_rows-AreBaskets metadata supported symbols w last rows
              (subst (λ b. round b w ≡ (ok rows, last)) unlisted done)
      ]

  checked_rows-kept :
      (listed rows : List IndexBasketRow) (w last : W)
      → checked_rows sdk settings listed w ≡ (ok rows, last)
      → All (λ row. AreMembers row.constituent_symbols) listed
      → (is_nil rows ≡ false) × All (λ row. AreMembers row.constituent_symbols) rows
  checked_rows-kept [] rows w last done each = absurd (ok-ne-raised (sym (ap (λ r. r.0) done)))
  checked_rows-kept (row ∷ listed) rows w last done each =
      subst (λ l. (is_nil l ≡ false) × All (λ row. AreMembers row.constituent_symbols) l)
        (ok-cancel (ap (λ r. r.0) done)) (refl, each)

  -- A catalog that the source returns has a row, and the constituents of every row are some symbols,
  -- none of them empty or white space alone and no two of them the same.
  pub build_indices_catalog-AreMembers :
      (w last : W) (rows : List IndexBasketRow)
      → build_indices_catalog sdk settings w ≡ (ok rows, last)
      → (is_nil rows ≡ false) × All (λ row. AreMembers row.constituent_symbols) rows
  unfolding build_indices_catalog
  build_indices_catalog-AreMembers w last rows done =
      let ((groups, metadata), s1, loaded, d1) =
        chain-ok (run_in_thread sdk sdk.index_metadata) _ w last rows done in
      let (supported, s2, known, d2) =
        chain-ok (supported_index_groups sdk settings) _ s1 last rows d1 in
      let (symbols, s3, asked, d3) =
        chain-ok (lift (requested groups settings.vnstock_index_group_names [])) _ s2 last rows
          d2 in
      let (listed, s4, looped, d4) =
        chain-ok
          (catalog_rows sdk settings metadata supported
            (setdefault_all none settings.vnstock_extra_index_symbols symbols))
          _ s3 last rows d3 in
      checked_rows-kept listed rows s4 last d4 (
        catalog_rows-AreBaskets metadata supported
          (setdefault_all none settings.vnstock_extra_index_symbols symbols) s3 s4 listed looped)
