-- ===== src/Processors/Identity.antt =====
-- The identifiers of the rows of a snapshot, for which record_id takes no quantity and no date of an
-- update.
use mathlib.Core.Option
use stock_tracker_data_colle.Base.Texts.{lower}
use stock_tracker_data_colle.Processors.Cells.{str}
use stock_tracker_data_colle.Base.{
  sym, ◌∙◌, fun_ext, format, inl, inr, Option-cases, String, ◌≡◌, refl, ap, Option, none, some,
  List, [], ◌∷◌, All, arith,
}
use stock_tracker_data_colle.Frames.{
  Pandas, Row, Frame, Identity, a_text, clean_str, get, own_id, id_fields, record_id, source_name,
}
use stock_tracker_data_colle.Schemas.{CompanyShareholderRecord, CompanyOfficerRecord}
use stock_tracker_data_colle.Processors.Company.{shareholder_of, officer_of}

module _ (pd : Pandas) (digest : List (Identity pd) → String) where
  -- Two rows agree on the fields.
  abbrev pub AgreeOn : List String → Row pd.Cell → Row pd.Cell → Type 0
  AgreeOn fields row row' = All (λ field. get field row ≡ get field row') fields

  abbrev pub shareholder_id : Option (CompanyShareholderRecord pd) → Option String
  shareholder_id none = none
  shareholder_id (some r) = r.data_source_id

  abbrev pub officer_id : Option (CompanyOfficerRecord pd) → Option String
  officer_id none = none
  officer_id (some r) = r.data_source_id

  own_id-AgreeOn :
      (source entity : String) (fields : List String) (row row' : Row pd.Cell)
      → AgreeOn fields row row'
      → own_id pd source entity fields row ≡ own_id pd source entity fields row'
  own_id-AgreeOn source entity [] row row' same = refl
  own_id-AgreeOn source entity (field ∷ fields) row row' (same, others) =
      let read : clean_str pd (get field row) ≡ clean_str pd (get field row') =
        ap (clean_str pd) same in
      ground (arith, read, own_id-AgreeOn source entity fields row row' others)

  record_id-AgreeOn :
      (df df' : Frame pd.Cell) (row row' : Row pd.Cell) (entity : String)
      (identity : List (Identity pd))
      → df.source ≡ df'.source
      → AgreeOn (id_fields pd) row row'
      → record_id pd digest row df entity identity ≡ record_id pd digest row' df' entity identity
  unfolding record_id
  record_id-AgreeOn df df' row row' entity identity same fields =
      let provider : source_name pd df ≡ source_name pd df' =
        ap (λ s. lower (elim s as (λ _. String) [ none ↦ "vnstock" | some t ↦ t ])) same in
      let own = own_id-AgreeOn (source_name pd df) entity (id_fields pd) row row' fields in
      ap
        (λ o. elim o as (λ _. String) [
          | some id ↦ id
          | none ↦ format (source_name pd df ∷ ":" ∷ entity ∷ ":" ∷ digest identity ∷ [])
        ])
        own
      ∙ ap
          (λ s. elim (own_id pd s entity (id_fields pd) row') as (λ _. String) [
            | some id ↦ id
            | none ↦ format (s ∷ ":" ∷ entity ∷ ":" ∷ digest identity ∷ [])
          ])
          provider

  shareholder_id-map :
      (df : Frame pd.Cell) (row : Row pd.Cell)
      → shareholder_id (shareholder_of pd digest df row)
        ≡ Option.map
            (λ name. record_id pd digest row df "shareholder" (a_text (some name) ∷ []))
            (str pd "name" row)
  unfolding shareholder_of
  shareholder_id-map df row = elim (Option-cases (str pd "name" row)) [
    | inl absent ↦ ground (arith, absent)
    | inr (name, named) ↦ ground (arith, named)
  ]

  officer_id-map :
      (df : Frame pd.Cell) (row : Row pd.Cell)
      → officer_id (officer_of pd digest df row)
        ≡ Option.map
            (λ name.
              record_id pd digest row df "officer"
                (a_text (some name) ∷ a_text (str pd "position" row) ∷ []))
            (str pd "name" row)
  unfolding officer_of
  officer_id-map df row = elim (Option-cases (str pd "name" row)) [
    | inl absent ↦ ground (arith, absent)
    | inr (name, named) ↦ ground (arith, named)
  ]

  -- Rows of two frames of one provider that agree on the name, the position and the five fields that
  -- can name a row have the same identifier, as a shareholder and as an officer, or are both left
  -- out, whatever their quantities, percentages and dates are.
  pub shareholder_of-AgreeOn :
      (df df' : Frame pd.Cell) (row row' : Row pd.Cell)
      → df.source ≡ df'.source
      → AgreeOn ("name" ∷ "position" ∷ id_fields pd) row row'
      → (shareholder_id (shareholder_of pd digest df row)
          ≡ shareholder_id (shareholder_of pd digest df' row'))
        × (officer_id (officer_of pd digest df row) ≡ officer_id (officer_of pd digest df' row'))
  shareholder_of-AgreeOn df df' row row' same (name, (position, fields)) = (
    shareholder_id-map df row
        ∙ ap
            (λ c.
              Option.map (λ n. record_id pd digest row df "shareholder" (a_text (some n) ∷ []))
                (clean_str pd c))
            name
        ∙ ap (λ f. Option.map f (str pd "name" row'))
            (fun_ext λ n.
              record_id-AgreeOn df df' row row' "shareholder" (a_text (some n) ∷ []) same fields)
        ∙ sym (shareholder_id-map df' row'),
    officer_id-map df row
        ∙ ap
            (λ c.
              Option.map
                (λ n.
                  record_id pd digest row df "officer"
                    (a_text (some n) ∷ a_text (str pd "position" row) ∷ []))
                (clean_str pd c))
            name
        ∙ ap
            (λ c.
              Option.map
                (λ n.
                  record_id pd digest row df "officer"
                    (a_text (some n) ∷ a_text (clean_str pd c) ∷ []))
                (str pd "name" row'))
            position
        ∙ ap (λ f. Option.map f (str pd "name" row'))
            (fun_ext λ n.
              record_id-AgreeOn df df' row row' "officer"
                (a_text (some n) ∷ a_text (str pd "position" row') ∷ []) same fields)
        ∙ sym (officer_id-map df' row'),
  )
