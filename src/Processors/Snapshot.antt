-- ===== src/Processors/Snapshot.antt =====
-- How many rows of a frame a snapshot keeps.
use stock_tracker_data_colle.Base.{
  every, ℕ, ◌≤◌, String, ◌≡◌, refl, not, ◌&&◌, ◌||◌, Option, List, [], ◌∷◌, arith, eqb, length,
  length-map, is_some,
}
use stock_tracker_data_colle.Exec.{ok}
use stock_tracker_data_colle.Frames.{
  Pandas, Row, Frame, Identity, is_empty_frame, apply_alias, apply_aliases, copied, filled,
  normalize_columns,
}
use stock_tracker_data_colle.Schemas.{Snapshot}
use stock_tracker_data_colle.Processors.Company.{kept, snapshot_of}

length-kept-le :
    {A R : Type 0} (record_of : A → Option R) (rows : List A)
    → length (kept record_of rows) ≤ length rows
length-kept-le record_of [] = omega arith
length-kept-le record_of (row ∷ rows) = ground (arith, length-kept-le record_of rows)

-- Every row is kept exactly if every row has a record.
length-kept :
    {A R : Type 0} (record_of : A → Option R) (rows : List A)
    → eqb (length (kept record_of rows)) (length rows) ≡ every (λ row. is_some (record_of row)) rows
length-kept record_of [] = refl
length-kept record_of (row ∷ rows) =
    ground (arith, length-kept record_of rows, length-kept-le record_of rows)

module _ (pd : Pandas) where
  length-apply_aliases :
      (aliases : List (String × String)) (work : Frame pd.Cell)
      → length (apply_aliases pd aliases work).rows ≡ length work.rows
  length-apply_aliases [] work = refl
  length-apply_aliases ((alias, canonical) ∷ aliases) work = ground (
    arith,
    length-apply_aliases aliases (apply_alias pd alias canonical work),
    length-map (copied pd alias canonical) work.rows,
    length-map (filled pd alias canonical) work.rows,
  )

  -- The guard of the pipeline, on the snapshot that a frame gives.
  pub snapshot_complete :
      {R : Type 0} (digest : List (Identity pd) → String) (aliases : List (String × String))
      (required : String) (record_of : Frame pd.Cell → Row pd.Cell → Option R) (stock_id : ℕ)
      (df : Frame pd.Cell) (s : Snapshot R)
      → snapshot_of pd digest aliases required record_of stock_id df ≡ ok s
      → (eqb (length s.items) 0 || not (eqb (length s.items) (length df.rows)))
        ≡ not (
            not (is_empty_frame df)
            && every
                (λ row. is_some (record_of (apply_aliases pd aliases df) row))
                (apply_aliases pd aliases df).rows)
  unfolding normalize_columns
  snapshot_complete digest aliases required record_of stock_id df s made = ground (
    arith,
    made,
    length-apply_aliases aliases df,
    length-kept (record_of (apply_aliases pd aliases df)) (apply_aliases pd aliases df).rows,
  )
