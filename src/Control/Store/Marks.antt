-- ===== src/Control/Store/Marks.antt =====
-- Watermarks and raw objects: what is written is read back, once for each key.
use stock_tracker_data_colle.Base.{
  ℕ, ◌+◌, String, ◌≡◌, refl, Bool, true, false, Option, some, arith, ◌==◌, eq_iff, ◌&&◌,
  if◌then◌else◌, first, exists, first-upserted, first-append, update_where, [], ◌∷◌, ◌++◌, not,
}
use stock_tracker_data_colle.Errors.{Exn}
use stock_tracker_data_colle.Exec.{ok, ◌>>◌}
use stock_tracker_data_colle.Control.Schema.{Watermark, RawObject, Database}
use stock_tracker_data_colle.Control.Store.{
  refers, has_id, has_mark, has_object, put_watermark, get_watermark, record_raw_object,
}
use stock_tracker_data_colle.Control.Store.Runs.{IsUp}

abbrev same_key : String → String → String → String → String → String → Bool
same_key p s k p' s' k' = p == p' && (s == s' && k == k')

has_mark-same :
    (p s k p' s' k' : String) (w : Watermark)
    → same_key p s k p' s' k' ≡ true
    → has_mark p s k w ≡ has_mark p' s' k' w
has_mark-same p s k p' s' k' w h = ground (arith, eq_iff p p', eq_iff s s', eq_iff k k')

has_mark-apart :
    (p s k p' s' k' : String) (w : Watermark)
    → same_key p s k p' s' k' ≡ false
    → has_mark p' s' k' w ≡ true
    → has_mark p s k w ≡ false
has_mark-apart p s k p' s' k' w h g = ground (
  arith,
  eq_iff w.pipeline p,
  eq_iff w.pipeline p',
  eq_iff w.stream s,
  eq_iff w.stream s',
  eq_iff w.partition_key k,
  eq_iff w.partition_key k',
  eq_iff p p',
  eq_iff s s',
  eq_iff k k',
)

module _ (fault : ℕ → Option Exn) (d : Database) (up : IsUp fault d) where
  -- While the database answers, a watermark that is put by a present run, if any, is what its key
  -- then reads, whether or not the key had one, and every other key reads what it read.
  get_watermark-put_watermark :
      (p s k cursor : String) (source run_id : Option String) (p' s' k' : String)
      → refers run_id d.pipeline_runs ≡ true
      → ((put_watermark fault p s k cursor source run_id >> get_watermark fault p' s' k') d).0
        ≡ ok (
            if same_key p s k p' s' k'
            then some (record {
              pipeline = p;
              stream = s;
              partition_key = k;
              cursor = cursor;
              source = source;
              run_id = run_id;
              updated_at = d.clock;
            })
            else first (has_mark p' s' k') d.watermarks)
  unfolding put_watermark get_watermark
  get_watermark-put_watermark p s k cursor source run_id p' s' k' refs =
      ground (arith, up.open_pool, up.answers d.queries, up.answers (d.queries + 1), read)
    where
      w : Watermark
      w = record {
        pipeline = p;
        stream = s;
        partition_key = k;
        cursor = cursor;
        source = source;
        run_id = run_id;
        updated_at = d.clock;
      }

      change : Watermark → Watermark
      change old = record old {
        cursor = cursor;
        source = source;
        run_id = run_id;
        updated_at = d.clock;
      }

      becomes : (r : Watermark) → has_mark p s k r ≡ true → change r ≡ w
      becomes r h = ground (arith, eq_iff r.pipeline p, eq_iff r.stream s, eq_iff r.partition_key k)

      read :
          first (has_mark p' s' k') (
            if exists (has_mark p s k) d.watermarks
            then update_where (has_mark p s k) change d.watermarks
            else d.watermarks ++ w ∷ [])
          ≡ (if same_key p s k p' s' k' then some w else first (has_mark p' s' k') d.watermarks)
      read =
          first-upserted (has_mark p s k) (has_mark p' s' k') change w (same_key p s k p' s' k')
            (λ h r. has_mark-same p s k p' s' k' r h) (λ h r g. has_mark-apart p s k p' s' k' r h g)
            (λ r. refl) becomes refl d.watermarks

  -- While the database answers, the archive index keeps the first row of each object key: an
  -- object of a present run is found under its key if the key is new, and else changes nothing.
  record_raw_object_effect :
      (o : RawObject) (key : String)
      → exists (has_id o.run_id) d.pipeline_runs ≡ true
      → first (has_object key) (record_raw_object fault o d).1.raw_objects ≡ (
          if o.object_key == key && not (exists (has_object key) d.raw_objects)
          then some o
          else first (has_object key) d.raw_objects)
  unfolding record_raw_object
  record_raw_object_effect o key refs = ground (
    arith,
    up.open_pool,
    up.answers d.queries,
    first-append (has_object key) d.raw_objects (o ∷ []),
    eq_iff o.object_key key,
  )
