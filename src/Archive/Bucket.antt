-- ===== src/Archive/Bucket.antt =====
-- app/archive/raw_archive.py: ensure_bucket and ping of RawArchive, over the bucket of an S3 client.
use stock_tracker_data_colle.Base.{
  String, Bool, false, not, ◌&&◌, Option, none, some, [], ◌∷◌, ◌==◌, if◌then◌else◌, is_some,
  contains, format,
}
use stock_tracker_data_colle.Errors.{Exn, archive_error, is_exception, message}
use stock_tracker_data_colle.Exec.{Exec, raise, try_except}
use stock_tracker_data_colle.Config.{Settings}

-- The client, on the state W of the store of objects.
pub record S3Client (W : Type 0) : Type 0 where
  -- head_bucket(Bucket=bucket)
  pub head_bucket : String → Exec W (Unit {0})
  -- create_bucket(Bucket=bucket), with the LocationConstraint, if it is given
  pub create_bucket : String → Option String → Exec W (Unit {0})
  -- the code in the response of a ClientError; none of another exception
  pub error_code : Exn → Option String

module _ {W : Type 0} (client : S3Client W) (settings : Settings) where
  abbrev pub location : Option String
  location =
      if not (settings.raw_archive_region == "us-east-1")
        && not (is_some settings.raw_archive_endpoint_url)
      then some settings.raw_archive_region
      else none

  abbrev pub is_missing : Exn → Bool
  is_missing exc = elim (client.error_code exc) [
    | none ↦ false
    | some code ↦ contains code ("404" ∷ "NoSuchBucket" ∷ "NotFound" ∷ [])
  ]

  -- `ensure`, which runs in a thread
  unfoldable pub ensure : Exec W (Unit {0})
  ensure = try_except (client.head_bucket settings.raw_archive_bucket) λ exc.
      if is_missing exc
      then client.create_bucket settings.raw_archive_bucket location
      else raise exc

  -- except Exception as exc: raise ArchiveError(…)
  abbrev pub archived : String → Exec W (Unit {0}) → Exec W (Unit {0})
  archived text action = try_except action λ exc.
      if is_exception exc
      then raise (archive_error (format (text ∷ message exc ∷ [])))
      else raise exc

  unfoldable pub ensure_bucket : Exec W (Unit {0})
  ensure_bucket = archived "Unable to initialize raw archive bucket: " ensure

  unfoldable pub ping : Exec W (Unit {0})
  ping =
      archived "Raw archive bucket is unavailable: "
        (client.head_bucket settings.raw_archive_bucket)
