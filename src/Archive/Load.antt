-- ===== src/Archive/Load.antt =====
-- What an archived response is loaded as.
use stock_tracker_data_colle.Base.{
  String, ◌≡◌, ◌⊎◌, true, false, Option, arith, inl, inr, if◌then◌else◌, Bool-cases,
}
use stock_tracker_data_colle.Errors.{Exn, is_exception, is_archive_error}
use stock_tracker_data_colle.Exec.{Outcome, ok, raised, raise, handled}
use stock_tracker_data_colle.Json.{Json}
use stock_tracker_data_colle.Control.Schema.{Database}
use stock_tracker_data_colle.Engine.{World}
use stock_tracker_data_colle.Archive.{Envelope, ArchiveDeps, as_archive_error, load}

-- The codecs invert, and the bucket returns what was put, whatever the archive index records.
pub record IsLossless {S : Type 0} (deps : ArchiveDeps S) : Type 0 where
  pub inflates : (body : deps.Bytes) → deps.decompress (deps.compress body) ≡ ok body
  pub decodes : (e : Envelope) → deps.decode (deps.encode e) ≡ ok e
  pub keeps :
      (key : String) (body : deps.Bytes) (w : World S) (d : Database)
      → (deps.put_object key body w).0 ≡ ok tt
      → let after : World S = record (deps.put_object key body w).1 { database = d } in
        deps.get_object key after ≡ (ok body, after)

module _ {S : Type 0} (deps : ArchiveDeps S) where
  handled_raises :
      {A : Type 0} (text : String) (r : Outcome A) (w : World S) (e : Exn)
      → (handled (λ f. if is_archive_error f then raise f else as_archive_error deps text f) r w).0
        ≡ raised e
      → (is_archive_error e ≡ true) ⊎ (is_exception e ≡ false)
  handled_raises text (ok a) w e failed = ground (arith, failed)
  handled_raises text (raised f) w e failed = elim (Bool-cases (is_archive_error f)) [
    | inl archived ↦ ground (arith, archived, failed)
    | inr foreign ↦ elim (Bool-cases (is_exception f)) [
      | inl caught ↦ ground (arith, foreign, caught, failed)
      | inr fatal ↦ ground (arith, foreign, fatal, failed)
    ]
  ]

  -- What load raises is an ArchiveError, unless it is no Exception.
  pub load_raises :
      (key : String) (expected : Option String) (w : World S) (e : Exn)
      → (load deps key expected w).0 ≡ raised e
      → (is_archive_error e ≡ true) ⊎ (is_exception e ≡ false)
  unfolding load
  load_raises key expected w e failed = handled_raises _ _ _ e failed
