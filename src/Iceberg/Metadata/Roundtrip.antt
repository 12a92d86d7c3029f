-- ===== src/Iceberg/Metadata/Roundtrip.antt =====
-- src/storage_utils.go: what WriteMetadataFile and WriteManifestListFile have written is read back.
use bemi_db.Prelude.{
  ◌≡◌, ℕ, ◌<◌, String, ◌<>◌, List, [], ◌∷◌, map, Option, none, some, false, arith, All, refl,
  Option-cases, inl, inr,
}
use bemi_db.Wire.Text.{nat_to_string}
use bemi_db.Iceberg.Files.{ManifestListItem, ManifestListFile}
use bemi_db.Iceberg.Manifests.{manifest_list_record}
use bemi_db.Iceberg.Metadata.{
  Totals, no_totals, add_to_totals, snapshot_of, snapshots_from, parse_snapshot,
  parse_manifest_list_files, parse_manifest_file, parse_manifest_files, TableMetadata,
  write_metadata_file, last_manifest_list,
}
use bemi_db.Columns.Fields.{IcebergSchemaField}

-- The numbers of a snapshot's summary are numbers of 64 bits, with a sign.
pub record FitsInt64 (f : ManifestListFile) : Type 0 where
  pub added_files_size : f.added_files_size < 9223372036854775808
  pub added_data_files : f.added_data_files < 9223372036854775808
  pub added_records : f.added_records < 9223372036854775808
  pub removed_files_size : f.removed_files_size < 9223372036854775808
  pub deleted_data_files : f.deleted_data_files < 9223372036854775808
  pub deleted_records : f.deleted_records < 9223372036854775808

-- The item without the size of its data file.
abbrev pub without_data_file_size : ManifestListItem → ManifestListItem
without_data_file_size item = record item {
  manifest_file = record (item.manifest_file) { data_file_size = 0 };
}

module _ (trim_prefix : String → String → String) (string_to_int64 : String → Option ℕ)
    (prefix : String) (trims : (s : String) → trim_prefix (prefix <> s) prefix ≡ s)
    (parses : (n : ℕ) → n < 9223372036854775808 → string_to_int64 (nat_to_string n) ≡ some n) where
  parse_snapshot-snapshot_of :
      (parent : Option ℕ) (t : Totals) (f : ManifestListFile)
      → FitsInt64 f
      → parse_snapshot trim_prefix string_to_int64 prefix (snapshot_of prefix parent t f) ≡ some f
  unfolding parse_snapshot snapshot_of
  parse_snapshot-snapshot_of parent t f fits = rw (
    parses f.added_files_size fits.added_files_size,
    parses f.added_data_files fits.added_data_files,
    parses f.added_records fits.added_records,
    parses f.removed_files_size fits.removed_files_size,
    parses f.deleted_data_files fits.deleted_data_files,
    parses f.deleted_records fits.deleted_records,
    trims f.path,
  )

  parse-snapshots_from :
      (files : List ManifestListFile) (parent : Option ℕ) (t : Totals)
      → All FitsInt64 files
      → parse_manifest_list_files trim_prefix string_to_int64 prefix
          (snapshots_from prefix parent t files)
        ≡ some files
  unfolding parse_manifest_list_files snapshots_from
  parse-snapshots_from [] parent t fits = refl
  parse-snapshots_from (f ∷ files) parent t fits = rw (
    parse_snapshot-snapshot_of parent (add_to_totals t f) f fits.0,
    parse-snapshots_from files (some f.snapshot_id) (add_to_totals t f) fits.1,
  )

  -- The snapshots of a metadata file read back as the manifest lists it was written from, in order,
  -- when their numbers are numbers of 64 bits with a sign; and the last of these is the current one.
  pub parse-write_metadata_file :
      (path uuid : String) (fields : List IcebergSchemaField) (files : List ManifestListFile)
      (metadata : TableMetadata)
      → write_metadata_file prefix path uuid fields files ≡ some metadata
      → All FitsInt64 files
      → (parse_manifest_list_files trim_prefix string_to_int64 prefix metadata.snapshots
          ≡ some files)
        × ((last : ManifestListFile) × (last_manifest_list files ≡ some last)
            × (metadata.current_snapshot_id ≡ last.snapshot_id))
  unfolding write_metadata_file
  parse-write_metadata_file path uuid fields files metadata e fits =
      elim (Option-cases (last_manifest_list files)) [
        | inl n ↦ absurd (ground arith)
        | inr (last, l) ↦ (
          ground (arith, parse-snapshots_from files none no_totals fits),
          (last, l, ground arith),
        )
      ]

  -- The records of a manifest list that has no deleted file read back as its items, in order, but
  -- for the size of the data file, which the records do not hold.
  pub parse-manifest_list_records :
      (items : List ManifestListItem)
      → All (λ item. item.manifest_file.records_deleted ≡ false) items
      → parse_manifest_files trim_prefix string_to_int64 prefix
          (map (manifest_list_record prefix) items)
        ≡ map without_data_file_size items
  unfolding parse_manifest_files parse_manifest_file manifest_list_record
  parse-manifest_list_records [] live = refl
  parse-manifest_list_records (item ∷ items) live =
      ground (arith, trims item.manifest_file.path, parse-manifest_list_records items live.1)
