-- ===== src/Iceberg/Metadata/Examples.antt =====
-- The round trips of the metadata files at concrete files, with concrete functions in the place of
-- strings.TrimPrefix and strconv.ParseInt.
use Prim.Native.String.{slice}
use text.Mathlib.Text.{starts_with}
use text.Mathlib.TextPositions.{starts_with-append, slice-append_right, len-append}
use bemi_db.Wire.Text.Decimal.{string_to_int64, string_to_int64-nat_to_string}
use bemi_db.Prelude.{
  ◌≡◌, refl, String, ◌<>◌, len, [], ◌∷◌, map, none, some, false, arith, if◌then◌else◌,
}
use bemi_db.Wire.Text.{nat_to_string, int_to_string}
use bemi_db.Iceberg.Files.{ParquetFile, no_parquet_file, ManifestListItem, ManifestListFile}
use bemi_db.Iceberg.Metadata.{
  TableMetadata, snapshots_from, write_metadata_file, last_manifest_list, parse_manifest_list_files,
  parse_manifest_files,
}
use bemi_db.Prelude.Int.{◌+ℤ◌, ◌-ℤ◌}
use bemi_db.Iceberg.Manifests.{manifest_list_record}
use bemi_db.Iceberg.Metadata.Roundtrip.{
  parse-write_metadata_file, parse-manifest_list_records, without_data_file_size,
}

trim_prefix : String → String → String
trim_prefix s prefix = if starts_with s prefix then slice s (len prefix) (len s) else s

trim_prefix-append : (prefix s : String) → trim_prefix (prefix <> s) prefix ≡ s
unfolding trim_prefix
trim_prefix-append prefix s =
    rw (starts_with-append prefix s, len-append prefix s) (slice-append_right prefix s)

abbrev one_list : ManifestListFile
one_list = record {
  sequence_number = 1;
  snapshot_id = 7;
  timestamp_ms = 5;
  path = "metadata/list.avro";
  operation = "append";
  added_files_size = 10;
  added_data_files = 1;
  added_records = 2;
  removed_files_size = 0;
  deleted_data_files = 0;
  deleted_records = 0;
}

abbrev document : TableMetadata
document = record {
  table_uuid = "u";
  location = "s3://bucket/metadata/v1.metadata.json";
  last_sequence_number = 1;
  last_updated_ms = 5;
  fields = [];
  current_snapshot_id = 7;
  snapshots =
      record {
        snapshot_id = 7;
        sequence_number = 1;
        timestamp_ms = 5;
        manifest_list = "s3://bucket/metadata/list.avro";
        summary = record {
          operation = "append";
          added_data_files = "1";
          added_files_size = "10";
          added_records = "2";
          deleted_data_files = "0";
          deleted_records = "0";
          removed_files_size = "0";
          total_data_files = "1";
          total_files_size = "10";
          total_records = "2";
        };
        parent_snapshot_id = none;
      }
      ∷ [];
  snapshot_log = (7, 5) ∷ [];
}

written :
    write_metadata_file "s3://bucket/" "metadata/v1.metadata.json" "u" [] (one_list ∷ [])
    ≡ some document
unfolding write_metadata_file snapshots_from last_manifest_list nat_to_string int_to_string ◌+ℤ◌
    ◌-ℤ◌
written = refl

parse-write_metadata_file_example :
    (parse_manifest_list_files trim_prefix string_to_int64 "s3://bucket/" document.snapshots
      ≡ some (one_list ∷ []))
    × ((last : ManifestListFile) × (last_manifest_list (one_list ∷ []) ≡ some last)
        × (document.current_snapshot_id ≡ last.snapshot_id))
parse-write_metadata_file_example =
    parse-write_metadata_file trim_prefix string_to_int64 "s3://bucket/"
      (trim_prefix-append "s3://bucket/") (λ n h. string_to_int64-nat_to_string n)
      "metadata/v1.metadata.json" "u" [] (one_list ∷ []) document written (omega arith)

abbrev one_item : ManifestListItem
one_item = record {
  sequence_number = 1;
  manifest_file = record {
    records_deleted = false;
    snapshot_id = 7;
    path = "metadata/u-m0.avro";
    size = 3;
    record_count = 2;
    data_file_size = 10;
  };
}

parse-manifest_list_records_example :
    parse_manifest_files trim_prefix string_to_int64 "s3://bucket/"
      (map (manifest_list_record "s3://bucket/") (one_item ∷ []))
    ≡ map without_data_file_size (one_item ∷ [])
parse-manifest_list_records_example =
    parse-manifest_list_records trim_prefix string_to_int64 "s3://bucket/"
      (trim_prefix-append "s3://bucket/") (λ n h. string_to_int64-nat_to_string n) (one_item ∷ [])
      (refl, tt)

abbrev one_file : ParquetFile
one_file = record no_parquet_file { path = "data/u.parquet"; size = 10; record_count = 2 }
