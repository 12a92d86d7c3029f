-- ===== src/Iceberg/Metadata.antt =====
-- src/storage_utils.go: WriteMetadataFile and ParseManifestListFiles, between the manifest lists of a
-- table and the JSON document of its metadata, and ParseManifestFiles, which reads the records of a
-- manifest list back. What json and goavro do between these values and bytes is not modelled. The
-- constant fields of the document are left out.
pub mod Roundtrip
mod Examples
use bemi_db.Prelude.{ℕ, String, ◌<>◌, List, [], ◌∷◌, map, Option, none, some, false}
use bemi_db.Prelude.Int.{ℤ, pos, ◌+ℤ◌, ◌-ℤ◌}
use bemi_db.Wire.Text.{nat_to_string, int_to_string}
use bemi_db.Columns.Fields.{IcebergSchemaField}
use bemi_db.Iceberg.Files.{ManifestListItem, ManifestListFile}
use bemi_db.Iceberg.Manifests.{ManifestListRecord}

pub record Summary : Type 0 where
  pub operation : String
  pub added_data_files : String
  pub added_files_size : String
  pub added_records : String
  pub deleted_data_files : String
  pub deleted_records : String
  pub removed_files_size : String
  pub total_data_files : String
  pub total_files_size : String
  pub total_records : String

pub record Snapshot : Type 0 where
  pub snapshot_id : ℕ
  pub sequence_number : ℕ
  pub timestamp_ms : ℕ
  pub manifest_list : String
  pub summary : Summary
  pub parent_snapshot_id : Option ℕ

pub record TableMetadata : Type 0 where
  pub table_uuid : String
  pub location : String
  pub last_sequence_number : ℕ
  pub last_updated_ms : ℕ
  pub fields : List IcebergSchemaField
  pub current_snapshot_id : ℕ
  pub snapshots : List Snapshot
  -- the identifier and the time of each snapshot
  pub snapshot_log : List (ℕ × ℕ)

-- The sums that the loop over the manifest lists keeps.
pub record Totals : Type 0 where
  pub data_files : ℤ
  pub files_size : ℤ
  pub records : ℤ

abbrev pub no_totals : Totals
no_totals = record { data_files = pos 0; files_size = pos 0; records = pos 0 }

unfoldable pub add_to_totals : Totals → ManifestListFile → Totals
add_to_totals t f = record {
  data_files = t.data_files +ℤ (pos f.added_data_files -ℤ pos f.deleted_data_files);
  files_size = t.files_size +ℤ (pos f.added_files_size -ℤ pos f.removed_files_size);
  records = t.records +ℤ (pos f.added_records -ℤ pos f.deleted_records);
}

unfoldable pub snapshot_of : String → Option ℕ → Totals → ManifestListFile → Snapshot
snapshot_of prefix parent t f = record {
  snapshot_id = f.snapshot_id;
  sequence_number = f.sequence_number;
  timestamp_ms = f.timestamp_ms;
  manifest_list = prefix <> f.path;
  summary = record {
    operation = f.operation;
    added_data_files = nat_to_string f.added_data_files;
    added_files_size = nat_to_string f.added_files_size;
    added_records = nat_to_string f.added_records;
    deleted_data_files = nat_to_string f.deleted_data_files;
    deleted_records = nat_to_string f.deleted_records;
    removed_files_size = nat_to_string f.removed_files_size;
    total_data_files = int_to_string t.data_files;
    total_files_size = int_to_string t.files_size;
    total_records = int_to_string t.records;
  };
  parent_snapshot_id = parent;
}

-- The loop, from the totals and the snapshot before.
unfoldable pub snapshots_from : String → Option ℕ → Totals → List ManifestListFile → List Snapshot
unfolding add_to_totals snapshot_of
snapshots_from prefix parent t [] = []
snapshots_from prefix parent t (f ∷ files) =
    snapshot_of prefix parent (add_to_totals t f) f
    ∷ snapshots_from prefix (some f.snapshot_id) (add_to_totals t f) files

-- `list[len(list)-1]`
unfoldable pub last_manifest_list : List ManifestListFile → Option ManifestListFile
last_manifest_list [] = none
last_manifest_list (f ∷ files) = elim (last_manifest_list files) [
  | none ↦ some f
  | some last ↦ some last
]

-- The document; none is the panic on an empty list.
unfoldable pub write_metadata_file :
    String
    → String
    → String
    → List IcebergSchemaField
    → List ManifestListFile
    → Option TableMetadata
unfolding snapshots_from last_manifest_list
write_metadata_file prefix path uuid fields files = elim (last_manifest_list files) [
  | none ↦ none
  | some last ↦ some (record {
    table_uuid = uuid;
    location = prefix <> path;
    last_sequence_number = last.sequence_number;
    last_updated_ms = last.timestamp_ms;
    fields = fields;
    current_snapshot_id = last.snapshot_id;
    snapshots = snapshots_from prefix none no_totals files;
    snapshot_log = map (λ f. (f.snapshot_id, f.timestamp_ms)) files;
  })
]

infixl 5 ◌>>=◌
abbrev ◌>>=◌ : {A B : Type 0} → Option A → (A → Option B) → Option B
none >>= k = none
some a >>= k = k a

-- strings.TrimPrefix and strconv.ParseInt; none is an error of the latter.
module _ (trim_prefix : String → String → String) (string_to_int64 : String → Option ℕ)
    (prefix : String) where
  unfoldable pub parse_snapshot : Snapshot → Option ManifestListFile
  parse_snapshot snapshot = do
    added_files_size ← string_to_int64 snapshot.summary.added_files_size
    added_data_files ← string_to_int64 snapshot.summary.added_data_files
    added_records ← string_to_int64 snapshot.summary.added_records
    removed_files_size ← string_to_int64 snapshot.summary.removed_files_size
    deleted_data_files ← string_to_int64 snapshot.summary.deleted_data_files
    deleted_records ← string_to_int64 snapshot.summary.deleted_records
    some (record {
      sequence_number = snapshot.sequence_number;
      snapshot_id = snapshot.snapshot_id;
      timestamp_ms = snapshot.timestamp_ms;
      path = trim_prefix snapshot.manifest_list prefix;
      operation = snapshot.summary.operation;
      added_files_size = added_files_size;
      added_data_files = added_data_files;
      added_records = added_records;
      removed_files_size = removed_files_size;
      deleted_data_files = deleted_data_files;
      deleted_records = deleted_records;
    })

  unfoldable pub parse_manifest_list_files : List Snapshot → Option (List ManifestListFile)
  unfolding parse_snapshot
  parse_manifest_list_files [] = some []
  parse_manifest_list_files (snapshot ∷ snapshots) =
      let rest = parse_manifest_list_files snapshots in
      do file ← parse_snapshot snapshot; files ← rest; some (file ∷ files)

  unfoldable pub parse_manifest_file : ManifestListRecord → ManifestListItem
  parse_manifest_file r = record {
    sequence_number = r.sequence_number;
    manifest_file = record {
      records_deleted = false;
      snapshot_id = r.added_snapshot_id;
      path = trim_prefix r.manifest_path prefix;
      size = r.manifest_length;
      record_count = r.added_rows_count;
      data_file_size = 0;
    };
  }

  unfoldable pub parse_manifest_files : List ManifestListRecord → List ManifestListItem
  unfolding parse_manifest_file
  parse_manifest_files records = map parse_manifest_file records
