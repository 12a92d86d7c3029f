-- ===== src/Iceberg/Examples.antt =====
-- Tests of the model of the files of a table, and its theorems at a small storage in memory.
use bemi_db.Prelude.{◌≡◌, refl, ℕ, suc, [], ◌∷◌, ◌++◌, Option, some, Bool, true, false, arith}
use bemi_db.Sync.Metadata.{InternalTableMetadata, full, full_in_progress}
use bemi_db.Iceberg.Files.{
  ParquetFile, no_parquet_file, ManifestFile, ManifestListItem, ManifestListFile,
}
use bemi_db.Iceberg.Manifests.{
  no_stats, write_manifest_list_file, stats_by_sequence_number, stats_at, put_stats, count_file,
  snapshot_operation,
}
use bemi_db.Iceberg.Manifests.Statistics.{Counts, stats_of, write_manifest_list_file-Counts}
use bemi_db.Iceberg.Storage.{History, Storage, done, history_of}
use bemi_db.Iceberg.Writer.{Merge, delete_existing, except, write}
use bemi_db.Iceberg.Writer.Accounts.{CountsRecords, Accounted}
use bemi_db.Iceberg.Writer.Accounts.Publishing.{FindsBooks, write-accounts}
use bemi_db.Iceberg.Writer.Checkpoints.{Checkpointed, write-checkpoints}
use bemi_db.Iceberg.Writer.Deletion.{delete_existing-snapshot_id}
use bemi_db.Iceberg.Writer.Termination.{Consumes}

-- A file of two records, and the manifest that an earlier refresh has written for it.
abbrev two_records : ParquetFile
two_records = record no_parquet_file {
  uuid = "u";
  path = "data/u.parquet";
  size = 10;
  record_count = 2;
}

abbrev old_manifest : ManifestFile
old_manifest = record {
  records_deleted = false;
  snapshot_id = 7;
  path = "metadata/old-m0.avro";
  size = 3;
  record_count = 2;
  data_file_size = 10;
}

abbrev old_item : ManifestListItem
old_item = record { sequence_number = 1; manifest_file = old_manifest }

abbrev old_list : ManifestListFile
old_list = record {
  sequence_number = 1;
  snapshot_id = 7;
  timestamp_ms = 0;
  path = "metadata/old.avro";
  operation = "append";
  added_files_size = 10;
  added_data_files = 1;
  added_records = 2;
  removed_files_size = 0;
  deleted_data_files = 0;
  deleted_records = 0;
}

abbrev checkpoint : Bool → InternalTableMetadata
checkpoint true = record {
  last_refresh_mode = full;
  last_synced_at = 0;
  last_txid = 1;
  max_xmin = some 9;
}
checkpoint false = record {
  last_refresh_mode = full_in_progress;
  last_synced_at = 0;
  last_txid = 1;
  max_xmin = some 9;
}

-- A storage with one old file. Each new file has two records while there are any left to load, and
-- a merge deletes the old file.
abbrev created : ℕ → Option (ParquetFile × (InternalTableMetadata × ℕ))
created (suc (suc n)) = some (two_records, (checkpoint false, n))
created n = some (record two_records { record_count = 0 }, (checkpoint true, n))

abbrev dead : ManifestFile → ManifestFile
dead old = record old { records_deleted = true }

abbrev memory : Storage ℕ
memory = record {
  create_data_dir = λ h. some tt;
  create_metadata_dir = λ h. some tt;
  existing_manifest_list_files = λ h. some (old_list ∷ []);
  existing_manifest_list_items = λ h file. some (old_item ∷ []);
  existing_parquet_file_path = λ h m. some "data/old.parquet";
  create_parquet = λ h l. created l;
  new_merge_duckdb = λ h path. some tt;
  create_overwritten_parquet = λ h path. some (record two_records { record_count = 0 });
  delete_parquet = λ h file. some tt;
  create_manifest = λ h file. some (record old_manifest { record_count = file.record_count });
  create_deleted_records_manifest = λ h uuid old. some (dead old);
  create_manifest_list = λ h uuid items. write_manifest_list_file "metadata/list.avro" 5 items;
  create_metadata = λ h files. some tt;
  write_internal_table_metadata = λ h m. some tt;
}

memory-CountsRecords : CountsRecords memory
memory-CountsRecords = record {
  manifest = λ h file m e. ground arith;
  deleted = λ h uuid old m e. ground arith;
  manifest_list = λ h uuid items f e. ("metadata/list.avro", 5, e);
}

memory-FindsBooks : FindsBooks memory
memory-FindsBooks h files f item items e e' e'' =
    let same_files : old_list ∷ [] ≡ files = cc in
    let same_item : old_item ≡ item = cc in
    let no_items : [] ≡ items = cc in rw (← same_files, ← same_item, ← no_items) (omega arith)

memory-Consumes : Consumes memory (λ n. n)
memory-Consumes h (suc (suc l)) l' file metadata e = ground arith
memory-Consumes h l l' file metadata e = ground arith

write-accounts_example : Accounted (history_of (write memory true 3 2 []))
write-accounts_example = write-accounts memory memory-CountsRecords true 3 2 memory-FindsBooks

write-checkpoints_example : Checkpointed memory (history_of (write memory true 3 2 []))
write-checkpoints_example = write-checkpoints memory true 3 2

-- The merge of the old file, of which no record is left.
abbrev no_merge : Merge
no_merge = record {
  existing_manifest_list_items_sorted_desc = [];
  overwritten_manifest_list_files_sorted_asc = [];
  last_sequence_number = 1;
}

abbrev deletion : ManifestListFile
deletion = record {
  sequence_number = 2;
  snapshot_id = 7;
  timestamp_ms = 5;
  path = "metadata/list.avro";
  operation = "delete";
  added_files_size = 0;
  added_data_files = 0;
  added_records = 0;
  removed_files_size = 10;
  deleted_data_files = 1;
  deleted_records = 2;
}

abbrev merged : Merge
merged = record no_merge {
  overwritten_manifest_list_files_sorted_asc = deletion ∷ [];
  last_sequence_number = 2;
}

deletes_old :
    (h' : History) × (delete_existing memory
        (old_item ∷ [])
        "u"
        0
        old_item
        no_parquet_file
        no_merge
        []
      ≡ done merged h')
unfolding delete_existing except write_manifest_list_file stats_by_sequence_number stats_at
    put_stats count_file snapshot_operation
deletes_old = (_, refl)

delete_existing-snapshot_id_example :
    (f : ManifestListFile) × (deletion ∷ [] ≡ [] ++ (f ∷ [])) × (f.snapshot_id ≡ 7)
delete_existing-snapshot_id_example =
    delete_existing-snapshot_id memory (old_item ∷ []) "u" 0 old_item no_parquet_file no_merge
      merged [] deletes_old.0 memory-CountsRecords (λ h uuid old d e. ground arith) deletes_old.1

write_manifest_list_file-Counts_example :
    (deletion.sequence_number ≡ 2)
    × (deletion.snapshot_id ≡ 7)
    × Counts no_stats 2
        (record { sequence_number = 2; manifest_file = dead old_manifest } ∷ [])
        (stats_of deletion)
unfolding write_manifest_list_file stats_by_sequence_number stats_at put_stats count_file
    snapshot_operation
write_manifest_list_file-Counts_example =
    write_manifest_list_file-Counts "metadata/list.avro" 5
      (record { sequence_number = 2; manifest_file = dead old_manifest }) [] deletion refl
