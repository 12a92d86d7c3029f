-- ===== src/Iceberg/Writer.antt =====
-- src/iceberg_writer_table.go: Write and overwriteExistingFiles.
pub mod Accounts
pub mod Checkpoints
pub mod Deletion
pub mod Termination
use bemi_db.Prelude.{
  ℕ, zero, suc, ◌+◌, String, List, [], ◌∷◌, ◌++◌, Option, none, some, Bool, true, false, ◌==◌,
  nat_eq, string_eq, ◌&&◌, ◌||◌, ltb, if◌then◌else◌, length,
}
use mathlib.Core.List.{reverse}
use bemi_db.Sync.Metadata.{InternalTableMetadata, is_in_progress}
use bemi_db.Iceberg.Files.{
  ParquetFile, no_parquet_file, ManifestFile, ManifestListItem, ManifestListFile,
}
use bemi_db.Iceberg.Storage.{
  Call, created_data_dir, created_metadata_dir, created_parquet, deleted_parquet,
  created_overwritten_parquet, created_manifest, created_deleted_records_manifest,
  created_manifest_list, created_metadata, wrote_internal_table_metadata, Storage, Stop, panicked,
  out_of_fuel, Writes, ◌>>=◌, ◌>>◌, give, stop, ask, perform,
}

-- The results of overwriteExistingFiles, as far as its loop has come.
pub record Merge : Type 0 where
  pub existing_manifest_list_items_sorted_desc : List ManifestListItem
  pub overwritten_manifest_list_files_sorted_asc : List ManifestListFile
  pub last_sequence_number : ℕ

-- The variables of Write.
pub record WriteState (L : Type 0) : Type 0 where
  pub last_sequence_number : ℕ
  pub new_items_sorted_desc : List ManifestListItem
  pub existing_items_sorted_desc : List ManifestListItem
  pub final_files_sorted_asc : List ManifestListFile
  pub first_new_parquet_file : ParquetFile
  pub new_parquet_count : ℕ
  pub loader : L

pub data Chunk (L : Type 0) : Type 0 where
  load_more_rows : WriteState L → Chunk L
  finished : Chunk L

-- `if i != j { append }`, over a list.
unfoldable pub except : {A : Type 0} → ℕ → List A → List A
except i [] = []
except zero (x ∷ xs) = xs
except (suc i) (x ∷ xs) = x ∷ except i xs

abbrev pub item_of : ℕ → ManifestFile → ManifestListItem
item_of n manifest = record { sequence_number = n; manifest_file = manifest }

abbrev pub first_parquet : ParquetFile → ParquetFile → ParquetFile
first_parquet first new = if first.path == "" then new else first

-- `list[len(list)-1]`
abbrev pub last_of : {A : Type 0} → List A → Option A
last_of [] = none
last_of (x ∷ []) = some x
last_of (x ∷ y ∷ xs) = last_of (y ∷ xs)

module _ {L : Type 0} (storage : Storage L) where
  abbrev pub put_manifest : ParquetFile → Writes ManifestFile
  put_manifest file = perform (λ h. storage.create_manifest h file) created_manifest

  abbrev pub put_deleted : String → ManifestFile → Writes ManifestFile
  put_deleted uuid manifest =
      perform (λ h. storage.create_deleted_records_manifest h uuid manifest)
        created_deleted_records_manifest

  abbrev pub put_manifest_list : String → List ManifestListItem → Writes ManifestListFile
  put_manifest_list uuid items =
      perform (λ h. storage.create_manifest_list h uuid items) (created_manifest_list items)

  abbrev pub put_metadata : List ManifestListFile → Writes Unit
  put_metadata files = perform (λ h. storage.create_metadata h files) (λ _. created_metadata files)

  abbrev pub put_internal : InternalTableMetadata → Writes Unit
  put_internal m =
      perform (λ h. storage.write_internal_table_metadata h m)
        (λ _. wrote_internal_table_metadata m)

  -- No row of the file is left.
  unfoldable pub delete_existing :
      List ManifestListItem → String → ℕ → ManifestListItem → ParquetFile → Merge → Writes Merge
  delete_existing original_asc first_uuid i item file merge = do
    deleted ← put_deleted file.uuid item.manifest_file
    let last = suc merge.last_sequence_number
    list ←
        put_manifest_list first_uuid
          (reverse (except i original_asc ++ (item_of last deleted ∷ [])))
    give (record merge {
      overwritten_manifest_list_files_sorted_asc =
          merge.overwritten_manifest_list_files_sorted_asc ++ (list ∷ []);
      last_sequence_number = last;
    })

  -- Some rows of the file are left.
  unfoldable pub update_existing : String → ManifestListItem → ParquetFile → Merge → Writes Merge
  update_existing first_uuid item file merge = do
    deleted ← put_deleted file.uuid item.manifest_file
    overwritten ← put_manifest file
    let last = suc merge.last_sequence_number
    list ← put_manifest_list first_uuid (item_of last overwritten ∷ item_of last deleted ∷ [])
    give (record {
      existing_manifest_list_items_sorted_desc =
          item_of last overwritten ∷ merge.existing_manifest_list_items_sorted_desc;
      overwritten_manifest_list_files_sorted_asc =
          merge.overwritten_manifest_list_files_sorted_asc ++ (list ∷ []);
      last_sequence_number = last;
    })

  -- One existing file.
  unfoldable pub overwrite_item :
      List ManifestListItem → String → ℕ → ManifestListItem → Merge → Writes Merge
  overwrite_item original_asc first_uuid i item merge = do
    path ← ask (λ h. storage.existing_parquet_file_path h item.manifest_file)
    file ← perform (λ h. storage.create_overwritten_parquet h path) created_overwritten_parquet
    if file.path == ""
        then give (record merge {
          existing_manifest_list_items_sorted_desc =
              item ∷ merge.existing_manifest_list_items_sorted_desc;
        })
        else if file.record_count == 0
        then delete_existing original_asc first_uuid i item file merge
        else update_existing first_uuid item file merge

  unfoldable pub overwrite_items :
      List ManifestListItem → String → ℕ → List ManifestListItem → Merge → Writes Merge
  overwrite_items original_asc first_uuid i [] merge = give merge
  overwrite_items original_asc first_uuid i (item ∷ items) merge = do
    merge' ← overwrite_item original_asc first_uuid i item merge
    overwrite_items original_asc first_uuid (suc i) items merge'

  unfoldable pub overwrite_existing_files :
      List ManifestListItem → ParquetFile → ParquetFile → ℕ → Writes Merge
  overwrite_existing_files original_desc new_parquet_file first_new_parquet_file last = do
    ask (λ h. storage.new_merge_duckdb h new_parquet_file.path)
    overwrite_items (reverse original_desc) first_new_parquet_file.uuid 0 (reverse original_desc)
        record {
          existing_manifest_list_items_sorted_desc = [];
          overwritten_manifest_list_files_sorted_asc = [];
          last_sequence_number = last;
        }

  abbrev pub starting : L → WriteState L
  starting loader = record {
    last_sequence_number = 0;
    new_items_sorted_desc = [];
    existing_items_sorted_desc = [];
    final_files_sorted_asc = [];
    first_new_parquet_file = no_parquet_file;
    new_parquet_count = 0;
    loader = loader;
  }

  -- `existing...[0].SequenceNumber`
  abbrev pub continuing : L → List ManifestListFile → List ManifestListItem → Writes (WriteState L)
  continuing loader files [] = stop panicked
  continuing loader files (item ∷ items) = give (record (starting loader) {
    last_sequence_number = item.sequence_number;
    existing_items_sorted_desc = item ∷ items;
    final_files_sorted_asc = files;
  })

  abbrev pub continuing_from :
      L → List ManifestListFile → Option ManifestListFile → Writes (WriteState L)
  continuing_from loader files none = stop panicked
  continuing_from loader files (some file) = do
    items ← ask (λ h. storage.existing_manifest_list_items h file)
    continuing loader files items

  -- The files and the items of the last manifest list, which a continued refresh starts from.
  unfoldable pub read_existing : L → Writes (WriteState L)
  read_existing loader = do
    files ← ask storage.existing_manifest_list_files
    continuing_from loader files (last_of files)

  module _ (continued_refresh : Bool) where
    -- The merge with the existing files, in a refresh that is continued.
    unfoldable pub merge_existing : ParquetFile → WriteState L → Writes (WriteState L)
    merge_existing file s =
        if continued_refresh
        then (do
          merge ←
              overwrite_existing_files s.existing_items_sorted_desc file s.first_new_parquet_file
                s.last_sequence_number
          give (record s {
            existing_items_sorted_desc = merge.existing_manifest_list_items_sorted_desc;
            final_files_sorted_asc =
                s.final_files_sorted_asc ++ merge.overwritten_manifest_list_files_sorted_asc;
            last_sequence_number = merge.last_sequence_number;
          }))
        else give s

    -- The manifest, the manifest list, the metadata and the checkpoint of a new file.
    unfoldable pub publish : ParquetFile → InternalTableMetadata → WriteState L → Writes (Chunk L)
    publish file metadata s = do
      manifest ← put_manifest file
      let last = suc s.last_sequence_number
      let new_items = item_of last manifest ∷ s.new_items_sorted_desc
      list ←
          put_manifest_list s.first_new_parquet_file.uuid
            (new_items ++ s.existing_items_sorted_desc)
      let files = s.final_files_sorted_asc ++ (list ∷ [])
      put_metadata files
      put_internal metadata
      give (
          if is_in_progress metadata
          then load_more_rows (record s {
            last_sequence_number = last;
            new_items_sorted_desc = new_items;
            final_files_sorted_asc = files;
          })
          else finished)

    -- A trailing empty file.
    unfoldable pub drop_trailing : ParquetFile → InternalTableMetadata → Writes (Chunk L)
    drop_trailing file metadata = do
      perform (λ h. storage.delete_parquet h file) (λ _. deleted_parquet file)
      put_internal metadata
      give finished

    abbrev pub with_parquet : ParquetFile → L → WriteState L → WriteState L
    with_parquet file loader s = record s {
      new_parquet_count = suc s.new_parquet_count;
      first_new_parquet_file = first_parquet s.first_new_parquet_file file;
      loader = loader;
    }

    -- One turn of the loop.
    unfoldable pub write_chunk : WriteState L → Writes (Chunk L)
    write_chunk s = do
      (file, (metadata, loader)) ←
          perform (λ h. storage.create_parquet h s.loader) (λ r. created_parquet r.0)
      if file.record_count == 0 && (continued_refresh || ltb 0 s.new_parquet_count)
          then drop_trailing file metadata
          else (do s' ← merge_existing file (with_parquet file loader s); publish file metadata s')

    unfoldable pub write_loop : ℕ → WriteState L → Writes Unit
    write_loop zero s = stop out_of_fuel
    write_loop (suc fuel) s = do
      chunk ← write_chunk s
      elim chunk [ finished ↦ give tt | load_more_rows s' ↦ write_loop fuel s' ]

    unfoldable pub start : L → Writes (WriteState L)
    start loader = if continued_refresh then read_existing loader else give (starting loader)

    unfoldable pub write : ℕ → L → Writes Unit
    write fuel loader = do
      perform storage.create_data_dir (λ _. created_data_dir)
      perform storage.create_metadata_dir (λ _. created_metadata_dir)
      s ← start loader
      write_loop fuel s
