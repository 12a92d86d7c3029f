-- ===== src/Iceberg/Storage.antt =====
-- src/storage_interface.go, StorageInterface, as the writer of a table uses it: the calls that have
-- succeeded are the state, and what the next call returns may depend on all of them. An error of a
-- call ends the process (PanicIfError in src/error_utils.go).
use bemi_db.Prelude.{◌≡◌, refl, ◌⊎◌, inl, inr, String, List, ◌∷◌, Option, none, some}
use bemi_db.Sync.Metadata.{InternalTableMetadata}
use bemi_db.Iceberg.Files.{ParquetFile, ManifestFile, ManifestListItem, ManifestListFile}

pub data Call : Type 0 where
  created_data_dir created_metadata_dir : Call
  created_parquet : ParquetFile → Call
  deleted_parquet : ParquetFile → Call
  created_overwritten_parquet : ParquetFile → Call
  created_manifest : ManifestFile → Call
  created_deleted_records_manifest : ManifestFile → Call
  created_manifest_list : List ManifestListItem → ManifestListFile → Call
  created_metadata : List ManifestListFile → Call
  wrote_internal_table_metadata : InternalTableMetadata → Call

-- The newest call first.
abbrev pub History : Type 0
History = List Call

-- `L` is the state of the closure that loads rows. The directories, columns and thresholds, which
-- the writer passes on, are fixed; none is an error.
pub record Storage (L : Type 0) : Type 0 where
  pub create_data_dir : History → Option {0} Unit
  pub create_metadata_dir : History → Option {0} Unit
  pub existing_manifest_list_files : History → Option (List ManifestListFile)
  pub existing_manifest_list_items : History → ManifestListFile → Option (List ManifestListItem)
  pub existing_parquet_file_path : History → ManifestFile → Option String
  pub create_parquet : History → L → Option (ParquetFile × (InternalTableMetadata × L))
  pub new_merge_duckdb : History → String → Option {0} Unit
  pub create_overwritten_parquet : History → String → Option ParquetFile
  pub delete_parquet : History → ParquetFile → Option {0} Unit
  pub create_manifest : History → ParquetFile → Option ManifestFile
  pub create_deleted_records_manifest : History → String → ManifestFile → Option ManifestFile
  pub create_manifest_list : History → String → List ManifestListItem → Option ManifestListFile
  pub create_metadata : History → List ManifestListFile → Option {0} Unit
  pub write_internal_table_metadata : History → InternalTableMetadata → Option {0} Unit

pub data Stop : Type 0 where
  -- PanicIfError
  exited : Stop
  -- an index out of range
  panicked : Stop
  -- the model has no fuel left
  out_of_fuel : Stop

pub data Run (A : Type 0) : Type 0 where
  done : A → History → Run A
  stopped : Stop → History → Run A

abbrev pub Writes : Type 0 → Type 0
Writes A = History → Run A

abbrev pub follow : {A B : Type 0} → Run A → (A → Writes B) → Run B
follow (done a h) k = k a h
follow (stopped s h) k = stopped s h

infixl 5 ◌>>=◌ ◌>>◌
abbrev pub ◌>>=◌ : {A B : Type 0} → Writes A → (A → Writes B) → Writes B
◌>>=◌ m k h = follow (m h) k

abbrev pub ◌>>◌ : {A B : Type 0} → Writes A → Writes B → Writes B
◌>>◌ m k = m >>= λ _. k

abbrev pub give : {A : Type 0} → A → Writes A
give a h = done a h

abbrev pub stop : {A : Type 0} → Stop → Writes A
stop s h = stopped s h

abbrev pub settled : {A : Type 0} → Option A → Writes A
settled none h = stopped exited h
settled (some a) h = done a h

-- A call that only reads.
abbrev pub ask : {A : Type 0} → (History → Option A) → Writes A
ask f h = settled (f h) h

abbrev pub recorded : {A : Type 0} → Option A → (A → Call) → Writes A
recorded none call h = stopped exited h
recorded (some a) call h = done a (call a ∷ h)

-- A call that changes the storage.
abbrev pub perform : {A : Type 0} → (History → Option A) → (A → Call) → Writes A
perform f call h = recorded (f h) call h

abbrev pub history_of : {A : Type 0} → Run A → History
history_of (done a h) = h
history_of (stopped s h) = h

-- To split on how a run ends and keep the equation.
pub Run-cases :
    {A : Type 0} (r : Run A)
    → ((a : A) × (h : History) × (r ≡ done a h)) ⊎ ((s : Stop) × (h : History) × (r ≡ stopped s h))
Run-cases (done a h) = inl (a, h, refl)
Run-cases (stopped s h) = inr (s, h, refl)
