-- ===== src/Iceberg/Writer/Checkpoints.antt =====
-- src/iceberg_writer_table.go: when the checkpoint of a table is written.
use bemi_db.Prelude.{
  ◌≡◌, refl, ◌==◌, ◌&&◌, ◌||◌, ltb, ℕ, zero, suc, String, List, [], ◌∷◌, ◌++◌, some, Bool, true,
  false, arith, Option-cases, Bool-cases, inl, inr, nat_eq, string_eq,
}
use mathlib.Core.List.{reverse}
use bemi_db.Sync.Metadata.{InternalTableMetadata}
use bemi_db.Iceberg.Files.{ParquetFile, ManifestListItem}
use bemi_db.Iceberg.Storage.{
  History, Storage, Run, history_of, created_manifest_list, created_metadata, created_manifest,
  created_data_dir, created_metadata_dir, created_overwritten_parquet,
  created_deleted_records_manifest, created_parquet, deleted_parquet, Run-cases,
  wrote_internal_table_metadata,
}
use bemi_db.Iceberg.Writer.{
  Merge, WriteState, load_more_rows, finished, last_of, delete_existing, update_existing,
  overwrite_item, overwrite_items, overwrite_existing_files, read_existing, merge_existing, publish,
  drop_trailing, write_chunk, write_loop, write, with_parquet, start, item_of,
}

last_of-snoc : {A : Type 0} (xs : List A) (x : A) → last_of (xs ++ (x ∷ [])) ≡ some x
last_of-snoc [] x = refl
last_of-snoc (y ∷ []) x = refl
last_of-snoc (y ∷ z ∷ xs) x = last_of-snoc (z ∷ xs) x

module _ {L : Type 0} (storage : Storage L) where
  -- The newest Parquet file of loaded rows is this one, and its rows came with this checkpoint.
  abbrev pub Loaded : InternalTableMetadata → ParquetFile → History → Type 0
  Loaded metadata file (created_parquet f ∷ h) =
      (f ≡ file)
      × ((before : L) × (after : L) × (storage.create_parquet h before
            ≡ some (file, (metadata, after))))
  Loaded metadata file (created_overwritten_parquet f ∷ h) = Loaded metadata file h
  Loaded metadata file (created_manifest manifest ∷ h) = Loaded metadata file h
  Loaded metadata file (created_deleted_records_manifest manifest ∷ h) = Loaded metadata file h
  Loaded metadata file (created_manifest_list items list ∷ h) = Loaded metadata file h
  Loaded metadata file _ = ⊥

  -- The last calls have written the manifest of the Parquet file whose rows came with the checkpoint,
  -- a manifest list with that manifest at its head, and a table metadata file whose last snapshot is
  -- that list; or they have deleted the Parquet file that came with the checkpoint, which is empty.
  abbrev pub Published : InternalTableMetadata → History → Type 0
  Published metadata
        (created_metadata files
          ∷ created_manifest_list (item ∷ items) list
          ∷ created_manifest manifest
          ∷ h) =
      (last_of files ≡ some list)
      × (item.manifest_file ≡ manifest)
      × ((file : ParquetFile) × (storage.create_manifest h file ≡ some manifest)
          × Loaded metadata file h)
  Published metadata (deleted_parquet file ∷ h) = (file.record_count ≡ 0) × Loaded metadata file h
  Published metadata _ = ⊥

  -- Each checkpoint that was written follows the writing of its data.
  abbrev pub Checkpointed : History → Type 0
  Checkpointed [] = Unit
  Checkpointed (wrote_internal_table_metadata m ∷ h) = Published m h × Checkpointed h
  Checkpointed (call ∷ h) = Checkpointed h

  -- Whether it returns or stops, the calls so far are checkpointed.
  abbrev Keeps : {A : Type 0} → Run A → Type 0
  Keeps r = Checkpointed (history_of r)

  -- The merge with the existing files leaves the file that was loaded.
  module _ (metadata : InternalTableMetadata) (file : ParquetFile) where
    abbrev Merging : History → Type 0
    Merging h = Checkpointed h × Loaded metadata file h

    abbrev Merges : {A : Type 0} → Run A → Type 0
    Merges r = Merging (history_of r)

    delete_existing-Merges :
        (original : List ManifestListItem) (uuid : String) (i : ℕ) (item : ManifestListItem)
        (left : ParquetFile) (merge : Merge) (h : History)
        → Merging h
        → Merges (delete_existing storage original uuid i item left merge h)
    unfolding delete_existing
    delete_existing-Merges original uuid i item left merge h c = ground arith

    update_existing-Merges :
        (uuid : String) (item : ManifestListItem) (left : ParquetFile) (merge : Merge) (h : History)
        → Merging h
        → Merges (update_existing storage uuid item left merge h)
    unfolding update_existing
    update_existing-Merges uuid item left merge h c = ground arith

    overwrite_item-Merges :
        (original : List ManifestListItem) (uuid : String) (i : ℕ) (item : ManifestListItem)
        (merge : Merge) (h : History)
        → Merging h
        → Merges (overwrite_item storage original uuid i item merge h)
    unfolding overwrite_item
    overwrite_item-Merges original uuid i item merge h c =
        elim (Option-cases (storage.existing_parquet_file_path h item.manifest_file)) [
          | inl e ↦ ground arith
          | inr (path, e) ↦ elim (Option-cases (storage.create_overwritten_parquet h path)) [
            | inl e' ↦ ground arith
            | inr (left, e') ↦
                let h' = created_overwritten_parquet left ∷ h in
                ground (
                  arith,
                  delete_existing-Merges original uuid i item left merge h' c,
                  update_existing-Merges uuid item left merge h' c,
                )
          ]
        ]

    overwrite_items-Merges :
        (items original : List ManifestListItem) (uuid : String) (i : ℕ) (merge : Merge)
        (h : History)
        → Merging h
        → Merges (overwrite_items storage original uuid i items merge h)
    unfolding overwrite_items
    overwrite_items-Merges [] original uuid i merge h c = c
    overwrite_items-Merges (item ∷ items) original uuid i merge h c =
        let kept = overwrite_item-Merges original uuid i item merge h c in
        elim (Run-cases (overwrite_item storage original uuid i item merge h)) [
          | inl (merge', h', e) ↦
              rw e (overwrite_items-Merges items original uuid (suc i) merge' h' (rw e at kept))
          | inr (s, h', e) ↦ rw e (rw e at kept)
        ]

    merge_existing-Merges :
        (continued : Bool) (new : ParquetFile) (s : WriteState L) (h : History)
        → Merging h
        → Merges (merge_existing storage continued new s h)
    unfolding merge_existing overwrite_existing_files
    merge_existing-Merges false new s h c = c
    merge_existing-Merges true new s h c =
        let original = reverse s.existing_items_sorted_desc in
        ground (
          arith,
          overwrite_items-Merges original original s.first_new_parquet_file.uuid 0
              record {
                existing_manifest_list_items_sorted_desc = [];
                overwritten_manifest_list_files_sorted_asc = [];
                last_sequence_number = s.last_sequence_number;
              }
              h c,
        )

  publish-Keeps :
      (continued : Bool) (file : ParquetFile) (metadata : InternalTableMetadata) (s : WriteState L)
      (h : History)
      → Merging metadata file h
      → Keeps (publish storage continued file metadata s h)
  unfolding publish
  publish-Keeps continued file metadata s h c =
      elim (Option-cases (storage.create_manifest h file)) [
        | inl e ↦ ground arith
        | inr (manifest, e) ↦
            let items =
              item_of (suc s.last_sequence_number) manifest ∷ s.new_items_sorted_desc
              ++ s.existing_items_sorted_desc in
            elim (Option-cases (
              storage.create_manifest_list (created_manifest manifest ∷ h)
                s.first_new_parquet_file.uuid items)) [
                  | inl e' ↦ ground arith
                  | inr (list, e') ↦
                      let published : Published metadata (
                          created_metadata (s.final_files_sorted_asc ++ (list ∷ []))
                          ∷ created_manifest_list items list
                          ∷ created_manifest manifest
                          ∷ h) =
                        (last_of-snoc s.final_files_sorted_asc list, refl, (file, e, c.1)) in
                      ground (arith, published)
                ]
      ]

  drop_trailing-Keeps :
      (continued : Bool) (file : ParquetFile) (metadata : InternalTableMetadata) (h : History)
      → file.record_count ≡ 0
      → Merging metadata file h
      → Keeps (drop_trailing storage continued file metadata h)
  unfolding drop_trailing
  drop_trailing-Keeps continued file metadata h empty c = ground arith

  write_chunk-Keeps :
      (continued : Bool) (s : WriteState L) (h : History)
      → Checkpointed h
      → Keeps (write_chunk storage continued s h)
  unfolding write_chunk
  write_chunk-Keeps continued s h c = elim (Option-cases (storage.create_parquet h s.loader)) [
    | inl e ↦ ground arith
    | inr ((file, (metadata, loader)), e) ↦
        let h' = created_parquet file ∷ h in
        let c' : Merging metadata file h' = (c, (refl, (s.loader, loader, e))) in
        let merged =
          merge_existing-Merges metadata file continued file
            (with_parquet storage continued file loader s) h' c' in
        elim (Bool-cases (file.record_count == 0 && (continued || ltb 0 s.new_parquet_count))) [
          | inl empty ↦
              ground (arith, drop_trailing-Keeps continued file metadata h' (ground arith) c')
          | inr full ↦
              elim (Run-cases (
                merge_existing storage continued file (with_parquet storage continued file loader s)
                  h')) [
                    | inl (s', h'', e') ↦
                        ground
                          (arith, publish-Keeps continued file metadata s' h'' (rw e' at merged))
                    | inr (stop, h'', e') ↦ ground (arith, merged)
                  ]
        ]
  ]

  write_loop-Keeps :
      (continued : Bool) (fuel : ℕ) (s : WriteState L) (h : History)
      → Checkpointed h
      → Keeps (write_loop storage continued fuel s h)
  unfolding write_loop
  write_loop-Keeps continued zero s h c = c
  write_loop-Keeps continued (suc fuel) s h c =
      let kept = write_chunk-Keeps continued s h c in
      elim (Run-cases (write_chunk storage continued s h)) [
        | inl (finished, h', e) ↦ rw e (rw e at kept)
        | inl (load_more_rows s', h', e) ↦
            rw e (write_loop-Keeps continued fuel s' h' (rw e at kept))
        | inr (stop, h', e) ↦ rw e (rw e at kept)
      ]

  start-Keeps :
      (continued : Bool) (loader : L) (h : History)
      → Checkpointed h
      → Keeps (start storage continued loader h)
  unfolding start read_existing
  start-Keeps false loader h c = c
  start-Keeps true loader h c = ground arith

  -- Whatever the storage answers, and wherever the write stops, each checkpoint of the table was
  -- written right after the data that it came with: after a metadata file whose last snapshot is the
  -- manifest list written just before it, with the manifest at its head that was written just before
  -- that for the Parquet file that came with the checkpoint; or after the deletion of that Parquet
  -- file, which has no records.
  pub write-checkpoints :
      (continued : Bool) (fuel : ℕ) (loader : L)
      → Checkpointed (history_of (write storage continued fuel loader []))
  unfolding write
  write-checkpoints continued fuel loader = elim (Option-cases (storage.create_data_dir [])) [
    | inl e ↦ ground arith
    | inr (tt, e) ↦
        let h = created_data_dir ∷ [] in
        elim (Option-cases (storage.create_metadata_dir h)) [
          | inl e' ↦ ground arith
          | inr (tt, e') ↦
              let h' = created_metadata_dir ∷ h in
              let kept = start-Keeps continued loader h' tt in
              elim (Run-cases (start storage continued loader h')) [
                | inl (s, h'', e'') ↦
                    ground (arith, write_loop-Keeps continued fuel s h'' (rw e'' at kept))
                | inr (stop, h'', e'') ↦ ground (arith, kept)
              ]
        ]
  ]
