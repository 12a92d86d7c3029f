-- ===== src/Iceberg/Writer/Accounts/Publishing.antt =====
-- src/iceberg_writer_table.go, Write: each metadata file has the snapshots of its manifests' records.
use bemi_db.Prelude.{
  All-append, ◌≡◌, refl, ℕ, zero, suc, ◌+◌, ◌≤◌, String, List, [], ◌∷◌, ◌++◌, some, Bool, true,
  false, arith, Option-cases, Bool-cases, inl, inr, ◌==◌, nat_eq, ◌&&◌, ◌||◌, ltb,
}
use bemi_db.Sync.Metadata.{InternalTableMetadata, is_in_progress}
use bemi_db.Iceberg.Files.{ParquetFile, ManifestFile, ManifestListItem, ManifestListFile}
use bemi_db.Iceberg.Storage.{
  History, Storage, history_of, Run-cases, created_manifest, created_manifest_list, created_parquet,
  created_metadata, created_data_dir, created_metadata_dir,
}
use bemi_db.Iceberg.Writer.{
  WriteState, Chunk, load_more_rows, finished, item_of, overwrite_existing_files, merge_existing,
  publish, drop_trailing, write_chunk, write_loop, start, read_existing, write, with_parquet,
  last_of,
}
use bemi_db.Iceberg.Writer.Accounts.{
  CountsRecords, live, total_added, total_deleted, Balanced, UpTo, Accounted, Ensures,
  Ensures-follow, Climbs, Climbs-snoc, Climbs-append, live-append, total_added-snoc,
  total_added-append, UpTo-mono, manifest_list-newest,
}
use bemi_db.Iceberg.Writer.Accounts.Merging.{overwrite_existing_files-MergedBy}

-- The snapshots so far are balanced, and no item is newer than the last sequence number.
pub record Books {L : Type 0} (s : WriteState L) : Type 0 where
  pub balance :
      total_added s.final_files_sorted_asc
      ≡ total_deleted s.final_files_sorted_asc
        + live s.new_items_sorted_desc
        + live s.existing_items_sorted_desc
  pub climbs : Climbs 0 s.final_files_sorted_asc s.last_sequence_number
  pub new_up_to : UpTo s.last_sequence_number s.new_items_sorted_desc
  pub existing_up_to : UpTo s.last_sequence_number s.existing_items_sorted_desc

abbrev BooksOf : {L : Type 0} → Chunk L → Type 0
BooksOf (load_more_rows s) = Books s
BooksOf finished = Unit

-- What a continued refresh finds: the snapshots of an earlier refresh, balanced and in order, with
-- the newest item first.
abbrev pub FindsBooks : {L : Type 0} → Storage L → Type 0
FindsBooks storage =
    (h : History) (files : List ManifestListFile) (f : ManifestListFile) (item : ManifestListItem)
    (items : List ManifestListItem)
    → storage.existing_manifest_list_files h ≡ some files
    → last_of files ≡ some f
    → storage.existing_manifest_list_items h f ≡ some (item ∷ items)
    → Balanced files (item ∷ items)
      × Climbs 0 files item.sequence_number
      × UpTo item.sequence_number (item ∷ items)

module _ {L : Type 0} (storage : Storage L) (laws : CountsRecords storage) where
  merge_existing-Books :
      (continued : Bool) (file : ParquetFile) (s : WriteState L) (h : History)
      → Accounted h
      → Books s
      → Ensures (merge_existing storage continued file s h) Books
  unfolding merge_existing
  merge_existing-Books false file s h c b = (c, b)
  merge_existing-Books true file s h c b =
      let n = s.last_sequence_number in
      Ensures-follow
        (overwrite_existing_files storage s.existing_items_sorted_desc file s.first_new_parquet_file
          n h)
        _ _ Books
        (overwrite_existing_files-MergedBy storage laws s.existing_items_sorted_desc file
          s.first_new_parquet_file n h c b.existing_up_to)
        λ m h' c' merged. (
          c',
          record {
            balance = omega (
              arith,
              merged.0,
              b.balance,
              total_added-append s.final_files_sorted_asc
                  m.overwritten_manifest_list_files_sorted_asc,
            );
            climbs =
                Climbs-append 0 n m.last_sequence_number s.final_files_sorted_asc
                  m.overwritten_manifest_list_files_sorted_asc b.climbs merged.1;
            new_up_to =
                UpTo-mono n m.last_sequence_number s.new_items_sorted_desc merged.2 b.new_up_to;
            existing_up_to = merged.3;
          },
        )

  abbrev published : WriteState L → ManifestFile → ManifestListFile → WriteState L
  published s m f = record s {
    last_sequence_number = suc s.last_sequence_number;
    new_items_sorted_desc = item_of (suc s.last_sequence_number) m ∷ s.new_items_sorted_desc;
    final_files_sorted_asc = s.final_files_sorted_asc ++ (f ∷ []);
  }

  abbrev published_items : WriteState L → ManifestFile → List ManifestListItem
  published_items s m =
      (item_of (suc s.last_sequence_number) m ∷ s.new_items_sorted_desc)
      ++ s.existing_items_sorted_desc

  published-Books :
      (s : WriteState L) (file : ParquetFile) (m : ManifestFile) (f : ManifestListFile)
      (h h' : History) (uuid : String)
      → Books s
      → storage.create_manifest h file ≡ some m
      → storage.create_manifest_list h' uuid (published_items s m) ≡ some f
      → (Balanced (s.final_files_sorted_asc ++ (f ∷ [])) (published_items s m)
          × Climbs 0 (s.final_files_sorted_asc ++ (f ∷ [])) (suc s.last_sequence_number))
        × Books (published s m f)
  published-Books s file m f h h' uuid b e e' =
      let n = s.last_sequence_number in
      let new = s.new_items_sorted_desc in
      let existing = s.existing_items_sorted_desc in
      let fresh = laws.manifest h file m e in
      let older =
        All-append (λ item. item.sequence_number ≤ n) new existing b.new_up_to b.existing_up_to in
      let newest = manifest_list-newest storage h' uuid n m (new ++ existing) f laws e' older in
      let snoc = total_added-snoc s.final_files_sorted_asc f in
      let added : f.added_records ≡ m.record_count = ground arith in
      let deleted : f.deleted_records ≡ 0 = ground arith in
      let climbs = Climbs-snoc 0 n s.final_files_sorted_asc f b.climbs newest.2 in
      (
        (omega (arith, b.balance, live-append new existing), climbs),
        record {
          balance = omega (arith, b.balance);
          climbs = climbs;
          new_up_to = (omega arith, UpTo-mono n (suc n) new (omega arith) b.new_up_to);
          existing_up_to = UpTo-mono n (suc n) existing (omega arith) b.existing_up_to;
        },
      )

  publish-Books :
      (continued : Bool) (file : ParquetFile) (metadata : InternalTableMetadata) (s : WriteState L)
      (h : History)
      → Accounted h
      → Books s
      → Ensures (publish storage continued file metadata s h) BooksOf
  unfolding publish
  publish-Books continued file metadata s h c b =
      let n = s.last_sequence_number in
      elim (Option-cases (storage.create_manifest h file)) [
        | inl e ↦ rw e c
        | inr (m, e) ↦
            let h' = created_manifest m ∷ h in
            let uuid = s.first_new_parquet_file.uuid in
            elim (Option-cases (storage.create_manifest_list h' uuid (published_items s m))) [
              | inl e' ↦ rw (e, e') c
              | inr (f, e') ↦
                  let (balanced, books) = published-Books s file m f h h' uuid b e e' in
                  let h'' = created_manifest_list (published_items s m) f ∷ h' in
                  let files = s.final_files_sorted_asc ++ (f ∷ []) in
                  elim (Option-cases (storage.create_metadata h'' files)) [
                    | inl wrote ↦ rw (e, e', wrote) c
                    | inr (tt, wrote) ↦
                        elim (Option-cases (
                          storage.write_internal_table_metadata (created_metadata files ∷ h'')
                            metadata)) [
                              | inl saved ↦ rw (e, e', wrote, saved) (balanced, c)
                              | inr (tt, saved) ↦ elim (Bool-cases (is_in_progress metadata)) [
                                | inl more ↦ rw (e, e', wrote, saved, more) ((balanced, c), books)
                                | inr last ↦ rw (e, e', wrote, saved, last) ((balanced, c), tt)
                              ]
                            ]
                  ]
            ]
      ]

  drop_trailing-Books :
      (continued : Bool) (file : ParquetFile) (metadata : InternalTableMetadata) (h : History)
      → Accounted h
      → Ensures (drop_trailing storage continued file metadata h) BooksOf
  unfolding drop_trailing
  drop_trailing-Books continued file metadata h c = ground arith

  write_chunk-Books :
      (continued : Bool) (s : WriteState L) (h : History)
      → Accounted h
      → Books s
      → Ensures (write_chunk storage continued s h) BooksOf
  unfolding write_chunk
  write_chunk-Books continued s h c b = elim (Option-cases (storage.create_parquet h s.loader)) [
    | inl e ↦ rw e c
    | inr ((file, (metadata, loader)), e) ↦
        let h' = created_parquet file ∷ h in
        let s' = with_parquet storage continued file loader s in
        let b' : Books s' = record {
          balance = b.balance;
          climbs = b.climbs;
          new_up_to = b.new_up_to;
          existing_up_to = b.existing_up_to;
        } in
        elim (Bool-cases (file.record_count == 0 && (continued || ltb 0 s.new_parquet_count))) [
          | inl trailing ↦ rw (e, trailing) (drop_trailing-Books continued file metadata h' c)
          | inr kept ↦
              rw (e, kept)
                (Ensures-follow (merge_existing storage continued file s' h')
                  (λ s''. publish storage continued file metadata s'') Books BooksOf
                  (merge_existing-Books continued file s' h' c b')
                  (λ s'' h'' c' b''. publish-Books continued file metadata s'' h'' c' b''))
        ]
  ]

  write_loop-Books :
      (continued : Bool) (fuel : ℕ) (s : WriteState L) (h : History)
      → Accounted h
      → Books s
      → Accounted (history_of (write_loop storage continued fuel s h))
  unfolding write_loop
  write_loop-Books continued zero s h c b = c
  write_loop-Books continued (suc fuel) s h c b =
      let kept = write_chunk-Books continued s h c b in
      elim (Run-cases (write_chunk storage continued s h)) [
        | inl (finished, h', e) ↦ rw e ((rw e at kept).0)
        | inl (load_more_rows s', h', e) ↦
            let now = rw e at kept in rw e (write_loop-Books continued fuel s' h' now.0 now.1)
        | inr (stop, h', e) ↦ rw e (rw e at kept)
      ]

  start-Books :
      (continued : Bool) (loader : L) (h : History)
      → FindsBooks storage
      → Accounted h
      → Ensures (start storage continued loader h) Books
  unfolding start read_existing
  start-Books false loader h finds c =
      (c, record { balance = refl; climbs = omega arith; new_up_to = tt; existing_up_to = tt })
  start-Books true loader h finds c = elim (Option-cases (storage.existing_manifest_list_files h)) [
    | inl e ↦ rw e c
    | inr (files, e) ↦ elim (Option-cases (last_of files)) [
      | inl e' ↦ rw (e, e') c
      | inr (f, e') ↦ elim (Option-cases (storage.existing_manifest_list_items h f)) [
        | inl e'' ↦ rw (e, e', e'') c
        | inr ([], e'') ↦ rw (e, e', e'') c
        | inr (item ∷ items, e'') ↦
            let found = finds h files f item items e e' e'' in
            rw (e, e', e'')
              (
                c,
                record {
                  balance = omega (arith, found.0);
                  climbs = found.1;
                  new_up_to = tt;
                  existing_up_to = found.2;
                },
              )
      ]
    ]
  ]

  -- When the storage counts records, and a continued refresh finds the snapshots of an earlier one
  -- in order and with the newest item first, then in each metadata file that is written, wherever
  -- the write stops, the sequence numbers of the snapshots rise, up to that of the newest manifest,
  -- and the records that the snapshots add are those that they delete and those of the manifests in
  -- the last manifest list.
  pub write-accounts :
      (continued : Bool) (fuel : ℕ) (loader : L)
      → FindsBooks storage
      → Accounted (history_of (write storage continued fuel loader []))
  unfolding write
  write-accounts continued fuel loader finds = elim (Option-cases (storage.create_data_dir [])) [
    | inl e ↦ rw e tt
    | inr (tt, e) ↦
        let h = created_data_dir ∷ [] in
        elim (Option-cases (storage.create_metadata_dir h)) [
          | inl e' ↦ rw (e, e') tt
          | inr (tt, e') ↦
              let h' = created_metadata_dir ∷ h in
              let kept = start-Books continued loader h' finds tt in
              elim (Run-cases (start storage continued loader h')) [
                | inl (s, h'', e'') ↦
                    let now = rw e'' at kept in
                    rw (e, e', e'') (write_loop-Books continued fuel s h'' now.0 now.1)
                | inr (stop, h'', e'') ↦ rw (e, e', e'') (rw e'' at kept)
              ]
        ]
  ]
