-- ===== src/Iceberg/Writer/Accounts/Merging.antt =====
-- src/iceberg_writer_table.go, overwriteExistingFiles: the records that a merge adds and deletes.
use bemi_db.Prelude.{
  ◌≡◌, ℕ, suc, ◌+◌, ◌≤◌, String, List, [], ◌∷◌, ◌++◌, some, true, arith, Option-cases, Bool-cases,
  inl, inr, ◌==◌, nat_eq, string_eq,
}
use mathlib.Core.List.{reverse}
use bemi_db.Iceberg.Files.{ParquetFile, ManifestFile, ManifestListItem, ManifestListFile}
use bemi_db.Iceberg.Storage.{
  History, Storage, created_overwritten_parquet, created_deleted_records_manifest, created_manifest,
}
use bemi_db.Iceberg.Writer.{
  Merge, item_of, except, delete_existing, update_existing, overwrite_item, overwrite_items,
  overwrite_existing_files,
}
use bemi_db.Iceberg.Writer.Accounts.{
  CountsRecords, live, total_added, total_deleted, UpTo, Accounted, Ensures, Ensures-follow,
  Ensures-weaken, total_added-snoc, UpTo-mono, UpTo-reverse, UpTo-except, live-reverse,
  reverse-snoc, manifest_list-newest, manifest_list-pair, Climbs, Climbs-snoc,
}

-- The merge of `items` leads from `m` to `m'`: the new snapshots add what the new manifests have,
-- and delete what is gone.
pub record MergedBy (m : Merge) (items : List ManifestListItem) (m' : Merge) : Type 0 where
  pub balance :
      total_added m'.overwritten_manifest_list_files_sorted_asc
        + total_deleted m.overwritten_manifest_list_files_sorted_asc
        + live m.existing_manifest_list_items_sorted_desc
        + live items
      ≡ total_added m.overwritten_manifest_list_files_sorted_asc
        + total_deleted m'.overwritten_manifest_list_files_sorted_asc
        + live m'.existing_manifest_list_items_sorted_desc
  pub later : m.last_sequence_number ≤ m'.last_sequence_number
  pub up_to : UpTo m'.last_sequence_number m'.existing_manifest_list_items_sorted_desc
  pub climbs :
      (n : ℕ)
      → Climbs n m.overwritten_manifest_list_files_sorted_asc m.last_sequence_number
      → Climbs n m'.overwritten_manifest_list_files_sorted_asc m'.last_sequence_number

module _ {L : Type 0} (storage : Storage L) (laws : CountsRecords storage) where
  delete_balance :
      (original : List ManifestListItem) (uuid : String) (i : ℕ) (item : ManifestListItem)
      (m : Merge) (d : ManifestFile) (f : ManifestListFile) (h : History)
      → (d.records_deleted ≡ true) × (d.record_count ≡ item.manifest_file.record_count)
      → UpTo m.last_sequence_number original
      → UpTo m.last_sequence_number m.existing_manifest_list_items_sorted_desc
      → storage.create_manifest_list h uuid
          (item_of (suc m.last_sequence_number) d ∷ reverse (except i original))
        ≡ some f
      → MergedBy m (item ∷ []) (record m {
        overwritten_manifest_list_files_sorted_asc =
            m.overwritten_manifest_list_files_sorted_asc ++ (f ∷ []);
        last_sequence_number = suc m.last_sequence_number;
      })
  delete_balance original uuid i item m d f h dead old up e =
      let n = m.last_sequence_number in
      let rest = UpTo-reverse n (except i original) (UpTo-except n i original old) in
      let newest =
        manifest_list-newest storage h uuid n d (reverse (except i original)) f laws e rest in
      let snoc = total_added-snoc m.overwritten_manifest_list_files_sorted_asc f in
      record {
        balance = ground arith;
        later = omega arith;
        up_to = UpTo-mono n (suc n) m.existing_manifest_list_items_sorted_desc (omega arith) up;
        climbs = λ k c. Climbs-snoc k n m.overwritten_manifest_list_files_sorted_asc f c newest.2;
      }

  delete_existing-MergedBy :
      (original : List ManifestListItem) (uuid : String) (i : ℕ) (item : ManifestListItem)
      (file : ParquetFile) (m : Merge) (h : History)
      → Accounted h
      → UpTo m.last_sequence_number original
      → UpTo m.last_sequence_number m.existing_manifest_list_items_sorted_desc
      → Ensures (delete_existing storage original uuid i item file m h) (MergedBy m (item ∷ []))
  unfolding delete_existing
  delete_existing-MergedBy original uuid i item file m h c old up =
      let n = suc m.last_sequence_number in
      elim (Option-cases (storage.create_deleted_records_manifest h file.uuid item.manifest_file)) [
        | inl e ↦ rw e c
        | inr (d, e) ↦
            let h' = created_deleted_records_manifest d ∷ h in
            let items = reverse (except i original ++ (item_of n d ∷ [])) in
            elim (Option-cases (storage.create_manifest_list h' uuid items)) [
              | inl e' ↦ rw (e, e') c
              | inr (f, e') ↦
                  rw (e, e')
                    (
                      c,
                      delete_balance original uuid i item m d f h'
                          (laws.deleted h file.uuid item.manifest_file d e) old up
                          (rw (reverse-snoc (except i original) (item_of n d)) at e'),
                    )
            ]
      ]

  update_existing-MergedBy :
      (uuid : String) (item : ManifestListItem) (file : ParquetFile) (m : Merge) (h : History)
      → Accounted h
      → UpTo m.last_sequence_number m.existing_manifest_list_items_sorted_desc
      → Ensures (update_existing storage uuid item file m h) (MergedBy m (item ∷ []))
  unfolding update_existing
  update_existing-MergedBy uuid item file m h c up =
      let n = suc m.last_sequence_number in
      elim (Option-cases (storage.create_deleted_records_manifest h file.uuid item.manifest_file)) [
        | inl e ↦ rw e c
        | inr (d, e) ↦
            let h' = created_deleted_records_manifest d ∷ h in
            elim (Option-cases (storage.create_manifest h' file)) [
              | inl e' ↦ rw (e, e') c
              | inr (new, e') ↦
                  let h'' = created_manifest new ∷ h' in
                  elim (Option-cases
                    (storage.create_manifest_list h'' uuid (item_of n new ∷ item_of n d ∷ []))) [
                      | inl e'' ↦ rw (e, e', e'') c
                      | inr (f, e'') ↦
                          let dead = laws.deleted h file.uuid item.manifest_file d e in
                          let fresh = laws.manifest h' file new e' in
                          let pair =
                            manifest_list-pair storage h'' uuid n new d f laws e'' fresh.0 dead.0 in
                          let snoc =
                            total_added-snoc m.overwritten_manifest_list_files_sorted_asc f in
                          let older =
                            UpTo-mono m.last_sequence_number n
                              m.existing_manifest_list_items_sorted_desc (omega arith) up in
                          rw (e, e', e'')
                            (
                              c,
                              record {
                                balance = ground arith;
                                later = omega arith;
                                up_to = (omega arith, older);
                                climbs = λ k c.
                                    Climbs-snoc k m.last_sequence_number
                                      m.overwritten_manifest_list_files_sorted_asc f c pair.2;
                              },
                            )
                    ]
            ]
      ]

  overwrite_item-MergedBy :
      (original : List ManifestListItem) (uuid : String) (i : ℕ) (item : ManifestListItem)
      (m : Merge) (h : History)
      → Accounted h
      → UpTo m.last_sequence_number original
      → UpTo m.last_sequence_number m.existing_manifest_list_items_sorted_desc
      → item.sequence_number ≤ m.last_sequence_number
      → Ensures (overwrite_item storage original uuid i item m h) (MergedBy m (item ∷ []))
  unfolding overwrite_item
  overwrite_item-MergedBy original uuid i item m h c old up le =
      elim (Option-cases (storage.existing_parquet_file_path h item.manifest_file)) [
        | inl e ↦ rw e c
        | inr (path, e) ↦ elim (Option-cases (storage.create_overwritten_parquet h path)) [
          | inl e' ↦ rw (e, e') c
          | inr (file, e') ↦
              let h' = created_overwritten_parquet file ∷ h in
              elim (Bool-cases (file.path == "")) [
                | inl kept ↦
                    rw (e, e', kept)
                      (
                        c,
                        record {
                          balance = omega arith;
                          later = omega arith;
                          up_to = (le, up);
                          climbs = λ k c. c;
                        },
                      )
                | inr changed ↦ elim (Bool-cases (file.record_count == 0)) [
                  | inl gone ↦
                      rw (e, e', changed, gone)
                        (delete_existing-MergedBy original uuid i item file m h' c old up)
                  | inr some_left ↦
                      rw (e, e', changed, some_left)
                        (update_existing-MergedBy uuid item file m h' c up)
                ]
              ]
        ]
      ]

  MergedBy-cons :
      (item : ManifestListItem) (items : List ManifestListItem) (m m' m'' : Merge)
      → MergedBy m (item ∷ []) m'
      → MergedBy m' items m''
      → MergedBy m (item ∷ items) m''
  MergedBy-cons item items m m' m'' a b = record {
    balance = omega (arith, a.balance, b.balance);
    later = omega (arith, a.later, b.later);
    up_to = b.up_to;
    climbs = λ k c. b.climbs k (a.climbs k c);
  }

  overwrite_items-MergedBy :
      (items original : List ManifestListItem) (uuid : String) (i : ℕ) (m : Merge) (h : History)
      → Accounted h
      → UpTo m.last_sequence_number original
      → UpTo m.last_sequence_number m.existing_manifest_list_items_sorted_desc
      → UpTo m.last_sequence_number items
      → Ensures (overwrite_items storage original uuid i items m h) (MergedBy m items)
  unfolding overwrite_items
  overwrite_items-MergedBy [] original uuid i m h c old up u =
      (c, record { balance = omega arith; later = omega arith; up_to = up; climbs = λ k c. c })
  overwrite_items-MergedBy (item ∷ items) original uuid i m h c old up u =
      let first = overwrite_item-MergedBy original uuid i item m h c old up u.0 in
      Ensures-follow (overwrite_item storage original uuid i item m h)
        (λ m'. overwrite_items storage original uuid (suc i) items m') (MergedBy m (item ∷ []))
        (MergedBy m (item ∷ items)) first
        λ m' h' c' merged.
          let mono = λ (l : List ManifestListItem).
            UpTo-mono m.last_sequence_number m'.last_sequence_number l merged.later in
          Ensures-weaken (overwrite_items storage original uuid (suc i) items m' h')
            (MergedBy m' items) (MergedBy m (item ∷ items))
            (overwrite_items-MergedBy items original uuid (suc i) m' h' c' (mono original old)
              merged.up_to (mono items u.1))
            (λ m'' rest. MergedBy-cons item items m m' m'' merged rest)

  -- The merge with the existing items, from no snapshot.
  pub overwrite_existing_files-MergedBy :
      (items : List ManifestListItem) (new first : ParquetFile) (n : ℕ) (h : History)
      → Accounted h
      → UpTo n items
      → Ensures (overwrite_existing_files storage items new first n h) (λ m.
        (total_added m.overwritten_manifest_list_files_sorted_asc + live items
          ≡ total_deleted m.overwritten_manifest_list_files_sorted_asc
            + live m.existing_manifest_list_items_sorted_desc)
        × Climbs n m.overwritten_manifest_list_files_sorted_asc m.last_sequence_number
        × (n ≤ m.last_sequence_number)
        × UpTo m.last_sequence_number m.existing_manifest_list_items_sorted_desc)
  unfolding overwrite_existing_files
  overwrite_existing_files-MergedBy items new first n h c up =
      let start : Merge = record {
        existing_manifest_list_items_sorted_desc = [];
        overwritten_manifest_list_files_sorted_asc = [];
        last_sequence_number = n;
      } in
      let old = UpTo-reverse n items up in
      let all =
        overwrite_items-MergedBy (reverse items) (reverse items) first.uuid 0 start h c old tt
          old in
      elim (Option-cases (storage.new_merge_duckdb h new.path)) [
        | inl e ↦ rw e c
        | inr (tt, e) ↦ rw e (
            Ensures-weaken
              (overwrite_items storage (reverse items) first.uuid 0 (reverse items) start h)
              (MergedBy start (reverse items)) _ all
              (λ m merged. (
                omega (arith, merged.balance, live-reverse items),
                merged.climbs n (omega arith),
                merged.later,
                merged.up_to,
              )))
      ]
