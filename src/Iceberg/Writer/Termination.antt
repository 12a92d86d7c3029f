-- ===== src/Iceberg/Writer/Termination.antt =====
-- src/iceberg_writer_table.go, Write: the loop ends.
use bemi_db.Prelude.{
  ◌≡◌, ◌∙◌, ◌⊎◌, refl, ℕ, zero, suc, ◌+◌, ◌≤◌, ◌<◌, String, List, [], ◌∷◌, some, Bool, true, false,
  arith, Option-cases, Bool-cases, inl, inr, ◌==◌, nat_eq, string_eq, ◌&&◌, ◌||◌, ltb,
}
use mathlib.Core.List.{reverse}
use bemi_db.Sync.Metadata.{InternalTableMetadata}
use bemi_db.Iceberg.Files.{ParquetFile, ManifestListItem}
use bemi_db.Iceberg.Storage.{
  History, Storage, Run, done, stopped, exited, panicked, out_of_fuel, follow, created_parquet,
  created_overwritten_parquet, created_data_dir, created_metadata_dir,
}
use bemi_db.Iceberg.Writer.{
  Merge, WriteState, Chunk, load_more_rows, finished, delete_existing, update_existing,
  overwrite_item, overwrite_items, overwrite_existing_files, merge_existing, publish, drop_trailing,
  write_chunk, write_loop, start, read_existing, write, with_parquet,
}

-- The run does not stop for want of fuel, and its result has the property.
abbrev pub Halts : {A : Type 0} → Run A → (A → Type 0) → Type 0
Halts (done a h) P = P a
Halts (stopped out_of_fuel h) P = ⊥
Halts (stopped exited h) P = Unit
Halts (stopped panicked h) P = Unit

-- Whatever the result.
abbrev Any : {A : Type 0} → A → Type 0
Any a = Unit

Halts-follow :
    {A B : Type 0} (r : Run A) (k : A → History → Run B) (P : A → Type 0) (Q : B → Type 0)
    → Halts r P
    → ((a : A) (h : History) → P a → Halts (k a h) Q)
    → Halts (follow r k) Q
Halts-follow (done a h) k P Q e step = step a h e
Halts-follow (stopped exited h) k P Q e step = tt
Halts-follow (stopped panicked h) k P Q e step = tt
Halts-follow (stopped out_of_fuel h) k P Q e step = e

Halts-weaken :
    {A : Type 0} (r : Run A) (P Q : A → Type 0) → Halts r P → ((a : A) → P a → Q a) → Halts r Q
Halts-weaken (done a h) P Q e f = f a e
Halts-weaken (stopped exited h) P Q e f = tt
Halts-weaken (stopped panicked h) P Q e f = tt
Halts-weaken (stopped out_of_fuel h) P Q e f = e

-- Each Parquet file takes its records from what is left to load.
abbrev pub Consumes : {L : Type 0} → Storage L → (L → ℕ) → Type 0
Consumes {L} storage left =
    (h : History) (l l' : L) (file : ParquetFile) (metadata : InternalTableMetadata)
    → storage.create_parquet h l ≡ some (file, (metadata, l'))
    → file.record_count + left l' ≤ left l

module _ {L : Type 0} (storage : Storage L) where
  delete_existing-Halts :
      (original : List ManifestListItem) (uuid : String) (i : ℕ) (item : ManifestListItem)
      (file : ParquetFile) (m : Merge) (h : History)
      → Halts (delete_existing storage original uuid i item file m h) Any
  unfolding delete_existing
  delete_existing-Halts original uuid i item file m h = ground arith

  update_existing-Halts :
      (uuid : String) (item : ManifestListItem) (file : ParquetFile) (m : Merge) (h : History)
      → Halts (update_existing storage uuid item file m h) Any
  unfolding update_existing
  update_existing-Halts uuid item file m h = ground arith

  overwrite_item-Halts :
      (original : List ManifestListItem) (uuid : String) (i : ℕ) (item : ManifestListItem)
      (m : Merge) (h : History)
      → Halts (overwrite_item storage original uuid i item m h) Any
  unfolding overwrite_item
  overwrite_item-Halts original uuid i item m h =
      elim (Option-cases (storage.existing_parquet_file_path h item.manifest_file)) [
        | inl e ↦ rw e tt
        | inr (path, e) ↦ elim (Option-cases (storage.create_overwritten_parquet h path)) [
          | inl e' ↦ rw (e, e') tt
          | inr (file, e') ↦
              let h' = created_overwritten_parquet file ∷ h in
              rw (e, e')
                (ground (
                  arith,
                  delete_existing-Halts original uuid i item file m h',
                  update_existing-Halts uuid item file m h',
                ))
        ]
      ]

  overwrite_items-Halts :
      (items original : List ManifestListItem) (uuid : String) (i : ℕ) (m : Merge) (h : History)
      → Halts (overwrite_items storage original uuid i items m h) Any
  unfolding overwrite_items
  overwrite_items-Halts [] original uuid i m h = tt
  overwrite_items-Halts (item ∷ items) original uuid i m h =
      Halts-follow (overwrite_item storage original uuid i item m h)
        (λ m'. overwrite_items storage original uuid (suc i) items m') Any Any
        (overwrite_item-Halts original uuid i item m h)
        (λ m' h' p. overwrite_items-Halts items original uuid (suc i) m' h')

  -- The same loader, and as many files.
  abbrev Follows : WriteState L → WriteState L → Type 0
  Follows s s' = (s'.new_parquet_count ≡ s.new_parquet_count) × (s'.loader ≡ s.loader)

  abbrev ChunkFollows : WriteState L → Chunk L → Type 0
  ChunkFollows s (load_more_rows s') = Follows s s'
  ChunkFollows s finished = Unit

  merge_existing-Halts :
      (continued : Bool) (file : ParquetFile) (s : WriteState L) (h : History)
      → Halts (merge_existing storage continued file s h) (Follows s)
  unfolding merge_existing overwrite_existing_files
  merge_existing-Halts false file s h = (refl, refl)
  merge_existing-Halts true file s h =
      let items = reverse s.existing_items_sorted_desc in
      let m : Merge = record {
        existing_manifest_list_items_sorted_desc = [];
        overwritten_manifest_list_files_sorted_asc = [];
        last_sequence_number = s.last_sequence_number;
      } in
      elim (Option-cases (storage.new_merge_duckdb h file.path)) [
        | inl e ↦ rw e tt
        | inr (tt, e) ↦ rw e (
            Halts-follow (overwrite_items storage items s.first_new_parquet_file.uuid 0 items m h) _
              Any (Follows s)
              (overwrite_items-Halts items items s.first_new_parquet_file.uuid 0 m h)
              (λ m' h' p. (refl, refl)))
      ]

  publish-Halts :
      (continued : Bool) (file : ParquetFile) (metadata : InternalTableMetadata) (s : WriteState L)
      (h : History)
      → Halts (publish storage continued file metadata s h) (ChunkFollows s)
  unfolding publish
  publish-Halts continued file metadata s h = ground arith

  drop_trailing-Halts :
      (continued : Bool) (file : ParquetFile) (metadata : InternalTableMetadata) (h : History)
      → Halts (drop_trailing storage continued file metadata h) (λ chunk. chunk ≡ finished)
  unfolding drop_trailing
  drop_trailing-Halts continued file metadata h = ground arith

  module _ (left : L → ℕ) where
    -- Turns that are left: one for each record, and two for the first file and the last one.
    abbrev turns : WriteState L → ℕ
    turns s = elim s.new_parquet_count [ zero ↦ left s.loader + 2 | suc n ↦ left s.loader + 1 ]

    turns_fall :
        (n n' : ℕ) (l l' k : ℕ)
        → n' ≡ suc n
        → k + l' ≤ l
        → (n ≡ 0) ⊎ (0 < k)
        → (elim n' [ zero ↦ l' + 2 | suc m ↦ l' + 1 ]) < (elim n [ zero ↦ l + 2 | suc m ↦ l + 1 ])
    turns_fall zero n' l l' k e u p = rw e (omega arith)
    turns_fall (suc n) n' l l' k e u p = rw e (omega arith)

    abbrev Nearer : WriteState L → Chunk L → Type 0
    Nearer s (load_more_rows s') = turns s' < turns s
    Nearer s finished = Unit

    nearer :
        (s s' s'' : WriteState L) (loader : L) (k : ℕ) (chunk : Chunk L)
        → s'.new_parquet_count ≡ suc s.new_parquet_count
        → s'.loader ≡ loader
        → k + left loader ≤ left s.loader
        → (s.new_parquet_count ≡ 0) ⊎ (0 < k)
        → Follows s' s''
        → ChunkFollows s'' chunk
        → Nearer s chunk
    nearer s s' s'' loader k finished n e u p f g = tt
    nearer s s' s'' loader k (load_more_rows s₃) n e u p f g = rw (g.1 ∙ (f.1 ∙ e)) (
        turns_fall s.new_parquet_count s₃.new_parquet_count (left s.loader) (left loader) k
          (g.0 ∙ (f.0 ∙ n)) u p)

    write_chunk-Halts :
        (continued : Bool) (s : WriteState L) (h : History)
        → Consumes storage left
        → Halts (write_chunk storage continued s h) (Nearer s)
    unfolding write_chunk
    write_chunk-Halts continued s h consumes =
        elim (Option-cases (storage.create_parquet h s.loader)) [
          | inl e ↦ rw e tt
          | inr ((file, (metadata, loader)), e) ↦
              let h' = created_parquet file ∷ h in
              let s' = with_parquet storage continued file loader s in
              let used = consumes h s.loader loader file metadata e in
              elim (Bool-cases
                (file.record_count == 0 && (continued || ltb 0 s.new_parquet_count))) [
                  | inl trailing ↦
                      rw (e, trailing)
                        (Halts-weaken (drop_trailing storage continued file metadata h') _
                          (Nearer s) (drop_trailing-Halts continued file metadata h')
                          (λ chunk is. rw is tt))
                  | inr kept ↦
                      rw (e, kept)
                        (Halts-follow (merge_existing storage continued file s' h')
                          (λ s''. publish storage continued file metadata s'') (Follows s')
                          (Nearer s) (merge_existing-Halts continued file s' h')
                          (λ s'' h'' f.
                            Halts-weaken (publish storage continued file metadata s'' h'')
                              (ChunkFollows s'') (Nearer s)
                              (publish-Halts continued file metadata s'' h'')
                              (λ chunk g.
                                nearer s s' s'' loader file.record_count chunk refl refl used
                                  (ground arith) f g)))
                ]
        ]

    write_loop-Halts :
        (continued : Bool) (fuel : ℕ) (s : WriteState L) (h : History)
        → Consumes storage left
        → turns s < fuel
        → Halts (write_loop storage continued fuel s h) Any
    unfolding write_loop
    write_loop-Halts continued zero s h consumes lt = absurd (omega arith)
    write_loop-Halts continued (suc fuel) s h consumes lt =
        Halts-follow (write_chunk storage continued s h) _ (Nearer s) Any
          (write_chunk-Halts continued s h consumes)
          (elim [
            | finished ↦ λ h' near. tt
            | load_more_rows s' ↦
                λ h' near. write_loop-Halts continued fuel s' h' consumes (omega arith)
          ])

    abbrev Starts : L → WriteState L → Type 0
    Starts loader s = (s.new_parquet_count ≡ 0) × (s.loader ≡ loader)

    start-Halts :
        (continued : Bool) (loader : L) (h : History)
        → Halts (start storage continued loader h) (Starts loader)
    unfolding start read_existing
    start-Halts false loader h = (refl, refl)
    start-Halts true loader h = ground arith

    -- When each Parquet file takes its records from those that are left to load, the write returns,
    -- or stops at an error of the storage: three turns more than there are records are enough.
    pub write-terminates :
        (continued : Bool) (fuel : ℕ) (loader : L) (h : History)
        → Consumes storage left
        → left loader + 2 < fuel
        → Halts (write storage continued fuel loader h) Any
    unfolding write
    write-terminates continued fuel loader h consumes lt =
        elim (Option-cases (storage.create_data_dir h)) [
          | inl e ↦ rw e tt
          | inr (tt, e) ↦
              let h' = created_data_dir ∷ h in
              elim (Option-cases (storage.create_metadata_dir h')) [
                | inl e' ↦ rw (e, e') tt
                | inr (tt, e') ↦
                    let h'' = created_metadata_dir ∷ h' in
                    rw (e, e')
                      (Halts-follow (start storage continued loader h'') _ (Starts loader) Any
                        (start-Halts continued loader h'')
                        (λ s h₃ is.
                          write_loop-Halts continued fuel s h₃ consumes (rw (is.0, is.1) lt)))
              ]
        ]
