-- ===== src/Iceberg/Writer/Deletion.antt =====
-- src/iceberg_writer_table.go, overwriteExistingFiles: the snapshot that deletes a file.
use bemi_db.Prelude.{
  ◌≡◌, ◌∙◌, ℕ, suc, String, List, [], ◌∷◌, ◌++◌, some, arith, Option-cases, inl, inr,
}
use mathlib.Core.List.{reverse}
use bemi_db.Iceberg.Files.{ParquetFile, ManifestFile, ManifestListItem, ManifestListFile}
use bemi_db.Iceberg.Manifests.Statistics.{write_manifest_list_file-Counts}
use bemi_db.Iceberg.Storage.{History, Storage, done, created_deleted_records_manifest}
use bemi_db.Iceberg.Writer.{Merge, item_of, except, delete_existing}
use bemi_db.Iceberg.Writer.Accounts.{CountsRecords, reverse-snoc}

-- When the manifest of the deleted records has the snapshot of the manifest it replaces, the
-- deletion of a file adds one snapshot, and its identifier is that of the snapshot of the manifest
-- that is deleted.
pub delete_existing-snapshot_id :
    {L : Type 0} (storage : Storage L) (original : List ManifestListItem) (uuid : String) (i : ℕ)
    (item : ManifestListItem) (file : ParquetFile) (m m' : Merge) (h h' : History)
    → CountsRecords storage
    → ((h : History) (uuid : String) (old d : ManifestFile)
        → storage.create_deleted_records_manifest h uuid old ≡ some d
        → d.snapshot_id ≡ old.snapshot_id)
    → delete_existing storage original uuid i item file m h ≡ done m' h'
    → (f : ManifestListFile) × (m'.overwritten_manifest_list_files_sorted_asc
        ≡ m.overwritten_manifest_list_files_sorted_asc ++ (f ∷ []))
      × (f.snapshot_id ≡ item.manifest_file.snapshot_id)
unfolding delete_existing
delete_existing-snapshot_id storage original uuid i item file m m' h h' laws same e =
    let n = suc m.last_sequence_number in
    elim (Option-cases (storage.create_deleted_records_manifest h file.uuid item.manifest_file)) [
      | inl a ↦ absurd (ground arith)
      | inr (d, a) ↦
          let h₁ = created_deleted_records_manifest d ∷ h in
          let items = reverse (except i original ++ (item_of n d ∷ [])) in
          elim (Option-cases (storage.create_manifest_list h₁ uuid items)) [
            | inl b ↦ absurd (ground arith)
            | inr (f, b) ↦
                let first = rw (reverse-snoc (except i original) (item_of n d)) at b in
                let (path, now, written) =
                  laws.manifest_list h₁ uuid (item_of n d ∷ reverse (except i original)) f first in
                let counts =
                  write_manifest_list_file-Counts path now (item_of n d)
                    (reverse (except i original)) f written in
                (f, ground arith, counts.1 ∙ same h file.uuid item.manifest_file d a)
          ]
    ]
