-- ===== src/Iceberg/Manifests/Statistics.antt =====
-- src/storage_utils.go: the statistics of a snapshot are those of its newest sequence number.
use bemi_db.Prelude.{
  ◌≡◌, ℕ, ◌+◌, String, List, [], ◌∷◌, some, ◌==◌, nat_eq, if◌then◌else◌, arith, Bool-cases, inl,
  inr, refl, same_number_iff,
}
use bemi_db.Iceberg.Files.{ManifestFile, ManifestListItem, ManifestListFile}
use bemi_db.Iceberg.Manifests.{
  ManifestListSequenceStats, no_stats, count_file, StatsMap, stats_at, put_stats,
  stats_by_sequence_number, write_manifest_list_file,
}

-- What a manifest adds to a sum, if it lists an added file, and if it lists a deleted one.
abbrev pub if_added : (ManifestFile → ℕ) → ManifestFile → ℕ
if_added weight file = if file.records_deleted then 0 else weight file

abbrev pub if_deleted : (ManifestFile → ℕ) → ManifestFile → ℕ
if_deleted weight file = if file.records_deleted then weight file else 0

abbrev pub one_file : ManifestFile → ℕ
one_file file = 1

abbrev pub records_of : ManifestFile → ℕ
records_of file = file.record_count

abbrev pub size_of : ManifestFile → ℕ
size_of file = file.data_file_size

-- The sum over the items of a sequence number.
abbrev pub sum_at : (ManifestFile → ℕ) → ℕ → List ManifestListItem → ℕ
sum_at weight n [] = 0
sum_at weight n (item ∷ items) =
    (if item.sequence_number == n then weight item.manifest_file else 0) + sum_at weight n items

-- The statistics `s` are those of `s₀` with the items of the sequence number `n`.
pub record Counts (s₀ : ManifestListSequenceStats) (n : ℕ) (items : List ManifestListItem)
    (s : ManifestListSequenceStats) : Type 0 where
  pub added_files_size :
      s.added_files_size ≡ s₀.added_files_size + sum_at (if_added size_of) n items
  pub added_data_files :
      s.added_data_files ≡ s₀.added_data_files + sum_at (if_added one_file) n items
  pub added_records : s.added_records ≡ s₀.added_records + sum_at (if_added records_of) n items
  pub removed_files_size :
      s.removed_files_size ≡ s₀.removed_files_size + sum_at (if_deleted size_of) n items
  pub deleted_data_files :
      s.deleted_data_files ≡ s₀.deleted_data_files + sum_at (if_deleted one_file) n items
  pub deleted_records :
      s.deleted_records ≡ s₀.deleted_records + sum_at (if_deleted records_of) n items

stats_at-put_stats :
    (n m : ℕ) (stats : ManifestListSequenceStats) (map : StatsMap)
    → stats_at m (put_stats n stats map) ≡ (if n == m then stats else stats_at m map)
unfolding stats_at put_stats
stats_at-put_stats n m stats [] = refl
stats_at-put_stats n m stats ((k, old) ∷ rest) = ground (arith, stats_at-put_stats n m stats rest)

-- One turn of the loop.
Counts-one :
    (item : ManifestListItem) (n : ℕ) (map : StatsMap)
    → Counts (stats_at n map) n (item ∷ []) (
        stats_at n (
          put_stats item.sequence_number
            (count_file item.manifest_file (stats_at item.sequence_number map))
            map))
unfolding count_file
Counts-one item n map = elim (Bool-cases (item.sequence_number == n)) [
  | inl e ↦
      rw
        (stats_at-put_stats item.sequence_number n
          (count_file item.manifest_file (stats_at item.sequence_number map)) map)
        (rw ((same_number_iff item.sequence_number n).0 e) (ground arith))
  | inr e ↦
      rw
        (stats_at-put_stats item.sequence_number n
          (count_file item.manifest_file (stats_at item.sequence_number map)) map)
        (ground arith)
]

Counts-all :
    (items : List ManifestListItem) (n : ℕ) (map : StatsMap)
    → Counts (stats_at n map) n items (stats_at n (stats_by_sequence_number items map))
unfolding stats_by_sequence_number
Counts-all [] n map = omega arith
Counts-all (item ∷ items) n map =
    let s = item.sequence_number in
    let first = Counts-one item n map in
    let rest =
      Counts-all items n (put_stats s (count_file item.manifest_file (stats_at s map)) map) in
    omega arith

Counts-from_none :
    (n : ℕ) (items : List ManifestListItem)
    → Counts no_stats n items (stats_at n (stats_by_sequence_number items []))
Counts-from_none n items =
    let none_yet : stats_at n [] ≡ no_stats = unfold stats_at in refl in
    rw none_yet at (Counts-all items n [])

-- The statistics of a manifest list file.
abbrev pub stats_of : ManifestListFile → ManifestListSequenceStats
stats_of f = record {
  added_files_size = f.added_files_size;
  added_data_files = f.added_data_files;
  added_records = f.added_records;
  removed_files_size = f.removed_files_size;
  deleted_data_files = f.deleted_data_files;
  deleted_records = f.deleted_records;
}

-- A manifest list file has the sequence number and the snapshot of its first item, and its sizes and
-- counts are the sums over the items of that sequence number, added files and deleted ones apart.
pub write_manifest_list_file-Counts :
    (path : String) (now : ℕ) (item : ManifestListItem) (items : List ManifestListItem)
    (f : ManifestListFile)
    → write_manifest_list_file path now (item ∷ items) ≡ some f
    → (f.sequence_number ≡ item.sequence_number)
      × (f.snapshot_id ≡ item.manifest_file.snapshot_id)
      × Counts no_stats item.sequence_number (item ∷ items) (stats_of f)
unfolding write_manifest_list_file
write_manifest_list_file-Counts path now item items f e =
    ground (arith, Counts-from_none item.sequence_number (item ∷ items))
