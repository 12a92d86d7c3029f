-- ===== src/Iceberg/Writer/Accounts.antt =====
-- src/iceberg_writer_table.go: the records that the snapshots of a table add and delete, against the
-- records of the manifests that its last snapshot lists.
pub mod Merging
pub mod Publishing
use bemi_db.Prelude.{
  ◌≡◌, refl, ℕ, zero, suc, ◌+◌, ◌≤◌, ◌<◌, String, List, [], ◌∷◌, ◌++◌, Option, none, some, true,
  false, arith, All, All-append, ◌==◌, nat_eq, if◌then◌else◌, Option-cases, inl, inr, ap,
  same_number_iff,
}
use mathlib.Core.List.{reverse, reverse_aux, reverse-append}
use bemi_db.Iceberg.Files.{ParquetFile, ManifestFile, ManifestListItem, ManifestListFile}
use bemi_db.Iceberg.Manifests.{write_manifest_list_file}
use bemi_db.Iceberg.Manifests.Statistics.{
  sum_at, if_added, if_deleted, records_of, write_manifest_list_file-Counts,
}
use bemi_db.Iceberg.Storage.{
  Call, History, Storage, Run, done, stopped, follow, created_metadata, created_manifest_list,
}
use bemi_db.Iceberg.Writer.{item_of, except}

-- What the writer relies on: manifests count the records of their files, and manifest lists those
-- of their manifests (Iceberg.Entries and Iceberg.Manifests have these functions of the storage).
pub record CountsRecords {L : Type 0} (storage : Storage L) : Type 0 where
  pub manifest :
      (h : History) (file : ParquetFile) (m : ManifestFile)
      → storage.create_manifest h file ≡ some m
      → (m.records_deleted ≡ false) × (m.record_count ≡ file.record_count)
  pub deleted :
      (h : History) (uuid : String) (old m : ManifestFile)
      → storage.create_deleted_records_manifest h uuid old ≡ some m
      → (m.records_deleted ≡ true) × (m.record_count ≡ old.record_count)
  pub manifest_list :
      (h : History) (uuid : String) (items : List ManifestListItem) (f : ManifestListFile)
      → storage.create_manifest_list h uuid items ≡ some f
      → (path : String) × (now : ℕ) × (write_manifest_list_file path now items ≡ some f)

-- The records of the manifests of a list.
abbrev pub live : List ManifestListItem → ℕ
live [] = 0
live (item ∷ items) = item.manifest_file.record_count + live items

abbrev pub total_added : List ManifestListFile → ℕ
total_added [] = 0
total_added (f ∷ files) = f.added_records + total_added files

abbrev pub total_deleted : List ManifestListFile → ℕ
total_deleted [] = 0
total_deleted (f ∷ files) = f.deleted_records + total_deleted files

-- The snapshots have added the records of the manifests, and those that they have deleted.
abbrev pub Balanced : List ManifestListFile → List ManifestListItem → Type 0
Balanced files items = total_added files ≡ total_deleted files + live items

-- No item is newer than the sequence number.
abbrev pub UpTo : ℕ → List ManifestListItem → Type 0
UpTo n items = All (λ item. item.sequence_number ≤ n) items

-- The sequence numbers of the snapshots rise, from above `n` to at most `k`.
abbrev pub Climbs : ℕ → List ManifestListFile → ℕ → Type 0
Climbs n [] k = n ≤ k
Climbs n (f ∷ files) k = (n < f.sequence_number) × Climbs f.sequence_number files k

-- A metadata file is written with the snapshots of the manifest list before it, whose first item is
-- the newest.
abbrev pub BalancedAt : List ManifestListFile → History → Type 0
BalancedAt files (created_manifest_list (item ∷ items) file ∷ h) =
    Balanced files (item ∷ items) × Climbs 0 files item.sequence_number
BalancedAt files _ = ⊥

abbrev pub Accounted : History → Type 0
Accounted [] = Unit
Accounted (created_metadata files ∷ h) = BalancedAt files h × Accounted h
Accounted (call ∷ h) = Accounted h

-- However a run ends, its calls are accounted for, and its result has the property.
abbrev pub Ensures : {A : Type 0} → Run A → (A → Type 0) → Type 0
Ensures (done a h) P = Accounted h × P a
Ensures (stopped s h) P = Accounted h

pub Ensures-follow :
    {A B : Type 0} (r : Run A) (k : A → History → Run B) (P : A → Type 0) (Q : B → Type 0)
    → Ensures r P
    → ((a : A) (h : History) → Accounted h → P a → Ensures (k a h) Q)
    → Ensures (follow r k) Q
Ensures-follow (done a h) k P Q e step = step a h e.0 e.1
Ensures-follow (stopped s h) k P Q e step = e

pub Ensures-weaken :
    {A : Type 0} (r : Run A) (P Q : A → Type 0) → Ensures r P → ((a : A) → P a → Q a) → Ensures r Q
Ensures-weaken (done a h) P Q e f = (e.0, f a e.1)
Ensures-weaken (stopped s h) P Q e f = e

pub live-append : (xs ys : List ManifestListItem) → live (xs ++ ys) ≡ live xs + live ys
live-append [] ys = omega arith
live-append (x ∷ xs) ys = omega (arith, live-append xs ys)

pub total_added-snoc :
    (files : List ManifestListFile) (f : ManifestListFile)
    → (total_added (files ++ (f ∷ [])) ≡ total_added files + f.added_records)
      × (total_deleted (files ++ (f ∷ [])) ≡ total_deleted files + f.deleted_records)
total_added-snoc [] f = omega arith
total_added-snoc (g ∷ files) f = omega (arith, total_added-snoc files f)

pub total_added-append :
    (xs ys : List ManifestListFile)
    → (total_added (xs ++ ys) ≡ total_added xs + total_added ys)
      × (total_deleted (xs ++ ys) ≡ total_deleted xs + total_deleted ys)
total_added-append [] ys = omega arith
total_added-append (x ∷ xs) ys = omega (arith, total_added-append xs ys)

pub Climbs-snoc :
    (n k : ℕ) (files : List ManifestListFile) (f : ManifestListFile)
    → Climbs n files k
    → f.sequence_number ≡ suc k
    → Climbs n (files ++ (f ∷ [])) (suc k)
Climbs-snoc n k [] f c e = (omega arith, omega arith)
Climbs-snoc n k (g ∷ files) f c e = (c.0, Climbs-snoc g.sequence_number k files f c.1 e)

pub Climbs-append :
    (n k l : ℕ) (xs ys : List ManifestListFile)
    → Climbs n xs k
    → Climbs k ys l
    → Climbs n (xs ++ ys) l
Climbs-append n k l [] [] c d = omega arith
Climbs-append n k l [] (y ∷ ys) c d = (omega arith, d.1)
Climbs-append n k l (x ∷ xs) ys c d = (c.0, Climbs-append x.sequence_number k l xs ys c.1 d)

pub UpTo-mono : (n m : ℕ) (items : List ManifestListItem) → n ≤ m → UpTo n items → UpTo m items
UpTo-mono n m [] le u = tt
UpTo-mono n m (x ∷ xs) le u = (omega arith, UpTo-mono n m xs le u.1)

live-reverse_aux : (xs acc : List ManifestListItem) → live (reverse_aux xs acc) ≡ live xs + live acc
live-reverse_aux [] acc = omega arith
live-reverse_aux (x ∷ xs) acc = omega (arith, live-reverse_aux xs (x ∷ acc))

pub live-reverse : (xs : List ManifestListItem) → live (reverse xs) ≡ live xs
live-reverse xs = omega (arith, live-reverse_aux xs [])

UpTo-reverse_aux :
    (n : ℕ) (xs acc : List ManifestListItem) → UpTo n xs → UpTo n acc → UpTo n (reverse_aux xs acc)
UpTo-reverse_aux n [] acc u v = v
UpTo-reverse_aux n (x ∷ xs) acc u v = UpTo-reverse_aux n xs (x ∷ acc) u.1 (u.0, v)

pub UpTo-reverse : (n : ℕ) (xs : List ManifestListItem) → UpTo n xs → UpTo n (reverse xs)
UpTo-reverse n xs u = UpTo-reverse_aux n xs [] u tt

pub UpTo-except : (n i : ℕ) (xs : List ManifestListItem) → UpTo n xs → UpTo n (except i xs)
unfolding except
UpTo-except n i [] u = tt
UpTo-except n zero (x ∷ xs) u = u.1
UpTo-except n (suc i) (x ∷ xs) u = (u.0, UpTo-except n i xs u.1)

pub reverse-snoc :
    (xs : List ManifestListItem) (x : ManifestListItem) → reverse (xs ++ (x ∷ [])) ≡ x ∷ reverse xs
reverse-snoc xs x = reverse-append xs (x ∷ [])

-- Items that are older than a sequence number do not count at it.
pub sum_at-older :
    (weight : ManifestFile → ℕ) (n : ℕ) (items : List ManifestListItem)
    → UpTo n items
    → sum_at weight (suc n) items ≡ 0
sum_at-older weight n [] u = refl
sum_at-older weight n (item ∷ items) u = ground (arith, sum_at-older weight n items u.1)

-- A manifest list whose first item is newer than the others has the records of that item.
pub manifest_list-newest :
    {L : Type 0} (storage : Storage L) (h : History) (uuid : String) (n : ℕ) (m : ManifestFile)
    (items : List ManifestListItem) (f : ManifestListFile)
    → CountsRecords storage
    → storage.create_manifest_list h uuid (item_of (suc n) m ∷ items) ≡ some f
    → UpTo n items
    → (f.added_records ≡ if_added records_of m)
      × (f.deleted_records ≡ if_deleted records_of m)
      × (f.sequence_number ≡ suc n)
manifest_list-newest storage h uuid n m items f laws e u =
    let (path, now, written) = laws.manifest_list h uuid (item_of (suc n) m ∷ items) f e in
    let counts = write_manifest_list_file-Counts path now (item_of (suc n) m) items f written in
    let a = sum_at-older (if_added records_of) n items u in
    let d = sum_at-older (if_deleted records_of) n items u in
    ground (arith, counts.0, counts.2.added_records, counts.2.deleted_records)

-- A manifest list of one added manifest and one deleted, of the same sequence number.
pub manifest_list-pair :
    {L : Type 0} (storage : Storage L) (h : History) (uuid : String) (n : ℕ)
    (new old : ManifestFile) (f : ManifestListFile)
    → CountsRecords storage
    → storage.create_manifest_list h uuid (item_of n new ∷ item_of n old ∷ []) ≡ some f
    → new.records_deleted ≡ false
    → old.records_deleted ≡ true
    → (f.added_records ≡ new.record_count)
      × (f.deleted_records ≡ old.record_count)
      × (f.sequence_number ≡ n)
manifest_list-pair storage h uuid n new old f laws e live_new dead_old =
    let (path, now, written) = laws.manifest_list h uuid (item_of n new ∷ item_of n old ∷ []) f e in
    let counts =
      write_manifest_list_file-Counts path now (item_of n new) (item_of n old ∷ []) f written in
    ground (arith, counts.0, counts.2.added_records, counts.2.deleted_records)
