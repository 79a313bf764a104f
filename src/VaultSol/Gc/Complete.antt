-- ===== src/VaultSol/Gc/Complete.antt =====
-- The blob rows that `gc` of vaultdrop.py forgets.
use qwen_3_8_evals.Prelude.{
  ℕ, zero, suc, ◌+◌, ◌≤◌, ◌≡◌, refl, sym, ap, ◌∙◌, Bool, true, false, not, ◌||◌, Option, none, some,
  List, [], ◌∷◌, map, All, All-map, arith, length, length-map, take, drop, length-drop, sum, ◌==◌,
  find, select, delete, any, count, lookup, sort, insert_sorted,
}
use qwen_3_8_evals.VaultSol.Types.{Blob, Store}
use qwen_3_8_evals.VaultSol.Action.{Result}
use qwen_3_8_evals.Effect.{ok, err, fault}
use qwen_3_8_evals.VaultSol.Finalize.{blob_at}
use qwen_3_8_evals.VaultSol.Gc.{
  by_hash, candidates, unreferenced_at, Batch, Renamed, Collected, rename_blob, forget_blob,
  collect_row, collect, unlink_all, unlink_trash, batch_size, gc_batch, gc_batches, gc,
}
use qwen_3_8_evals.VaultSol.Invariant.{DistinctHashes}
use qwen_3_8_evals.VaultSol.Invariant.Collect.{hashes-collect}

abbrev is_zero : Blob → Bool
is_zero b = b.refcount == 0

collect-absent :
    (d : ℕ) (bs : List Blob) → any (blob_at d) bs ≡ false → delete (unreferenced_at d) bs ≡ bs
unfolding any delete
collect-absent d [] e = refl
collect-absent d (b ∷ bs) e = ground (arith, collect-absent d bs)

find-none : (d : ℕ) (bs : List Blob) → find (blob_at d) bs ≡ none → any (blob_at d) bs ≡ false
unfolding any find
find-none d [] e = refl
find-none d (b ∷ bs) e = ground (arith, find-none d bs)

collect-referenced :
    (d : ℕ) (bs : List Blob) (row : Blob)
    → DistinctHashes bs
    → find (blob_at d) bs ≡ some row
    → is_zero row ≡ false
    → delete (unreferenced_at d) bs ≡ bs
unfolding delete find any
collect-referenced d [] row h e z = refl
collect-referenced d (b ∷ bs) row h e z =
    ground (arith, collect-referenced d bs row h.1, collect-absent d bs)

rename-blobs :
    (file : Option (List ℕ)) (d tag size : ℕ) (b : Batch)
    → (rename_blob file d tag size b).store.blobs ≡ b.store.blobs
unfolding rename_blob
rename-blobs none d tag size b = refl
rename-blobs (some c) d tag size b = refl

collect_row-blobs :
    (found : Option Blob) (d tag : ℕ) (b : Batch)
    → DistinctHashes b.store.blobs
    → find (blob_at d) b.store.blobs ≡ found
    → (collect_row found d tag b).store.blobs ≡ delete (unreferenced_at d) b.store.blobs
unfolding collect_row forget_blob
collect_row-blobs none d tag b h e =
    sym (collect-absent d b.store.blobs (find-none d b.store.blobs e))
collect_row-blobs (some row) d tag b h e = ground (
  arith,
  rename-blobs (lookup d b.store.blob_files) d tag row.size b,
  collect-referenced d b.store.blobs row h e,
)

-- The deletions of a list of digests, one after the other.
forget_all : List ℕ → List Blob → List Blob
forget_all [] bs = bs
forget_all (d ∷ rest) bs = forget_all rest (delete (unreferenced_at d) bs)

collect-blobs :
    (tag : ℕ → ℕ) (batch : List ℕ) (b : Batch)
    → DistinctHashes b.store.blobs
    → (collect tag batch b).store.blobs ≡ forget_all batch b.store.blobs
unfolding collect forget_all
collect-blobs tag [] b h = refl
collect-blobs tag (d ∷ rest) b h =
    let found = find (blob_at d) b.store.blobs in
    let step = collect_row-blobs found d (tag d) b h refl in
    collect-blobs tag rest (collect_row found d (tag d) b)
      (rw step (hashes-collect d b.store.blobs h))
    ∙ ap (forget_all rest) step

unlink_all-blobs : (renamed : List Renamed) (s : Store) → (unlink_all renamed s).blobs ≡ s.blobs
unlink_all-blobs [] s = refl
unlink_all-blobs (r ∷ rest) s = unlink_all-blobs rest (unlink_trash r s)

gc_batch-blobs :
    (tag : ℕ → ℕ) (batch : List ℕ) (s : Store)
    → DistinctHashes s.blobs
    → (gc_batch tag batch s).store.blobs ≡ forget_all batch s.blobs
unfolding gc_batch
gc_batch-blobs tag batch s h =
    let start : Batch = record { store = s; renamed = []; removed = 0 } in
    let done = collect tag batch start in
    unlink_all-blobs done.renamed done.store ∙ collect-blobs tag batch start h

forget_all-split :
    (k : ℕ) (ds : List ℕ) (bs : List Blob)
    → forget_all (drop k ds) (forget_all (take k ds) bs) ≡ forget_all ds bs
unfolding forget_all
forget_all-split zero ds bs = refl
forget_all-split (suc k) [] bs = refl
forget_all-split (suc k) (d ∷ ds) bs = forget_all-split k ds (delete (unreferenced_at d) bs)

hashes-forget_all :
    (ds : List ℕ) (bs : List Blob) → DistinctHashes bs → DistinctHashes (forget_all ds bs)
unfolding forget_all
hashes-forget_all [] bs h = h
hashes-forget_all (d ∷ ds) bs h = hashes-forget_all ds _ (hashes-collect d bs h)

-- As many rounds as digests are enough for all batches.
gc_batches-blobs :
    (tag : ℕ → ℕ) (fuel : ℕ) (left : List ℕ) (collected freed : ℕ) (s : Store)
    → DistinctHashes s.blobs
    → length left ≤ fuel
    → (gc_batches tag fuel left collected freed s).2.blobs ≡ forget_all left s.blobs
unfolding gc_batches
gc_batches-blobs tag zero [] collected freed s h le = unfold forget_all in refl
gc_batches-blobs tag zero (d ∷ left) collected freed s h le = absurd (omega arith)
gc_batches-blobs tag (suc fuel) left collected freed s h le =
    let b = gc_batch tag (take batch_size left) s in
    let step = gc_batch-blobs tag (take batch_size left) s h in
    gc_batches-blobs tag fuel (drop batch_size left) (collected + b.removed)
      (freed + sum (map (λ r. r.size) b.renamed)) b.store
      (rw step (hashes-forget_all (take batch_size left) s.blobs h))
      (omega (arith, length-drop batch_size left))
    ∙ ap (forget_all (drop batch_size left)) step
    ∙ forget_all-split batch_size left s.blobs

member : ℕ → List ℕ → Bool
member h [] = false
member h (d ∷ ds) = d == h || member h ds

-- A row with no reference is on the list.
abbrev Pending : List ℕ → Blob → Type 0
Pending ds b = (not (is_zero b) || member b.content_hash ds) ≡ true

delete-delete :
    (d : ℕ) (bs : List Blob) → delete is_zero (delete (unreferenced_at d) bs) ≡ delete is_zero bs
unfolding delete
delete-delete d [] = refl
delete-delete d (b ∷ bs) = ground (arith, delete-delete d bs)

Pending-delete :
    (d : ℕ) (ds : List ℕ) (bs : List Blob)
    → All (Pending (d ∷ ds)) bs
    → All (Pending ds) (delete (unreferenced_at d) bs)
unfolding delete member
Pending-delete d ds [] h = tt
Pending-delete d ds (b ∷ bs) h = ground (arith, Pending-delete d ds bs h.1)

delete-referenced : (bs : List Blob) → All (Pending []) bs → delete is_zero bs ≡ bs
unfolding delete member
delete-referenced [] h = refl
delete-referenced (b ∷ bs) h = ground (arith, delete-referenced bs h.1)

forget_all-exact :
    (ds : List ℕ) (bs : List Blob) → All (Pending ds) bs → forget_all ds bs ≡ delete is_zero bs
unfolding forget_all
forget_all-exact [] bs h = sym (delete-referenced bs h)
forget_all-exact (d ∷ ds) bs h =
    forget_all-exact ds _ (Pending-delete d ds bs h) ∙ delete-delete d bs

abbrev hashes : List Blob → List ℕ
hashes = map (λ b. b.content_hash)

member-insert :
    (h : ℕ) (b : Blob) (bs : List Blob)
    → member h (hashes (insert_sorted by_hash b bs)) ≡ (b.content_hash == h || member h (hashes bs))
unfolding insert_sorted member
member-insert h b [] = refl
member-insert h b (x ∷ bs) = ground (arith, member-insert h b bs)

member-sort : (h : ℕ) (bs : List Blob) → member h (hashes (sort by_hash bs)) ≡ member h (hashes bs)
unfolding sort member
member-sort h [] = refl
member-sort h (b ∷ bs) = ground (arith, member-insert h b (sort by_hash bs), member-sort h bs)

Pending-select : (bs : List Blob) → All (Pending (hashes (select is_zero bs))) bs
unfolding select member
Pending-select [] = tt
Pending-select (b ∷ bs) = (ground arith, All-map bs (λ x h. ground (arith, h)) (Pending-select bs))

Pending-candidates : (s : Store) → All (Pending (candidates s)) s.blobs
unfolding candidates
Pending-candidates s =
    All-map s.blobs (λ x h. rw (member-sort x.content_hash (select is_zero s.blobs)) h)
      (Pending-select s.blobs)

length-insert : (b : Blob) (bs : List Blob) → length (insert_sorted by_hash b bs) ≡ suc (length bs)
unfolding insert_sorted
length-insert b [] = refl
length-insert b (x ∷ bs) = ground (arith, length-insert b bs)

length-sort : (bs : List Blob) → length (sort by_hash bs) ≡ length bs
unfolding sort
length-sort [] = refl
length-sort (b ∷ bs) = omega (arith, length-insert b (sort by_hash bs), length-sort bs)

length-select : (bs : List Blob) → length (select is_zero bs) ≡ count is_zero bs
unfolding select count
length-select [] = refl
length-select (b ∷ bs) = ground (arith, length-select bs)

length-candidates : (s : Store) → length (candidates s) ≡ count is_zero s.blobs
unfolding candidates
length-candidates s =
    length-map _ (sort by_hash (select is_zero s.blobs))
    ∙ length-sort (select is_zero s.blobs)
    ∙ length-select s.blobs

abbrev pub scanned_of : Result Collected → ℕ
scanned_of (ok c) = c.scanned
scanned_of (err _) = 0
scanned_of (fault _) = 0

-- From a store in which no two rows share a digest, a garbage collection leaves exactly the blob
-- rows whose refcount is not zero, in their order and unchanged, and reports as scanned how many
-- rows have refcount zero. The rounds that its loop is given are enough.
pub gc_exact :
    (tag : ℕ → ℕ) (s : Store)
    → DistinctHashes s.blobs
    → ((gc tag s).1.blobs ≡ delete (λ b. b.refcount == 0) s.blobs)
      × (scanned_of (gc tag s).0 ≡ count (λ b. b.refcount == 0) s.blobs)
unfolding gc
gc_exact tag s h = (
  gc_batches-blobs tag (length (candidates s)) (candidates s) 0 0 s h (omega arith)
      ∙ forget_all-exact (candidates s) s.blobs (Pending-candidates s),
  length-candidates s,
)
