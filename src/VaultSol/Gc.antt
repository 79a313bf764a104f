-- ===== src/VaultSol/Gc.antt =====
-- `gc`, `list_blobs` and `validate` of vaultdrop.py. The tags of the files in gc-trash are drawn
-- from `tag`. What other requests do meanwhile enters by the store that each batch starts from, and
-- by `replaced`: whether a finalize put a new file at the digest while it was being hashed.
pub mod Complete
pub mod Validate
use qwen_3_8_evals.Prelude.{
  ℕ, zero, suc, ◌+◌, ◌-◌, Bool, false, ◌&&◌, ◌||◌, Option, none, some, List, [], ◌∷◌, ◌++◌, map,
  length, take, drop, sum, leb, ◌==◌, if◌then◌else◌, find, select, update, delete, lookup, without,
  sort,
}
use qwen_3_8_evals.VaultSol.Types.{Blob, TrashFile, Store}
use qwen_3_8_evals.VaultSol.Action.{Action, api_error}
use qwen_3_8_evals.Effect.{ok, pure, gets, ◌>>=◌, raise_if, ◌>>◌, modify}
use qwen_3_8_evals.VaultSol.Finalize.{blob_at}

abbrev pub by_hash : Blob → Blob → Bool
by_hash a b = leb a.content_hash b.content_hash

-- WHERE refcount=0 ORDER BY content_hash
unfoldable pub candidates : Store → List ℕ
candidates s = map (λ b. b.content_hash) (sort by_hash (select (λ b. b.refcount == 0) s.blobs))

-- WHERE content_hash=? AND refcount=0
abbrev pub unreferenced_at : ℕ → Blob → Bool
unreferenced_at digest b = b.content_hash == digest && b.refcount == 0

-- A file that the batch moved, by its size and its name in gc-trash.
pub record Renamed : Type 0 where
  pub size : ℕ
  pub digest : ℕ
  pub tag : ℕ

-- One batch as it runs: the store, the files moved, and the number of rows removed.
pub record Batch : Type 0 where
  pub store : Store
  pub renamed : List Renamed
  pub removed : ℕ

abbrev pub trash_at : Renamed → TrashFile → Bool
trash_at r f = f.digest == r.digest && f.tag == r.tag

abbrev pub unlink_trash : Renamed → Store → Store
unlink_trash r s = record s { trash = delete (trash_at r) s.trash }

-- os.replace(source, trash), which does nothing if the file is not there.
unfoldable pub rename_blob : Option (List ℕ) → ℕ → ℕ → ℕ → Batch → Batch
rename_blob none digest tag size b = b
rename_blob (some content) digest tag size b = record b {
  store = record b.store {
    blob_files = without digest b.store.blob_files;
    trash = record { digest = digest; tag = tag; content = content } ∷ b.store.trash;
  };
  renamed = b.renamed ++ record { size = size; digest = digest; tag = tag } ∷ [];
}

unfoldable pub forget_blob : ℕ → Batch → Batch
forget_blob digest b = record b {
  store = record b.store { blobs = delete (unreferenced_at digest) b.store.blobs };
  removed = b.removed + 1;
}

-- One turn of the loop over the batch, on the row as it is read inside the transaction.
unfoldable pub collect_row : Option Blob → ℕ → ℕ → Batch → Batch
unfolding rename_blob forget_blob
collect_row none digest tag b = b
collect_row (some row) digest tag b =
    if row.refcount == 0
    then forget_blob digest (rename_blob (lookup digest b.store.blob_files) digest tag row.size b)
    else b

module _ (tag : ℕ → ℕ) where
  unfoldable pub collect : List ℕ → Batch → Batch
  unfolding collect_row
  collect [] b = b
  collect (digest ∷ rest) b =
      collect rest (collect_row (find (blob_at digest) b.store.blobs) digest (tag digest) b)

abbrev pub unlink_all : List Renamed → Store → Store
unlink_all [] s = s
unlink_all (r ∷ rest) s = unlink_all rest (unlink_trash r s)

pub record Collected : Type 0 where
  pub scanned : ℕ
  pub collected : ℕ
  pub bytes_freed : ℕ

abbrev pub batch_size : ℕ
batch_size = 64

module _ (tag : ℕ → ℕ) where
  -- One batch: its transaction, and then the files in the trash.
  unfoldable pub gc_batch : List ℕ → Store → Batch
  unfolding collect
  gc_batch batch s =
      let b = collect tag batch (record { store = s; renamed = []; removed = 0 }) in
      record b { store = unlink_all b.renamed b.store }

  -- `for offset in range(0, len(candidates), 64)`, by the number of rounds allowed.
  unfoldable pub gc_batches : ℕ → List ℕ → ℕ → ℕ → Store → ℕ × ℕ × Store
  unfolding gc_batch
  gc_batches zero left collected freed s = (collected, freed, s)
  gc_batches (suc fuel) left collected freed s =
      let b = gc_batch (take batch_size left) s in
      gc_batches fuel (drop batch_size left) (collected + b.removed)
        (freed + sum (map (λ r. r.size) b.renamed)) b.store

  unfoldable pub gc : Action Collected
  unfolding candidates gc_batches
  gc s =
      let found = candidates s in
      let (collected, freed, t) = gc_batches (length found) found 0 0 s in
      (ok (record { scanned = length found; collected = collected; bytes_freed = freed }), t)

-- SELECT content_hash,refcount,size,validated ... ORDER BY content_hash
unfoldable pub list_blobs : Store → List Blob
list_blobs s = sort by_hash s.blobs

pub record Checked : Type 0 where
  pub good : Bool
  pub digest : ℕ
  pub created_at : ℕ

pub record Validation : Type 0 where
  pub scanned : ℕ
  pub valid : ℕ
  pub invalid : ℕ

-- UPDATE blobs SET validated=? WHERE content_hash=? AND created_at=?
abbrev pub set_validated : Checked → List Blob → List Blob
set_validated r rows =
    update (λ b. b.content_hash == r.digest && b.created_at == r.created_at)
      (λ b. record b { validated = r.good }) rows

unfoldable pub set_all_validated : List Checked → List Blob → List Blob
set_all_validated [] rows = rows
set_all_validated (r ∷ rest) rows = set_all_validated rest (set_validated r rows)

module _ (sha256 : List ℕ → ℕ) (replaced : ℕ → Bool) where
  abbrev pub check_file : Option (List ℕ) → Blob → Bool
  check_file none b = false
  check_file (some content) b =
      (length content == b.size && sha256 content == b.content_hash) || replaced b.content_hash

  abbrev pub check_blob : Store → Blob → Checked
  check_blob s b = record {
    good = check_file (lookup b.content_hash s.blob_files) b;
    digest = b.content_hash;
    created_at = b.created_at;
  }

  -- `locked`: another validation holds `validation_lock`.
  unfoldable pub validate : Bool → Action Validation
  unfolding set_all_validated
  validate locked = do
    raise_if locked (api_error 409 "validation already running")
    results ← gets (λ s. map (check_blob s) s.blobs)
    modify (λ s. record s { blobs = set_all_validated results s.blobs })
    let valid = length (select (λ r. r.good) results)
    pure (record { scanned = length results; valid = valid; invalid = length results - valid })
