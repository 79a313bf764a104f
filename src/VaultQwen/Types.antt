-- ===== src/VaultQwen/Types.antt =====
-- vaultdrop/qwen-v3: the tables of migrations/0001_initial.sql, the files under the directories of
-- config.py, and what the modules raise. Ids (`uuid4().hex`) and digests (`hexdigest`) are the
-- numbers that they spell; a file's content is the list of its bytes. The state 'open' is `opened`.
use qwen_3_8_evals.Prelude.{ℕ, String, Bool, true, false, Option, List, [], Dict}
use qwen_3_8_evals.Effect.{Effect}

pub data UploadState : Type 0 where
  opened finalizing finalized : UploadState

abbrev pub is_open : UploadState → Bool
is_open opened = true
is_open finalizing = false
is_open finalized = false

abbrev pub is_finalizing : UploadState → Bool
is_finalizing opened = false
is_finalizing finalizing = true
is_finalizing finalized = false

abbrev pub is_finalized : UploadState → Bool
is_finalized opened = false
is_finalized finalizing = false
is_finalized finalized = true

pub record Upload : Type 0 where
  pub id : ℕ
  pub tenant_id : String
  pub name : String
  pub total_size : ℕ
  pub chunk_size : ℕ
  pub state : UploadState
  pub artifact_id : Option ℕ
  pub created_at : ℕ
  pub finalized_at : Option ℕ

-- upload_chunks
pub record Chunk : Type 0 where
  pub upload_id : ℕ
  pub chunk_index : ℕ
  pub size : ℕ
  pub sha256 : ℕ

pub record Artifact : Type 0 where
  pub id : ℕ
  pub tenant_id : String
  pub name : String
  pub size : ℕ
  pub sha256 : ℕ
  pub blob_hash : ℕ
  pub created_at : ℕ

pub data BlobState : Type 0 where
  active collecting : BlobState

abbrev pub is_active : BlobState → Bool
is_active active = true
is_active collecting = false

abbrev pub is_collecting : BlobState → Bool
is_collecting active = false
is_collecting collecting = true

pub record Blob : Type 0 where
  pub hash : ℕ
  pub size : ℕ
  pub refcount : ℕ
  pub state : BlobState
  pub validated : Bool
  pub gc_pass_id : Option ℕ
  pub created_at : ℕ

-- gc_passes
pub record Pass : Type 0 where
  pub id : ℕ
  pub started_at : ℕ
  pub finished_at : Option ℕ
  pub scanned : ℕ
  pub collected : ℕ
  pub bytes_freed : ℕ

-- chunks/<upload_id>/<index>
pub record ChunkFile : Type 0 where
  pub upload_id : ℕ
  pub index : ℕ
  pub content : List ℕ

-- chunks/<upload_id>/<index>.<tag>.tmp
pub record TempFile : Type 0 where
  pub upload_id : ℕ
  pub tag : ℕ
  pub content : List ℕ

-- The committed database, the newest pass first, then the directories chunks/ and blobs/.
pub record Store : Type 0 where
  pub uploads : List Upload
  pub chunks : List Chunk
  pub artifacts : List Artifact
  pub blobs : List Blob
  pub passes : List Pass
  pub chunk_files : List ChunkFile
  pub temps : List TempFile
  pub blob_files : Dict (List ℕ)

abbrev pub empty : Store
empty = record {
  uploads = [];
  chunks = [];
  artifacts = [];
  blobs = [];
  passes = [];
  chunk_files = [];
  temps = [];
  blob_files = [];
}

-- UploadError, which carries how much of the body was read, and `_IncrementLost`.
pub data Raised : Type 0 where
  upload_error : ℕ → String → ℕ → Raised
  increment_lost : Raised

abbrev pub Action : Type 0 → Type 0
Action A = Effect Store Raised A
