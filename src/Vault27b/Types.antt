-- ===== src/Vault27b/Types.antt =====
-- vaultdrop/qwen-3-8-27b-v2/src/vaultdrop/db.py: the tables of SCHEMA, with the files of core.py's
-- layout. Ids and digests are the numbers that they spell; temporary files belong to their threads.
use qwen_3_8_evals.Prelude.{
  ℕ, String, Bool, true, false, not, ◌&&◌, ◌==◌, Option, none, some, List, [], Dict,
}
use qwen_3_8_evals.Effect.{Effect}

pub data UploadState : Type 0 where
  opened finalized : UploadState

pub record Upload : Type 0 where
  pub upload_id : ℕ
  pub tenant_id : String
  pub name : String
  pub total_size : ℕ
  pub chunk_size : ℕ
  pub state : UploadState
  pub created_at : ℕ

pub record Chunk : Type 0 where
  pub upload_id : ℕ
  pub index : ℕ
  pub content_hash : ℕ
  pub size : ℕ

pub record Artifact : Type 0 where
  pub artifact_id : ℕ
  pub tenant_id : String
  pub upload_id : ℕ
  pub name : String
  pub size : ℕ
  pub sha256 : ℕ
  pub created_at : ℕ

pub data BlobState : Type 0 where
  active pending deleted : BlobState

-- The column `path` is blob_path of the hash.
pub record Blob : Type 0 where
  pub content_hash : ℕ
  pub size : ℕ
  pub refcount : ℕ
  pub state : BlobState
  pub validated : Bool
  pub created_at : ℕ

-- chunk_path
pub record ChunkFile : Type 0 where
  pub upload_id : ℕ
  pub index : ℕ
  pub content : List ℕ

pub record Store : Type 0 where
  pub uploads : List Upload
  pub chunks : List Chunk
  pub artifacts : List Artifact
  pub blobs : List Blob
  pub chunk_files : List ChunkFile
  -- blob_path
  pub blob_files : Dict (List ℕ)

abbrev pub empty : Store
empty = record {
  uploads = [];
  chunks = [];
  artifacts = [];
  blobs = [];
  chunk_files = [];
  blob_files = [];
}

-- core.ApiError
pub record ApiError : Type 0 where
  pub status : ℕ
  pub message : String

abbrev pub api_error : ℕ → String → ApiError
api_error status message = record { status = status; message = message }

abbrev pub Action : Type 0 → Type 0
Action A = Effect Store ApiError A

abbrev pub is_finalized : UploadState → Bool
is_finalized finalized = true
is_finalized opened = false

abbrev pub is_active : BlobState → Bool
is_active active = true
is_active pending = false
is_active deleted = false

abbrev pub is_pending : BlobState → Bool
is_pending pending = true
is_pending active = false
is_pending deleted = false

abbrev pub is_deleted : BlobState → Bool
is_deleted deleted = true
is_deleted active = false
is_deleted pending = false

abbrev pub upload_at : ℕ → Upload → Bool
upload_at upload_id u = u.upload_id == upload_id

abbrev pub chunk_at : ℕ → ℕ → Chunk → Bool
chunk_at upload_id index c = c.upload_id == upload_id && c.index == index

abbrev pub file_at : ℕ → ℕ → ChunkFile → Bool
file_at upload_id index f = f.upload_id == upload_id && f.index == index

abbrev pub artifact_at : ℕ → Artifact → Bool
artifact_at artifact_id a = a.artifact_id == artifact_id

abbrev pub artifact_of : ℕ → Artifact → Bool
artifact_of upload_id a = a.upload_id == upload_id

abbrev pub refers : ℕ → Artifact → Bool
refers digest a = a.sha256 == digest

abbrev pub blob_at : ℕ → Blob → Bool
blob_at digest b = b.content_hash == digest

abbrev pub is_present : Option (List ℕ) → Bool
is_present none = false
is_present (some _) = true

-- The state of a digest is 'active' or 'pending'.
abbrev pub is_usable : Option Blob → Bool
is_usable none = false
is_usable (some b) = not (is_deleted b.state)
