-- ===== src/VaultSol/Types.antt =====
-- vaultdrop/gpt-5-6-sol/src/vaultdrop.py: the tables of SCHEMA, the files under the state
-- directory, and the errors. An id (`secrets.token_hex`) and a digest (`hexdigest`) are lowercase
-- hexadecimal texts of one width, so each is written as the number that it spells; the order of
-- such texts is the order of the numbers. A file's content is the list of its bytes.
use qwen_3_8_evals.Prelude.{ℕ, String, Bool, true, false, Option, List, [], Dict}

pub data UploadState : Type 0 where
  uploading finalizing finalized : UploadState

abbrev pub is_uploading : UploadState → Bool
is_uploading uploading = true
is_uploading finalizing = false
is_uploading finalized = false

abbrev pub is_finalizing : UploadState → Bool
is_finalizing uploading = false
is_finalizing finalizing = true
is_finalizing finalized = false

abbrev pub is_finalized : UploadState → Bool
is_finalized uploading = false
is_finalized finalizing = false
is_finalized finalized = true

pub record Upload : Type 0 where
  pub id : ℕ
  pub tenant_id : String
  pub name : String
  pub total_size : ℕ
  pub chunk_size : ℕ
  pub state : UploadState
  pub expected_sha256 : Option ℕ
  pub expected_size : Option ℕ
  pub artifact_id : Option ℕ
  pub created_at : ℕ

pub record Chunk : Type 0 where
  pub upload_id : ℕ
  pub chunk_index : ℕ
  pub size : ℕ
  pub sha256 : ℕ

pub record Blob : Type 0 where
  pub content_hash : ℕ
  pub size : ℕ
  pub refcount : ℕ
  pub validated : Bool
  pub created_at : ℕ

pub record Artifact : Type 0 where
  pub id : ℕ
  pub tenant_id : String
  pub upload_id : ℕ
  pub name : String
  pub size : ℕ
  pub sha256 : ℕ
  pub created_at : ℕ

-- uploads/<upload_id>/chunks/<index>.chunk
pub record ChunkFile : Type 0 where
  pub upload_id : ℕ
  pub index : ℕ
  pub content : List ℕ

-- gc-trash/<digest>.<tag>.gc
pub record TrashFile : Type 0 where
  pub digest : ℕ
  pub tag : ℕ
  pub content : List ℕ

-- A request's temporary, `*.tmp.<tag>`: in the chunk directory of an upload, or under blobs/.
pub record TempFile : Type 0 where
  pub owner : Option ℕ
  pub tag : ℕ
  pub content : List ℕ

-- The committed database, then the directories uploads/, blobs/ and gc-trash/.
pub record Store : Type 0 where
  pub uploads : List Upload
  pub chunks : List Chunk
  pub blobs : List Blob
  pub artifacts : List Artifact
  pub chunk_files : List ChunkFile
  pub blob_files : Dict (List ℕ)
  pub trash : List TrashFile
  pub temps : List TempFile

abbrev pub empty : Store
empty = record {
  uploads = [];
  chunks = [];
  blobs = [];
  artifacts = [];
  chunk_files = [];
  blob_files = [];
  trash = [];
  temps = [];
}
