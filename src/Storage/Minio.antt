-- ===== src/Storage/Minio.antt =====
-- pkg/infrastructure/minio/minio.go. The client of MinIO is a parameter, over a state of any type. The
-- time is given as the text of its fourteen digits.
use msa_core.Prelude.{String, Bool, true, false, Option, none, some}
use msa_core.Prelude.Result.{Error, Result, ok, err}
use msa_core.Prelude.Text.{◌+++◌}

-- multipart.FileHeader: what Open gives, and the header Content-Type
pub record FileHeader (C : Type 0) : Type 0 where
  pub filename : String
  pub content : Result C
  pub content_type : String

-- the calls of minio.Client, each with the bucket first
pub record MinioClient (C S : Type 0) : Type 0 where
  pub bucket_exists : String → S → Result Bool × S
  pub make_bucket : String → String → S → Option Error × S
  pub put_object : String → String → C → String → S → Option Error × S
  pub presigned_get_object : String → String → S → Result String
  pub remove_object : String → String → S → Option Error × S

pub record MinioService : Type 0 where
  pub bucket_name : String
  pub bucket_region : String

abbrev pub object_name : String → String → String → String
object_name folder stamp filename = folder +++ "/" +++ stamp +++ "-" +++ filename

abbrev pub named : {S : Type 0} → String → Option Error × S → Result String × S
named name (none, s) = (ok name, s)
named name (some e, s) = (err e, s)

module _ {C S : Type 0} (client : MinioClient C S) (svc : MinioService) where
  abbrev made_if_missing : String → Result Bool × S → Option Error × S
  made_if_missing bucket (err e, s) = (some e, s)
  made_if_missing bucket (ok true, s) = (none, s)
  made_if_missing bucket (ok false, s) = client.make_bucket bucket svc.bucket_region s

  unfoldable pub ensure_bucket : String → S → Option Error × S
  ensure_bucket bucket s = made_if_missing bucket (client.bucket_exists bucket s)

  abbrev pub stored : String → String → Result C → S → Result String × S
  stored name content_type (err e) s = (err e, s)
  stored name content_type (ok c) s =
      named name (client.put_object svc.bucket_name name c content_type s)

  abbrev pub after_bucket : String → FileHeader C → Option Error × S → Result String × S
  after_bucket name file (some e, s) = (err e, s)
  after_bucket name file (none, s) = stored name file.content_type file.content s

  -- the name of the object, with the folder in it
  unfoldable pub upload_file : String → FileHeader C → String → S → Result String × S
  upload_file stamp file folder s =
      after_bucket (object_name folder stamp file.filename) file (ensure_bucket svc.bucket_name s)

  unfoldable pub download_file : String → String → S → Result String
  download_file file_id folder s =
      client.presigned_get_object svc.bucket_name (folder +++ "/" +++ file_id) s

  unfoldable pub delete_file : String → String → S → Option Error × S
  delete_file file_id folder s = client.remove_object svc.bucket_name (folder +++ "/" +++ file_id) s
