-- ===== src/Storage/Tests.antt =====
-- The stores on small clients: MinIO with the objects that it holds, and Cloudinary with the last
-- public ID that it was asked to destroy.
use msa_core.Prelude.{
  String, Bool, true, false, ◌≡◌, ◌≢◌, refl, none, ◌==◌, ◌||◌, eq_iff, arith, if◌then◌else◌,
}
use msa_core.Prelude.Result.{ok}
use msa_core.Prelude.Text.{◌+++◌, strip_prefix, contains_char}
use msa_core.Storage.Minio
use msa_core.Storage.Minio.{MinioClient, MinioService, ensure_bucket}
use msa_core.Storage.Cloudinary
use msa_core.Storage.Cloudinary.{Uploader, contains_text, trim_ext, destroyed_id}
use msa_core.Storage.Names.{delete_by_url, upload_file_names}

abbrev Objects : Type 0
Objects = String → Bool

abbrev minio : MinioClient String Objects
minio = record {
  bucket_exists = λ b s. (ok true, s);
  make_bucket = λ b r s. (none, s);
  put_object = λ b n c t s. (none, λ j. j == n || s j);
  presigned_get_object = λ b n s. ok (b +++ n);
  remove_object = λ b n s. (none, λ j. if j == n then false else s j);
}

abbrev service : MinioService
service = record { bucket_name = "farm"; bucket_region = "eu" }

removed_one : (k j : String) (s : Objects) → k ≢ j → (if j == k then false else s j) ≡ s j
removed_one k j s ne = ground (arith, eq_iff j k)

abbrev picture : Minio.FileHeader String
picture = record { filename = "a.png"; content = ok "bytes"; content_type = "image/png" }

abbrev empty : Objects
empty j = false

abbrev full : Objects
full j = j == "pics/20240101000000-a.png" || empty j

uploaded :
    Minio.upload_file minio service "20240101000000" picture "pics" empty
    ≡ (ok "pics/20240101000000-a.png", full)
unfolding Minio.upload_file ensure_bucket
uploaded = refl

upload_file_names_example :
    (Minio.download_file minio service ("20240101000000" +++ "-" +++ "a.png") "pics" full
      ≡ ok "farmpics/20240101000000-a.png")
    × ((Minio.delete_file minio service "pics/20240101000000-a.png" "pics" full).1
          "pics/20240101000000-a.png"
        ≡ true)
upload_file_names_example =
    upload_file_names minio service (λ s j. s j) removed_one "20240101000000" "pics"
      "pics/20240101000000-a.png" "pics" picture empty full uploaded

abbrev cloud : Uploader String String
cloud = record { upload = λ c p s. (ok p.public_id, s); destroy = λ id s. (none, id) }

in_cloudinary :
    contains_text "cloudinary.com" ("https://res.cloudinary.com/pics" +++ "/" +++ "a.b.png") ≡ true
unfolding contains_text strip_prefix
in_cloudinary = refl

names :
    (trim_ext "a.b.png" ≡ "a.b")
    × (trim_ext "dir.d/a" ≡ "dir.d/a")
    × (destroyed_id "pics/a" ≡ "pics/a")
unfolding trim_ext destroyed_id contains_text strip_prefix contains_char
names = (refl, refl, refl)

delete_by_url_example :
    Cloudinary.delete_file cloud ("https://res.cloudinary.com/pics" +++ "/" +++ "a.b.png") ""
    ≡ (none, trim_ext "a.b.png")
delete_by_url_example =
    delete_by_url cloud "https://res.cloudinary.com/pics" "a.b.png" "" in_cloudinary (omega arith)
