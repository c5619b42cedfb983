-- ===== src/Storage/Names.antt =====
-- Which objects the names that the stores give stand for.
use Prim.Native.Char.{Char, code}
use Prim.Native.String.{[], ◌∷◌}
use text.Mathlib.TextLemmas.{
  append_assoc, cons-append, nil-append, append_cancel_right, append-ne-nil_of_right_ne-nil,
  cons-ne-nil,
}
use msa_core.Prelude.{
  ℕ, String, Bool, true, ◌≡◌, ◌≢◌, refl, ap, sym, ◌∙◌, inl, inr, Option, none, some, ◌++◌, nat_beq,
  if◌then◌else◌, arith, Bool-cases,
}
use mathlib.Core.List.{List, [], ◌∷◌}
use msa_core.Prelude.Result.{Error, Result, ok, err}
use msa_core.Prelude.Text.{◌+++◌, split, cons_head}
use msa_core.Prelude.Text.Split.{Lacks, split-Lacks}
use msa_core.Storage.Minio
use msa_core.Storage.Minio.{
  MinioClient, MinioService, object_name, named, stored, after_bucket, ensure_bucket,
}
use msa_core.Storage.Cloudinary
use msa_core.Storage.Cloudinary.{Uploader, contains_text, trim_ext, last_part, destroyed_id}

-- a text with a separator in it splits into two or more parts, the last one what follows the last one
abbrev EndsIn : String → List String → Type 0
EndsIn b parts = (w : String) × (ws : List String) × (parts ≡ w ∷ (ws ++ b ∷ []))

EndsIn-next :
    (sep : ℕ) (c : Char) (b : String) (parts : List String)
    → EndsIn b parts
    → EndsIn b (if nat_beq (code c) sep then "" ∷ parts else cons_head c parts)
EndsIn-next sep c b parts (w, ws, e) = elim (Bool-cases (nat_beq (code c) sep)) [
  | inl yes_sep ↦ ("", w ∷ ws, rw (yes_sep, e) refl)
  | inr no_sep ↦ ((c ∷ w), ws, rw (no_sep, e) refl)
]

split-EndsIn :
    (sep : Char) (a b : String) → Lacks (code sep) b → EndsIn b (split (code sep) (a +++ (sep ∷ b)))
unfolding split
split-EndsIn sep [] b h = ("", [], rw (nil-append, split-Lacks sep b h) (ground arith))
split-EndsIn sep (c ∷ a) b h =
    rw cons-append
      (EndsIn-next (code sep) c b (split (code sep) (a +++ (sep ∷ b))) (split-EndsIn sep a b h))

last_part-append : (d b : String) (ws : List String) → last_part d (ws ++ b ∷ []) ≡ b
last_part-append d b [] = refl
last_part-append d b (w ∷ ws) = last_part-append w b ws

abbrev slash : Char
slash = "/"

slash_append : (a b : String) → a +++ "/" +++ b ≡ a +++ (slash ∷ b)
slash_append a b =
    append_assoc a "/" b
    ∙ ap (λ (t : String). a +++ t)
        (cons-append slash "" b ∙ ap (λ (t : String). slash ∷ t) (nil-append b))

last_of_url :
    (base file : String)
    → Lacks b'/' file
    → last_part "" (split b'/' (base +++ "/" +++ file)) ≡ file
last_of_url base file h =
    let (w, ws, e) = split-EndsIn slash base file h in
    ap (λ (t : String). last_part "" (split b'/' t)) (slash_append base file)
    ∙ ap (last_part "") e
    ∙ last_part-append w file ws

-- DeleteFile with a URL of Cloudinary destroys the public ID that is the last part of the URL without
-- its extension, whatever stands before it: the folder that UploadFile has put the file into is
-- not part of the ID.
pub delete_by_url :
    {C S : Type 0} (client : Uploader C S) (base file : String) (s : S)
    → contains_text "cloudinary.com" (base +++ "/" +++ file) ≡ true
    → Lacks b'/' file
    → Cloudinary.delete_file client (base +++ "/" +++ file) s ≡ client.destroy (trim_ext file) s
unfolding Cloudinary.delete_file destroyed_id
delete_by_url client base file s url h =
    ap (λ (id : String). client.destroy id s) (rw url (ap trim_ext (last_of_url base file h)))

prefixed-ne : (other name : String) → other +++ "/" +++ name ≢ name
prefixed-ne other name e =
    append-ne-nil_of_right_ne-nil other (cons-ne-nil slash "")
      (append_cancel_right (other +++ "/") "" name (e ∙ sym (nil-append name)))

named_ok :
    {S : Type 0} (n name : String) (r : Option Error × S) (s : S)
    → named n r ≡ (ok name, s)
    → name ≡ n
named_ok n name (none, t) s h = cc
named_ok n name (some e, t) s h = cc

module _ {C S : Type 0} (client : MinioClient C S) (svc : MinioService) where
  stored_ok :
      (n name content_type : String) (c : Result C) (t s : S)
      → stored client svc n content_type c t ≡ (ok name, s)
      → name ≡ n
  stored_ok n name content_type (err e) t s h = cc
  stored_ok n name content_type (ok c) t s h = named_ok n name _ s h

  after_bucket_ok :
      (n name : String) (file : Minio.FileHeader C) (r : Option Error × S) (s : S)
      → after_bucket client svc n file r ≡ (ok name, s)
      → name ≡ n
  after_bucket_ok n name file (some e, t) s h = cc
  after_bucket_ok n name file (none, t) s h = stored_ok n name file.content_type file.content t s h

-- When MinIO's UploadFile succeeds with a name, DownloadFile of the part of the name after the folder,
-- with the same folder, asks for that object; but DeleteFile of the name itself leaves the object
-- where it is, with whatever folder, since it puts the folder before the name again. A removal
-- changes no other object.
pub upload_file_names :
    {C S : Type 0} (client : MinioClient C S) (svc : MinioService) (holds : S → String → Bool)
    → ((k j : String) (s : S)
        → k ≢ j
        → holds (client.remove_object svc.bucket_name k s).1 j ≡ holds s j)
    → (stamp folder name other : String) (file : Minio.FileHeader C) (s s' : S)
    → Minio.upload_file client svc stamp file folder s ≡ (ok name, s')
    → (Minio.download_file client svc (stamp +++ "-" +++ file.filename) folder s'
        ≡ client.presigned_get_object svc.bucket_name name s')
      × (holds (Minio.delete_file client svc name other s').1 name ≡ holds s' name)
unfolding Minio.upload_file Minio.download_file Minio.delete_file
upload_file_names client svc holds kept stamp folder name other file s s' h =
    let e : name ≡ object_name folder stamp file.filename =
      after_bucket_ok client svc (object_name folder stamp file.filename) name file
        (ensure_bucket client svc svc.bucket_name s) s' h in
    (
      ap (λ (n : String). client.presigned_get_object svc.bucket_name n s')
          (sym (append_assoc (folder +++ "/") (stamp +++ "-") file.filename)
            ∙ ap (λ (t : String). t +++ file.filename)
                (sym (append_assoc (folder +++ "/") stamp "-"))
            ∙ sym e),
      kept (other +++ "/" +++ name) name s' (prefixed-ne other name),
    )
