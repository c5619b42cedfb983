-- ===== src/Storage/Cloudinary.antt =====
-- pkg/infrastructure/cloudinary/cloudinary.go. The uploader of Cloudinary is a parameter.
use Prim.Native.Char.{code}
use Prim.Native.String.{[], ◌∷◌}
use msa_core.Prelude.{
  String, Bool, true, false, not, ◌&&◌, ◌||◌, Option, none, some, List, nat_beq, if◌then◌else◌,
}
use mathlib.Core.List.{List, [], ◌∷◌}
use msa_core.Prelude.Result.{Error, Result, ok, err}
use msa_core.Prelude.Text.{◌+++◌, split, strip_prefix, contains_char}

-- multipart.FileHeader, and uploader.UploadParams; the resource type is always "auto", and the file
-- overwrites one of the same name
pub record FileHeader (C : Type 0) : Type 0 where
  pub filename : String
  pub content : Result C

pub record UploadParams : Type 0 where
  pub public_id : String
  pub folder : String
  pub overwrite : Bool
  pub invalidate : Bool

-- the secure URL of what has been uploaded, or the error
pub record Uploader (C S : Type 0) : Type 0 where
  pub upload : C → UploadParams → S → Result String × S
  pub destroy : String → S → Option Error × S

-- a dot that `filepath.Ext` finds: the last one after the last slash
abbrev pub has_ext : String → Bool
has_ext [] = false
has_ext (c ∷ s) = has_ext s || (nat_beq (code c) b'.' && not (contains_char b'/' s))

-- `strings.TrimSuffix(name, filepath.Ext(name))`
unfoldable pub trim_ext : String → String
trim_ext [] = []
trim_ext (c ∷ s) =
    if has_ext s
    then c ∷ trim_ext s
    else if nat_beq (code c) b'.' && not (contains_char b'/' s)
    then []
    else c ∷ s

abbrev is_some : {A : Type 0} → Option A → Bool
is_some none = false
is_some (some a) = true

-- `strings.Contains(s, p)`
unfoldable pub contains_text : String → String → Bool
contains_text p [] = is_some (strip_prefix p [])
contains_text p (c ∷ s) = is_some (strip_prefix p (c ∷ s)) || contains_text p s

-- `parts[len(parts)-1]`
abbrev pub last_part : String → List String → String
last_part w [] = w
last_part w (v ∷ vs) = last_part v vs

-- the public ID that DeleteFile destroys: the file's name in a URL of Cloudinary
unfoldable pub destroyed_id : String → String
destroyed_id public_id =
    if contains_text "cloudinary.com" public_id
    then trim_ext (last_part "" (split b'/' public_id))
    else public_id

module _ {C S : Type 0} (client : Uploader C S) where
  abbrev uploaded : String → String → Result C → S → Result String × S
  uploaded public_id folder (err e) s = (err e, s)
  uploaded public_id folder (ok c) s =
      client.upload c
        (record { public_id = public_id; folder = folder; overwrite = true; invalidate = true }) s

  unfoldable pub upload_file : FileHeader C → String → S → Result String × S
  upload_file file folder s = uploaded (trim_ext file.filename) folder file.content s

  unfoldable pub delete_file : String → S → Option Error × S
  delete_file public_id s = client.destroy (destroyed_id public_id) s

-- the transformations are not used
unfoldable pub get_image_url : String → String → String
get_image_url cloud_name public_id =
    "https://res.cloudinary.com/" +++ cloud_name +++ "/image/upload/" +++ public_id
