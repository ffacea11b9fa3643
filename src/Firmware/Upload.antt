-- ===== src/Firmware/Upload.antt =====
-- `UploadFirmwareHandler` of backend/api/firmware.go. The file system and the object store are one
-- map from locations to contents, in which an object stands under its s3:// URL. `hash` is the
-- SHA-256 digest in hexadecimal.
pub mod Stored
use seagles.Common.{
  ℕ, Bool, true, false, not, ◌&&◌, ◌||◌, Option, none, some, List, [], ◌∷◌, ◌++◌, nat_beq, ◌==◌,
  if◌then◌else◌, length, take,
}
use seagles.Dict.{insert, delete}
use seagles.Text.{Text, codes, text_eq, trim_space}
use seagles.Firmware.{Verdict, valid, validate_firmware_file}

pub record FirmwareRow : Type 0 where
  pub id : Text
  pub device_id : Option Text
  pub vendor : Option Text
  pub version : Option Text
  pub checksum : Text
  pub file_path : Text
  pub file_size_bytes : ℕ
  pub original_filename : Text
  pub analysis_status : Text

pub record Storage : Type 0 where
  pub files : List (Text × Text)
  pub rows : List FirmwareRow

-- The multipart form; `file` is none where `FormFile` fails, which it does for a body of more than
-- 256 MB.
pub record Form : Type 0 where
  pub file : Option (Text × Text)
  pub device_id : Text
  pub vendor : Text
  pub version : Text

pub record Config : Type 0 where
  pub s3_endpoint : Text
  pub s3_access_key : Text
  pub s3_bucket : Text

-- What the calls outside the program answer: `temp` is the file that os.CreateTemp makes, `row_id`
-- the id of the inserted row, and the others say whether the call succeeds.
pub record Answers : Type 0 where
  pub read_header : Bool
  pub temp : Option Text
  pub copy : Bool
  pub minio_new : Bool
  pub put_object : Bool
  pub rename : Bool
  pub row_id : Option Text

pub data Response : Type 0 where
  bad_request : Response
  invalid_file : Verdict → Response
  internal_error : Response
  success : FirmwareRow → Response

unfoldable pub nullable_string : Text → Option Text
nullable_string s = let trimmed = trim_space s in if trimmed == [] then none else some trimmed

abbrev or_default : Text → Text
or_default [] = codes "seagles-firmware"
or_default (c ∷ s) = c ∷ s

-- Where the object goes, if the object store is used and takes it.
unfoldable pub s3_path : Config → Answers → Text → Text → Option Text
s3_path cfg a checksum filename =
    if cfg.s3_endpoint == [] || (cfg.s3_access_key == [] || not (a.minio_new && a.put_object))
    then none
    else some (
        codes "s3://"
        ++ (or_default cfg.s3_bucket ++ (codes "/" ++ (checksum ++ (codes "/" ++ filename)))))

abbrev local_path : Text → Text → Text
local_path checksum filename =
    codes "data/firmware-uploads/" ++ (take 8 checksum ++ (codes "_" ++ filename))

abbrev move : Text → Text → Text → List (Text × Text) → List (Text × Text)
move old new content files = insert new content (delete old files)

-- The final path, and the files once the upload is there.
unfoldable pub store_file :
    Config → Answers → Text → Text → Text → Text → List (Text × Text) → Text × List (Text × Text)
unfolding s3_path
store_file cfg a temp checksum filename content files =
    let files' = insert temp content files in
    elim (s3_path cfg a checksum filename) [
      | some url ↦ (url, delete temp (insert url content files'))
      | none ↦
          if a.rename
          then (
            local_path checksum filename,
            move temp (local_path checksum filename) content files',
          )
          else (temp, files')
    ]

abbrev pub checked : Verdict → Storage × Response → Storage → Storage × Response
checked valid saved st = saved
checked verdict saved st = (st, invalid_file verdict)

module _ (hash : Text → Text) where
  abbrev row_of : Form → Text → Text → Text → Text → FirmwareRow
  row_of form filename content path id = record {
    id = id;
    device_id = nullable_string form.device_id;
    vendor = nullable_string form.vendor;
    version = nullable_string form.version;
    checksum = hash content;
    file_path = path;
    file_size_bytes = length content;
    original_filename = filename;
    analysis_status = codes "pending";
  }

  unfoldable pub insert_row :
      Form → Answers → Text → Text → Text × List (Text × Text) → Storage → Storage × Response
  unfolding nullable_string
  insert_row form a filename content (path, files) st = elim a.row_id [
    | none ↦ (record st { files = files }, internal_error)
    | some id ↦
        let row = row_of form filename content path id in
        (record { files = files; rows = row ∷ st.rows }, success row)
  ]

  -- From the temporary file on.
  unfoldable pub save : Config → Form → Answers → Text → Text → Storage → Storage × Response
  unfolding insert_row store_file
  save cfg form a filename content st = elim a.temp [
    | none ↦ (st, internal_error)
    | some temp ↦
        if a.copy
        then insert_row form a filename content
            (store_file cfg a temp (hash content) filename content st.files) st
        else (record st { files = delete temp st.files }, internal_error)
  ]

  unfoldable pub upload_firmware_handler : Config → Form → Answers → Storage → Storage × Response
  unfolding save
  upload_firmware_handler cfg form a st = elim form.file [
    | none ↦ (st, bad_request)
    | some (filename, content) ↦
        if nat_beq (length content) 0
        then (st, bad_request)
        else (if a.read_header
            then checked (validate_firmware_file filename (take 512 content))
                (save cfg form a filename content st) st
            else (st, bad_request))
  ]
