-- ===== src/Tests/Requests.antt =====
-- A sanitised request body, and uploads of firmware files.
use seagles.Common.{
  ℕ, ◌≤◌, ◌≡◌, ◌⊎◌, arith, refl, true, false, Option, none, some, List, [], ◌∷◌, ◌++◌, ◌==◌,
  if◌then◌else◌, length, take, drop,
}
use seagles.Dict.{lookup, applied}
use seagles.Text.{Text, codes, text_eq, contains, has_prefix, to_lower, trim_space}
use seagles.Sanitize as S
use seagles.Sanitize.{
  Value, default_xss_config, sanitize_input, sanitize_value, null, number, string, object, field,
  end,
}
use seagles.Sanitize.Bodies.{Cleaned, sanitize_input_cleans}
use seagles.Firmware.{
  Magic, filepath_ext, valid, valid_exts, firmware_magic_bytes, max_file_size,
  validate_firmware_file, is_valid_ext, has_known_magic,
}
use seagles.Firmware.Accepted.{Extends, validate_firmware_file_sound}
use seagles.Firmware.Upload as U
use seagles.Firmware.Upload.{upload_firmware_handler}
use seagles.Firmware.Upload.Stored.{upload_stored}
use seagles.Firmware.Analysis as A
use seagles.Firmware.Analysis.{run_analysis, accepted}
use seagles.Firmware.Analysis.Ended.{ended, reported, analysis_ends}
use mathlib.Core.List.{Mem}

-- A codec of one value only.
abbrev shown : Value
shown = object (field (codes "n") (string (codes "a<script>b")) end)

abbrev parse : Text → Option Value
parse t = some shown

abbrev print : Value → Option Text
print v = some (codes "{}")

abbrev post : S.Request
post = record {
  content_type = codes "application/json";
  method = codes "POST";
  body = some (codes "{..}");
}

sanitize_input_cleans_example :
    (trim_space (codes "{}") ≡ [])
    ⊎ ((raw : Text) × (post.body ≡ some raw)
        × Cleaned parse print
            (λ v. (codes "{}", refl))
            (take default_xss_config.max_body_length raw)
            (codes "{}"))
sanitize_input_cleans_example =
    sanitize_input_cleans parse print (λ v. (codes "{}", refl)) default_xss_config post (codes "{}")
      refl (unfold contains has_prefix in refl) refl
      (unfold sanitize_input trim_space contains has_prefix in refl)

abbrev image : List ℕ
image = 31 ∷ 139 ∷ 8 ∷ 0 ∷ []

abbrev image_name : Text
image_name = codes "fw.v2.GZ"

image_valid : validate_firmware_file image_name image ≡ valid
unfolding validate_firmware_file filepath_ext to_lower is_valid_ext has_known_magic
image_valid = refl

validate_firmware_file_sound_example :
    (1 ≤ length image)
    × (length image ≤ max_file_size)
    × Extends image_name (filepath_ext image_name)
    × Mem (to_lower (filepath_ext image_name)) valid_exts
    × (m : Magic) × (rest : List ℕ) × Mem m firmware_magic_bytes
    × (drop m.offset image ≡ m.magic ++ rest)
validate_firmware_file_sound_example = validate_firmware_file_sound image_name image image_valid

abbrev form : U.Form
form = record {
  file = some (image_name, image);
  device_id = codes "d1";
  vendor = [];
  version = codes "2";
}

abbrev answers : U.Answers
answers = record {
  read_header = true;
  temp = some (codes "/tmp/seagles-uploads/upload-7");
  copy = true;
  minio_new = true;
  put_object = true;
  rename = true;
  row_id = some (codes "f1");
}

abbrev no_store : U.Config
no_store = record { s3_endpoint = []; s3_access_key = []; s3_bucket = [] }

abbrev digest : Text → Text
digest t = codes "0123456789"

abbrev row : U.FirmwareRow
row = record {
  id = codes "f1";
  device_id = some (codes "d1");
  vendor = none;
  version = some (codes "2");
  checksum = codes "0123456789";
  file_path = codes "data/firmware-uploads/01234567_fw.v2.GZ";
  file_size_bytes = 4;
  original_filename = image_name;
  analysis_status = codes "pending";
}

abbrev empty : U.Storage
empty = record { files = []; rows = [] }

upload_stored_example :
    (filename content : Text) × (form.file ≡ some (filename, content))
    × (validate_firmware_file filename (take 512 content) ≡ valid)
    × ((upload_firmware_handler digest no_store form answers empty).0.rows ≡ row ∷ [])
    × (lookup row.file_path (upload_firmware_handler digest no_store form answers empty).0.files
        ≡ some content)
    × (row.checksum ≡ digest content)
    × (row.file_size_bytes ≡ length content)
upload_stored_example =
    upload_stored digest no_store form answers empty (codes "/tmp/seagles-uploads/upload-7") row tt
      refl (unfold has_prefix in refl)
      (unfold upload_firmware_handler validate_firmware_file filepath_ext to_lower is_valid_ext
          has_known_magic trim_space in
        refl)

abbrev stored_row : A.AnalysisRow
stored_row = record {
  device_id = some (codes "d1");
  analysis_status = codes "pending";
  analyzed_at = none;
  entropy_score = none;
}

abbrev db : A.Db
db = record { firmware = (codes "f1", stored_row) ∷ []; alerts = [] }

abbrev job : A.Job
job = record { id = codes "f1"; device_id = some (codes "d1") }

abbrev updates : A.Updates
updates = record { mark_pending = true; mark_failed = true; mark_complete = true }

abbrev report : A.Report
report = record { entropy_score = 7; suspicious = true }

abbrev reply : A.Reply
reply = A.response 200 (some report)

analysis_ends_example :
    lookup
      (codes "f1")
      (run_analysis
        (λ n. [])
        (record { count = false; insert = false })
        updates
        50
        reply
        job
        db).firmware
    ≡ (if codes "f1" == codes "f1"
        then applied (ended 50 (some report)) (lookup (codes "f1") db.firmware)
        else lookup (codes "f1") db.firmware)
analysis_ends_example =
    analysis_ends (λ n. []) (record { count = false; insert = false }) updates 50 job db
      (codes "f1") reply (some report) (reported 200 report (omega arith) (omega arith)) refl refl
