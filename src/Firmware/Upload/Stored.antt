-- ===== src/Firmware/Upload/Stored.antt =====
-- What `UploadFirmwareHandler` leaves behind (backend/api/firmware.go).
use seagles.Common.{
  ◌≡◌, ◌∙◌, inl, inr, refl, true, false, some, List, ◌∷◌, arith, nat_beq, ◌==◌, length, take,
  Bool-cases, Option-cases,
}
use seagles.Dict.{lookup, insert, delete, IsMap, lookup-insert, lookup-delete, insert-IsMap}
use seagles.Text.{Text, codes, text_eq, text_beq_iff, has_prefix}
use seagles.Text.Prefix.{has_prefix_sound}
use seagles.Firmware.{
  Verdict, valid, empty_file, too_large, unknown_magic, invalid_extension, validate_firmware_file,
}
use seagles.Firmware.Upload.{
  FirmwareRow, Storage, Form, Config, Answers, Response, success, s3_path, store_file, insert_row,
  checked, save, upload_firmware_handler,
}

insert-delete :
    (temp path content : Text) (files : List (Text × Text))
    → IsMap files
    → (temp == path) ≡ false
    → lookup path (delete temp (insert path content files)) ≡ some content
insert-delete temp path content files m ne = ground (
  arith,
  lookup-delete temp path (insert path content files) (insert-IsMap path content files m),
  lookup-insert path path content files,
  text_beq_iff path path,
)

insert_found :
    (path content : Text) (files : List (Text × Text))
    → lookup path (insert path content files) ≡ some content
insert_found path content files =
    ground (arith, lookup-insert path path content files, text_beq_iff path path)

abbrev pub temp_dir : Text
temp_dir = codes "/tmp/seagles-uploads/"

-- A URL of the object store is no path of a temporary file.
url_ne :
    (cfg : Config) (a : Answers) (temp checksum filename url : Text)
    → has_prefix temp temp_dir ≡ true
    → s3_path cfg a checksum filename ≡ some url
    → (temp == url) ≡ false
unfolding s3_path
url_ne cfg a temp checksum filename url h e =
    let (r, f) = has_prefix_sound temp temp_dir h in ground (arith, f, e)

stored :
    (cfg : Config) (a : Answers) (temp checksum filename content : Text)
    (files : List (Text × Text))
    → IsMap files
    → has_prefix temp temp_dir ≡ true
    → let r = store_file cfg a temp checksum filename content files in lookup r.0 r.1 ≡ some content
unfolding store_file
stored cfg a temp checksum filename content files m d =
    elim (Option-cases (s3_path cfg a checksum filename)) [
      | inl e ↦
          rw (e, store_file)
            (elim (Bool-cases a.rename) [
              | inl f ↦ rw (f, store_file) (insert_found _ content _)
              | inr f ↦ rw (f, store_file) (insert_found temp content files)
            ])
      | inr (url, e) ↦
          rw (e, store_file)
            (insert-delete temp url content (insert temp content files)
              (insert-IsMap temp content files m) (url_ne cfg a temp checksum filename url d e))
    ]

checked_success :
    (v : Verdict) (saved : Storage × Response) (st : Storage) (row : FirmwareRow)
    → (checked v saved st).1 ≡ success row
    → (v ≡ valid) × (checked v saved st ≡ saved)
checked_success valid saved st row h = (refl, refl)
checked_success empty_file saved st row h = cc
checked_success too_large saved st row h = cc
checked_success unknown_magic saved st row h = cc
checked_success (invalid_extension e) saved st row h = cc

module _ (hash : Text → Text) (cfg : Config) (form : Form) (a : Answers) (st : Storage) where
  inserted :
      (filename content path : Text) (files : List (Text × Text)) (row : FirmwareRow)
      → (insert_row hash form a filename content (path, files) st).1 ≡ success row
      → ((insert_row hash form a filename content (path, files) st).0.rows ≡ row ∷ st.rows)
        × ((insert_row hash form a filename content (path, files) st).0.files ≡ files)
        × (row.file_path ≡ path)
        × (row.checksum ≡ hash content)
        × (row.file_size_bytes ≡ length content)
  unfolding insert_row
  inserted filename content path files row h = elim (Option-cases a.row_id) [
    | inl e ↦ ground (arith, e)
    | inr (id, e) ↦ ground (arith, e)
  ]

  saved :
      (temp filename content : Text) (row : FirmwareRow)
      → a.temp ≡ some temp
      → (save hash cfg form a filename content st).1 ≡ success row
      → save hash cfg form a filename content st
        ≡ insert_row hash form a filename content
            (store_file cfg a temp (hash content) filename content st.files)
            st
  unfolding save
  saved temp filename content row t h = elim (Bool-cases a.copy) [
    | inl e ↦ rw (t, e, save) refl
    | inr e ↦ ground (arith, t, e)
  ]

  validated :
      (filename content : Text) (row : FirmwareRow)
      → form.file ≡ some (filename, content)
      → (upload_firmware_handler hash cfg form a st).1 ≡ success row
      → upload_firmware_handler hash cfg form a st
        ≡ checked
            (validate_firmware_file filename (take 512 content))
            (save hash cfg form a filename content st)
            st
  unfolding upload_firmware_handler
  validated filename content row e h = elim (Bool-cases (nat_beq (length content) 0)) [
    | inl f ↦ ground (arith, e, f)
    | inr f ↦ elim (Bool-cases a.read_header) [
      | inl g ↦ rw (e, f, g, upload_firmware_handler) refl
      | inr g ↦ ground (arith, e, f, g)
    ]
  ]

  handled :
      (row : FirmwareRow)
      → (upload_firmware_handler hash cfg form a st).1 ≡ success row
      → (filename content : Text) × (form.file ≡ some (filename, content))
        × (validate_firmware_file filename (take 512 content) ≡ valid)
        × (upload_firmware_handler hash cfg form a st ≡ save hash cfg form a filename content st)
  unfolding upload_firmware_handler
  handled row h = elim (Option-cases form.file) [
    | inl e ↦ absurd (ground (arith, e))
    | inr ((filename, content), e) ↦
        let guarded = validated filename content row e h in
        let (v, s) =
          checked_success (validate_firmware_file filename (take 512 content))
            (save hash cfg form a filename content st) st row (cc (guarded, h)) in
        (filename, content, e, v, guarded ∙ s)
  ]

-- An upload that succeeds has added exactly one row, whose path holds the bytes of the file and whose
-- checksum and size are those of these bytes; the name and the first 512 bytes have passed the
-- validation.
pub upload_stored :
    (hash : Text → Text) (cfg : Config) (form : Form) (a : Answers) (st : Storage) (temp : Text)
    (row : FirmwareRow)
    → IsMap st.files
    → a.temp ≡ some temp
    → has_prefix temp temp_dir ≡ true
    → (upload_firmware_handler hash cfg form a st).1 ≡ success row
    → (filename content : Text) × (form.file ≡ some (filename, content))
      × (validate_firmware_file filename (take 512 content) ≡ valid)
      × ((upload_firmware_handler hash cfg form a st).0.rows ≡ row ∷ st.rows)
      × (lookup row.file_path (upload_firmware_handler hash cfg form a st).0.files ≡ some content)
      × (row.checksum ≡ hash content)
      × (row.file_size_bytes ≡ length content)
upload_stored hash cfg form a st temp row m t d h =
    let (filename, content, e, v, s) = handled hash cfg form a st row h in
    let s' = s ∙ saved hash cfg form a st temp filename content row t (cc (s, h)) in
    let (path', files') = store_file cfg a temp (hash content) filename content st.files in
    let (rows, files, path, sum, size) =
      inserted hash cfg form a st filename content path' files' row (cc (s', h)) in
    (
      filename,
      content,
      e,
      v,
      cc (s', rows),
      cc (s', files, path, stored cfg a temp (hash content) filename content st.files m d),
      sum,
      size,
    )
