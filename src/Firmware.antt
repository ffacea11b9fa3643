-- ===== src/Firmware.antt =====
-- Firmware files: `ValidateFirmwareFile` of backend/middleware/sanitize.go here, the handlers of
-- backend/api/firmware.go in Upload and Analysis.
pub mod Accepted
pub mod Upload
pub mod Analysis
use seagles.Common.{
  ℕ, ◌*◌, ◌+◌, Bool, true, false, ◌&&◌, ◌||◌, List, [], ◌∷◌, ltb, leb, nat_beq, ◌==◌, if◌then◌else◌,
  length, take, drop, any,
}
use seagles.Text.{Text, codes, text_eq, to_lower}
use mathlib.Core.List.{reverse}

pub record Magic : Type 0 where
  pub magic : List ℕ
  pub offset : ℕ

abbrev at_start : List ℕ → Magic
at_start bytes = record { magic = bytes; offset = 0 }

abbrev pub firmware_magic_bytes : List Magic
firmware_magic_bytes =
    at_start (31 ∷ 139 ∷ [])
    ∷ at_start (66 ∷ 90 ∷ 104 ∷ [])
    ∷ at_start (253 ∷ 55 ∷ 122 ∷ 88 ∷ 90 ∷ [])
    ∷ at_start (80 ∷ 75 ∷ 3 ∷ 4 ∷ [])
    ∷ at_start (82 ∷ 97 ∷ 114 ∷ 33 ∷ 26 ∷ 7 ∷ [])
    ∷ at_start (55 ∷ 122 ∷ 188 ∷ 175 ∷ 39 ∷ 28 ∷ [])
    ∷ at_start (127 ∷ 69 ∷ 76 ∷ 70 ∷ [])
    ∷ []

abbrev pub valid_exts : List Text
valid_exts =
    codes ".bin"
    ∷ codes ".elf"
    ∷ codes ".so"
    ∷ codes ".gz"
    ∷ codes ".tar"
    ∷ codes ".bz2"
    ∷ codes ".xz"
    ∷ codes ".zip"
    ∷ codes ".rar"
    ∷ codes ".7z"
    ∷ codes ".img"
    ∷ codes ".fw"
    ∷ codes ".rom"
    ∷ codes ".squashfs"
    ∷ codes ".ubifs"
    ∷ codes ".jffs2"
    ∷ codes ".cramfs"
    ∷ []

-- The loop of `filepathExt` from the last byte on: what is left of the name, its last byte first,
-- and the bytes that were passed.
unfoldable pub ext_loop : Text → Text → Text
ext_loop [] passed = []
ext_loop (c ∷ rest) passed =
    let further = ext_loop rest (c ∷ passed) in
    if nat_beq c 46 then c ∷ passed else (if nat_beq c 47 || nat_beq c 92 then [] else further)

unfoldable pub filepath_ext : Text → Text
unfolding ext_loop
filepath_ext filename = ext_loop (reverse filename) []

unfoldable pub has_magic : List ℕ → Magic → Bool
has_magic bytes m =
    leb (m.offset + length m.magic) (length bytes)
    && take (length m.magic) (drop m.offset bytes) == m.magic

unfoldable pub is_valid_ext : Text → Bool
is_valid_ext ext = any (λ e. e == ext) valid_exts

unfoldable pub has_known_magic : List ℕ → Bool
unfolding has_magic
has_known_magic bytes = any (has_magic bytes) firmware_magic_bytes

-- The returned error, or that there is none.
pub data Verdict : Type 0 where
  valid empty_file too_large unknown_magic : Verdict
  invalid_extension : Text → Verdict

abbrev pub max_file_size : ℕ
max_file_size = 268435456

unfoldable pub validate_firmware_file : Text → List ℕ → Verdict
unfolding filepath_ext is_valid_ext has_known_magic
validate_firmware_file filename bytes =
    if nat_beq (length bytes) 0
    then empty_file
    else (if ltb max_file_size (length bytes)
        then too_large
        else (let ext = to_lower (filepath_ext filename) in
            if is_valid_ext ext
            then (if has_known_magic bytes then valid else unknown_magic)
            else invalid_extension ext))
