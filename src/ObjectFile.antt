-- ===== src/ObjectFile.antt =====
-- TactilityCore/Source/file/ObjectFile.cpp. The file at `filePath` is the list of its bytes, `none`
-- when there is no file; a `FILE` is its position. Whether `fopen`, `fseek` and the calls of
-- `getSize` succeed, and how much of a `fwrite` is written, are inputs of the operations.
-- Headers are laid out as on the little-endian targets. Buffering by the C library is left out.
pub mod Reader
pub mod Writer
pub mod Bytes
pub mod Sessions
pub mod Clients
pub mod Reads
pub mod RoundTrip
pub mod Tests
use tactility_halo.Base.{
  ℕ, zero, suc, ◌+◌, ◌*◌, ◌/◌, ◌%◌, ◌^◌, Bool, true, false, ◌&&◌, List, [], ◌∷◌, ◌++◌, Option, none,
  some, ltb, leb, ◌==◌, if◌then◌else◌, length, take, drop,
}
use tactility_halo.Files.{Stream, SizeCalls, get_size}

abbrev pub Bytes : Type 0
Bytes = List ℕ

abbrev pub Disk : Type 0
Disk = Option Bytes

abbrev pub object_file_identifier : ℕ
object_file_identifier = 0x1337_1337

abbrev pub object_file_version : ℕ
object_file_version = 1

-- The bytes of an `uint32_t`, and their value.
pub u32_bytes : ℕ → Bytes
u32_bytes n = n % 256 ∷ n / 256 % 256 ∷ n / 65536 % 256 ∷ n / 16777216 % 256 ∷ []

pub u32_at : ℕ → Bytes → ℕ
u32_at offset bytes = elim (drop offset bytes) [
  | a ∷ b ∷ c ∷ d ∷ _ ↦ a + b * 256 + c * 65536 + d * 16777216
  | _ ↦ 0
]

abbrev pub file_header_size : ℕ
file_header_size = 8

abbrev pub content_header_size : ℕ
content_header_size = 12

-- `FileHeader` with its default values.
pub file_header : Bytes
file_header = u32_bytes object_file_identifier ++ u32_bytes object_file_version

pub record ContentHeader : Type 0 where
  pub record_version : ℕ
  pub record_size : ℕ
  pub record_count : ℕ

pub content_header_bytes : ContentHeader → Bytes
content_header_bytes h =
    u32_bytes h.record_version ++ u32_bytes h.record_size ++ u32_bytes h.record_count

-- A write at a position. A gap behind the end of the file is filled with zeros.
pub write_at : ℕ → Bytes → Bytes → Bytes
write_at p [] content = content
write_at zero (b ∷ bs) [] = b ∷ write_at zero bs []
write_at zero (b ∷ bs) (x ∷ content) = b ∷ write_at zero bs content
write_at (suc p) (b ∷ bs) [] = 0 ∷ write_at p (b ∷ bs) []
write_at (suc p) (b ∷ bs) (x ∷ content) = x ∷ write_at p (b ∷ bs) content

-- `fread(output, size, 1, file)`: the new position, and the bytes when the result is 1.
pub fread : ℕ → Bytes → ℕ → ℕ × Option Bytes
fread size content position =
    if size == 0
    then (position, none)
    else if leb (position + size) (length content)
    then (position + size, some (take size (drop position content)))
    else (if leb position (length content) then length content else position, none)

-- `fwrite(output, size, 1, file)`: the new content and position, and whether the result is 1. A
-- `shortage` is the number of bytes after which the device is full.
pub fwrite : Option ℕ → Bytes → Bytes → ℕ → Bytes × ℕ × Bool
fwrite none [] content position = (content, position, false)
fwrite none (b ∷ bs) content position =
    (write_at position (b ∷ bs) content, position + length (b ∷ bs), true)
fwrite (some shortage) output content position =
    let part = take shortage output in
    (
      write_at position part content,
      position + length part,
      ltb 0 (length output) && leb (length output) shortage,
    )

-- The fields of a content header that was read.
pub content_header_at : Bytes → ContentHeader
content_header_at h = record {
  record_version = u32_at 0 h;
  record_size = u32_at 4 h;
  record_count = u32_at 8 h;
}

pub is_file_header : Bytes → Bool
is_file_header header =
    u32_at 0 header == object_file_identifier && u32_at 4 header == object_file_version

-- Both `open` functions read the two headers in the same way: the position behind them, and the
-- content header when the file header is the expected one.
pub read_headers : Bytes → Option (ℕ × ContentHeader)
read_headers content =
    let (position, header) = fread file_header_size content 0 in
    elim header [
      | none ↦ none
      | some header ↦
          let (position', content_header) = fread content_header_size content position in
          if is_file_header header
          then elim content_header [ none ↦ none | some h ↦ some (position', content_header_at h) ]
          else none
    ]
