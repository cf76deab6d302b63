-- ===== src/ObjectFile/Writer.antt =====
-- The class `ObjectFileWriter`.
use tactility_halo.Base.{
  ℕ, ◌+◌, ◌%◌, ◌^◌, Bool, true, false, ◌&&◌, [], Option, none, some, ltb, ◌==◌, if◌then◌else◌,
  length,
}
use tactility_halo.Files.{SizeCalls, get_size}
use tactility_halo.ObjectFile.{
  Bytes, Disk, file_header_size, content_header_size, file_header, content_header_bytes, fwrite,
  read_headers,
}

pub record ObjectFileWriter : Type 0 where
  pub record_size : ℕ
  pub record_version : ℕ
  pub append : Bool
  pub file : Option ℕ
  pub records_written : ℕ

-- The branch of `open` for a file that has content and is kept.
unfoldable pub open_existing : ObjectFileWriter → Bytes → ObjectFileWriter × Bool
open_existing w content = elim (read_headers content) [
  | none ↦ (w, false)
  | some (position, h) ↦
      if w.record_size == h.record_size && w.record_version == h.record_version
      then (record w { records_written = h.record_count; file = some (length content) }, true)
      else (w, false)
]

-- The other branch: `content` is empty, or it is a kept file whose size is 0 or unknown.
unfoldable pub open_new : Option ℕ → ObjectFileWriter → Bytes → ObjectFileWriter × Bytes × Bool
open_new shortage w content =
    let (content', position, result) = fwrite shortage file_header content 0 in
    elim result [
      | false ↦ (w, content', false)
      | true ↦ (record w { file = some (position + content_header_size) }, content', true)
    ]

-- The test of `open` does not tell -1 from an empty file.
unfoldable pub size_or_zero : Option ℕ → ℕ
size_or_zero none = 0
size_or_zero (some n) = n

-- What follows after `fopen` gave a stream; `content` is what "w" or "r+" leaves in the file.
unfoldable pub open_stream :
    SizeCalls → Option ℕ → ObjectFileWriter → Bool → Bytes → ObjectFileWriter × Bytes × Bool
open_stream calls shortage w edit_existing content =
    let file_size = size_or_zero (get_size calls (record { content = content; offset = 0 })).1 in
    if ltb 0 file_size && edit_existing
    then (let (w', result) = open_existing w content in (w', content, result))
    else open_new shortage w content

-- `opens` is whether `fopen` succeeds.
unfoldable pub open_file :
    Bool → SizeCalls → Option ℕ → ObjectFileWriter → Disk → ObjectFileWriter × Disk × Bool
open_file false calls shortage w disk = (w, disk, false)
open_file true calls shortage w none =
    let (w', content, result) = open_stream calls shortage w false [] in (w', some content, result)
open_file true calls shortage w (some old) =
    let (w', content, result) =
      open_stream calls shortage w w.append (if w.append then old else []) in
    (w', some content, result)

unfoldable pub close : Bool → Option ℕ → ObjectFileWriter → Bytes → ObjectFileWriter × Bytes
close seeks shortage w content = elim w.file [
  | none ↦ (w, content)
  | some _ ↦
      if seeks
      then (
        record w { file = none },
        (fwrite shortage
            (content_header_bytes (record {
              record_version = w.record_version;
              record_size = w.record_size;
              record_count = w.records_written;
            }))
            content file_header_size).0,
      )
      else (w, content)
]

-- `output` are the `recordSize` bytes at the pointer.
unfoldable pub write : Option ℕ → ObjectFileWriter → Bytes → Bytes → ObjectFileWriter × Bytes × Bool
write shortage w output content = elim w.file [
  | none ↦ (w, content, false)
  | some position ↦
      let (content', position', result) = fwrite shortage output content position in
      elim result [
        | false ↦ (record w { file = some position' }, content', false)
        | true ↦ (
          record w { file = some position'; records_written = (w.records_written + 1) % 2 ^ 32 },
          content',
          true,
        )
      ]
]
