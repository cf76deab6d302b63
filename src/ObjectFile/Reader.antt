-- ===== src/ObjectFile/Reader.antt =====
-- The class `ObjectFileReader`.
use tactility_halo.Base.{
  ℕ, ◌+◌, ◌%◌, ◌^◌, Bool, true, false, Option, none, some, ltb, ◌==◌, if◌then◌else◌,
}
use tactility_halo.ObjectFile.{Bytes, Disk, fread, read_headers}

pub record ObjectFileReader : Type 0 where
  pub record_size : ℕ
  pub file : Option ℕ
  pub record_count : ℕ
  pub record_version : ℕ
  pub records_read : ℕ

unfoldable pub open_content : ObjectFileReader → Bytes → ObjectFileReader × Bool
open_content r content = elim (read_headers content) [
  | none ↦ (r, false)
  | some (position, h) ↦
      if r.record_size == h.record_size
      then (
        record r {
          record_count = h.record_count;
          record_version = h.record_version;
          file = some position;
        },
        true,
      )
      else (r, false)
]

-- `disk` is `none` also when the file cannot be opened.
unfoldable pub open_file : ObjectFileReader → Disk → ObjectFileReader × Bool
open_file r none = (r, false)
open_file r (some content) = open_content r content

unfoldable pub close : ObjectFileReader → ObjectFileReader
close r = record r { record_count = 0; record_version = 0; records_read = 0; file = none }

unfoldable pub has_next : ObjectFileReader → Bool
has_next r = ltb r.records_read r.record_count

-- The bytes are what a successful call stores in `output`.
unfoldable pub read_next : ObjectFileReader → Bytes → ObjectFileReader × Option Bytes
unfolding fread
read_next r content = elim r.file [
  | none ↦ (r, none)
  | some position ↦
      let (position', output) = fread r.record_size content position in
      elim output [
        | none ↦ (record r { file = some position' }, none)
        | some bytes ↦ (
          record r { file = some position'; records_read = (r.records_read + 1) % 2 ^ 32 },
          some bytes,
        )
      ]
]
