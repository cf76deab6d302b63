-- ===== src/ObjectFile/Clients.antt =====
-- The use that a client makes of a writer and of a reader: `open`, the records, `close`. The device
-- is not full, and the calls of the C library succeed.
use tactility_halo.Base.{ℕ, zero, suc, Bool, true, false, List, [], ◌∷◌, Option, none, some}
use tactility_halo.Files.{SizeCalls}
use tactility_halo.ObjectFile.{Bytes, Disk}
use tactility_halo.ObjectFile.Reader.{
  ObjectFileReader, open_file as reader_open, has_next, read_next,
}
use tactility_halo.ObjectFile.Writer.{ObjectFileWriter, open_file as writer_open, write, close}

abbrev pub all_succeed : SizeCalls
all_succeed = record { seek_end = true; tell = true; seek_back = true }

-- Calls of `write`, one after the other.
unfoldable pub write_all : ObjectFileWriter → Bytes → List Bytes → ObjectFileWriter × Bytes
write_all w content [] = (w, content)
write_all w content (r ∷ rs) = write_all (write none w r content).0 (write none w r content).1 rs

-- A whole use of a writer: the result is the writer, the file, and what `open` returned.
unfoldable pub close_session : ObjectFileWriter × Bytes → ObjectFileWriter × Disk × Bool
close_session (w, content) =
    let (w', content') = close true none w content in (w', some content', true)

unfoldable pub write_opened :
    ObjectFileWriter × Disk × Bool → List Bytes → ObjectFileWriter × Disk × Bool
write_opened (w, none, result) rs = (w, none, result)
write_opened (w, some content, false) rs = (w, some content, false)
write_opened (w, some content, true) rs = close_session (write_all w content rs)

unfoldable pub write_session : ObjectFileWriter → Disk → List Bytes → ObjectFileWriter × Disk × Bool
write_session w disk rs = write_opened (writer_open true all_succeed none w disk) rs

abbrev pub new_reader : ℕ → ObjectFileReader
new_reader size = record {
  record_size = size;
  file = none;
  record_count = 0;
  record_version = 0;
  records_read = 0;
}

-- The loop of a client: `readNext` while `hasNext`.
unfoldable pub read_all : ℕ → ObjectFileReader → Bytes → ObjectFileReader × List Bytes
read_all zero r content = (r, [])
read_all (suc fuel) r content = elim (has_next r) [
  | false ↦ (r, [])
  | true ↦
      let (r', output) = read_next r content in
      elim output [
        | none ↦ (r', [])
        | some bytes ↦ let (r'', rest) = read_all fuel r' content in (r'', bytes ∷ rest)
      ]
]

abbrev pub open_reader : ℕ → ℕ → ℕ → ℕ → ℕ → ObjectFileReader
open_reader size version count read position = record {
  record_size = size;
  file = some position;
  record_count = count;
  record_version = version;
  records_read = read;
}

unfoldable pub read_opened : ObjectFileReader × Bool → Bytes → Option (ℕ × List Bytes)
read_opened (r, false) content = none
read_opened (r, true) content = some (r.record_version, (read_all r.record_count r content).1)

-- A whole use of a new reader: the version and the records. `none` is a failed `open`.
unfoldable pub read_session : ℕ → Disk → Option (ℕ × List Bytes)
read_session size none = none
read_session size (some content) =
    read_opened (reader_open (new_reader size) (some content)) content
