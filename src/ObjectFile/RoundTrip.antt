-- ===== src/ObjectFile/RoundTrip.antt =====
-- `ObjectFileWriter` and `ObjectFileReader` together.
use tactility_halo.Base.{
  ℕ, ◌+◌, ◌^◌, ◌<◌, ◌≡◌, ◌∙◌, refl, ap, Bool, true, false, List, [], ◌++◌, none, some, arith,
  length, All, All-append, ==_self, lt→ltb, length-append,
}
use tactility_halo.Files.{get_size}
use tactility_halo.ObjectFile.{
  Bytes, ContentHeader, file_header, content_header_bytes, write_at, u32_bytes, fwrite,
  read_headers,
}
use tactility_halo.ObjectFile.Writer.{
  ObjectFileWriter, open_file as writer_open, open_existing, open_new, open_stream, size_or_zero,
}
use tactility_halo.ObjectFile.Bytes.{
  read_headers-written, length-file_header, length-content_header,
}
use tactility_halo.ObjectFile.Sessions.{
  flatten, image, open_writer, closed_writer, Session-new, Session-image, Reached,
  write_all-Reached, close-Session,
}
use tactility_halo.ObjectFile.Clients.{
  all_succeed, write_all, close_session, write_opened, write_session, read_opened, read_session,
}
use tactility_halo.ObjectFile.Reads.{open_image, read_image}

open_new_lem :
    (size version : ℕ)
    → writer_open true all_succeed none (closed_writer size version false 0) none
      ≡ (open_writer size version false 0 20, some file_header, true)
unfolding writer_open open_stream open_new fwrite file_header write_at u32_bytes size_or_zero
    get_size
open_new_lem size version = refl

open_existing_lem :
    (size version count old position : ℕ) (content : Bytes)
    → read_headers content
      ≡ some
          (position, record { record_version = version; record_size = size; record_count = count })
    → open_existing (closed_writer size version true old) content
      ≡ (open_writer size version true count (length content), true)
unfolding open_existing
open_existing_lem size version count old position content e =
    let same = ==_self size in let same' = ==_self version in rw (e, open_existing, same, same')

open_stream_existing :
    (w : ObjectFileWriter) (content : Bytes)
    → 0 < length content
    → open_stream all_succeed none w true content
      ≡ ((open_existing w content).0, content, (open_existing w content).1)
unfolding open_stream size_or_zero get_size
open_stream_existing w content h = (let e = lt→ltb 0 (length content) h in rw e)

length-image :
    (size version : ℕ) (rs : List Bytes) → length (image version size rs) ≡ 20 + length (flatten rs)
length-image size version rs =
    let h : ContentHeader = record {
      record_version = version;
      record_size = size;
      record_count = length rs;
    } in
    omega (
      arith,
      length-append file_header (content_header_bytes h ++ flatten rs),
      length-append (content_header_bytes h) (flatten rs),
      length-file_header,
      length-content_header h,
    )

open_append_lem :
    (size version count : ℕ) (rs : List Bytes)
    → size < 2 ^ 32
    → version < 2 ^ 32
    → length rs < 2 ^ 32
    → writer_open true all_succeed none
        (closed_writer size version true count)
        (some (image version size rs))
      ≡ (
        open_writer size version true (length rs) (20 + length (flatten rs)),
        some (image version size rs),
        true,
      )
unfolding writer_open
open_append_lem size version count rs hs hv hn =
    let w = closed_writer size version true count in
    let content = image version size rs in
    let h : ContentHeader = record {
      record_version = version;
      record_size = size;
      record_count = length rs;
    } in
    ap (λ x. (x.0, some x.1, x.2))
      (open_stream_existing w content (omega (arith, length-image size version rs)))
    ∙ ap (λ x. (x.0, some content, x.1))
        (open_existing_lem size version (length rs) count 20 content
          (read_headers-written h (flatten rs) hv hs hn))
    ∙ ap (λ n. (open_writer size version true (length rs) n, some content, true))
        (length-image size version rs)

close_session-Reached :
    (size version : ℕ) (a : Bool) (rs : List Bytes) (end : ObjectFileWriter × Bytes)
    → Reached size version a rs end
    → close_session end
      ≡ (closed_writer size version a (length rs), some (image version size rs), true)
unfolding close_session
close_session-Reached size version a rs end r =
    ap (λ w. close_session (w, end.1)) r.writer
    ∙ ap (λ x. (x.0, some x.1, true)) (close-Session size version a rs end.1 r.position r.session)

write_session_new :
    (size version : ℕ) (rs : List Bytes)
    → All (λ r. length r ≡ size) rs
    → 0 < size
    → size < 2 ^ 32
    → version < 2 ^ 32
    → length rs < 2 ^ 32
    → write_session (closed_writer size version false 0) none rs
      ≡ (closed_writer size version false (length rs), some (image version size rs), true)
unfolding write_session write_opened
write_session_new size version rs fit h hs hv hn =
    ap (λ x. write_opened x rs) (open_new_lem size version)
    ∙ close_session-Reached size version false rs
        (write_all (open_writer size version false 0 20) file_header rs)
        (write_all-Reached size version false rs [] file_header 20 fit h (omega arith) Session-new)

write_session_append :
    (size version count : ℕ) (old rs : List Bytes)
    → All (λ r. length r ≡ size) rs
    → 0 < size
    → size < 2 ^ 32
    → version < 2 ^ 32
    → length old + length rs < 2 ^ 32
    → write_session (closed_writer size version true count) (some (image version size old)) rs ≡ (
      closed_writer size version true (length (old ++ rs)),
      some (image version size (old ++ rs)),
      true,
    )
unfolding write_session write_opened
write_session_append size version count old rs fit h hs hv hn =
    ap (λ x. write_opened x rs) (open_append_lem size version count old hs hv (omega arith))
    ∙ close_session-Reached size version true (old ++ rs)
        (write_all (open_writer size version true (length old) (20 + length (flatten old)))
          (image version size old) rs)
        (write_all-Reached size version true rs old (image version size old)
          (20 + length (flatten old)) fit h hn (Session-image version size old))

read_session-image :
    (size version : ℕ) (rs : List Bytes)
    → All (λ r. length r ≡ size) rs
    → 0 < size
    → size < 2 ^ 32
    → version < 2 ^ 32
    → length rs < 2 ^ 32
    → read_session size (some (image version size rs)) ≡ some (version, rs)
unfolding read_session read_opened
read_session-image size version rs fit h hs hv hn =
    ap (λ x. read_opened x (image version size rs)) (open_image size version rs hs hv hn)
    ∙ ap (λ x. some (version, x.1)) (read_image size version rs fit h hn)

-- What a new writer stores on a path without a file, a reader gets back: the version and the
-- records, in their order. Every record has the record size, which is not 0, and the record size,
-- the version and the number of records are 32-bit numbers.
pub read-write :
    (size version : ℕ) (rs : List Bytes)
    → All (λ r. length r ≡ size) rs
    → 0 < size
    → size < 2 ^ 32
    → version < 2 ^ 32
    → length rs < 2 ^ 32
    → read_session size (write_session (closed_writer size version false 0) none rs).1
      ≡ some (version, rs)
read-write size version rs fit h hs hv hn =
    ap (λ x. read_session size x.1) (write_session_new size version rs fit h hs hv hn)
    ∙ read_session-image size version rs fit h hs hv hn

-- A second writer with `append` and the same record size and version adds to the file of a first
-- one: a reader gets the first records and then the second ones. Every record has the record size,
-- which is not 0, and the record size, the version and the number of all records are 32-bit
-- numbers.
pub read-append :
    (size version : ℕ) (old rs : List Bytes)
    → All (λ r. length r ≡ size) old
    → All (λ r. length r ≡ size) rs
    → 0 < size
    → size < 2 ^ 32
    → version < 2 ^ 32
    → length old + length rs < 2 ^ 32
    → read_session size
        (write_session
          (closed_writer size version true 0)
          (write_session (closed_writer size version false 0) none old).1
          rs).1
      ≡ some (version, old ++ rs)
read-append size version old rs fit_old fit h hs hv hn =
    ap (λ x. read_session size (write_session (closed_writer size version true 0) x.1 rs).1)
      (write_session_new size version old fit_old h hs hv (omega arith))
    ∙ ap (λ x. read_session size x.1) (write_session_append size version 0 old rs fit h hs hv hn)
    ∙ read_session-image size version (old ++ rs) (All-append _ old rs fit_old fit) h hs hv
        (omega (arith, length-append old rs))
