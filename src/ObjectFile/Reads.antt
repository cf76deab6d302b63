-- ===== src/ObjectFile/Reads.antt =====
-- What a reader finds in a file that a writer left.
use tactility_halo.Base.{
  append_assoc, ℕ, suc, ◌+◌, ◌%◌, ◌^◌, ◌<◌, ◌≡◌, ◌∙◌, ap, sym, true, false, List, [], ◌∷◌, ◌++◌,
  some, arith, length, All, ==_self, length-append,
}
use tactility_halo.ObjectFile.{Bytes, file_header, content_header_bytes, read_headers}
use tactility_halo.ObjectFile.Reader.{
  ObjectFileReader, open_content, open_file as reader_open, has_next, read_next,
}
use tactility_halo.ObjectFile.Bytes.{
  fread-part, read_headers-written, length-file_header, length-content_header,
}
use tactility_halo.ObjectFile.Sessions.{flatten, image}
use tactility_halo.ObjectFile.Clients.{new_reader, read_all, open_reader}

has_next_lem :
    (size version count k position : ℕ)
    → k < count
    → has_next (open_reader size version count k position) ≡ true
unfolding has_next
has_next_lem size version count k position h = ground arith

has_next_end :
    (size version count position : ℕ)
    → has_next (open_reader size version count count position) ≡ false
unfolding has_next
has_next_end size version count position = ground arith

read_next_lem :
    (size version count k position : ℕ) (front r back : Bytes)
    → k + 1 < 2 ^ 32
    → position ≡ length front
    → length r ≡ size
    → 0 < size
    → read_next (open_reader size version count k position) (front ++ (r ++ back))
      ≡ (open_reader size version count (k + 1) (position + size), some r)
unfolding read_next
read_next_lem size version count k position front r back small hp hr h =
    let whole : (k + 1) % 2 ^ 32 ≡ k + 1 = omega arith in
    let e = fread-part size position front r back hp (sym hr) h in rw (e, whole, read_next, e)

read_all_step :
    (fuel : ℕ) (r r' : ObjectFileReader) (content bytes : Bytes)
    → has_next r ≡ true
    → read_next r content ≡ (r', some bytes)
    → read_all (suc fuel) r content
      ≡ ((read_all fuel r' content).0, bytes ∷ (read_all fuel r' content).1)
unfolding read_all
read_all_step fuel r r' content bytes more next = rw (more, next, read_all, next)

read_all_records :
    (size version n : ℕ) (rs : List Bytes) (k position : ℕ) (front : Bytes)
    → All (λ r. length r ≡ size) rs
    → 0 < size
    → k + length rs ≡ n
    → n < 2 ^ 32
    → position ≡ length front
    → read_all (length rs) (open_reader size version n k position) (front ++ flatten rs)
      ≡ (open_reader size version n n (position + length (flatten rs)), rs)
unfolding read_all
read_all_records size version n [] k position front fit h total small hp =
    let e : k ≡ n = omega arith in
    let p : position ≡ position + 0 = omega arith in
    λ i. (open_reader size version n (e i) (p i), [])
read_all_records size version n (r ∷ rs) k position front fit h total small hp =
    let after = open_reader size version n (k + 1) (position + size) in
    let rest =
      read_all_records size version n rs (k + 1) (position + size) (front ++ r) fit.1 h
        (omega arith) small (omega (arith, hp, fit.0, length-append front r)) in
    let p : position + size + length (flatten rs) ≡ position + length (r ++ flatten rs) =
      omega (arith, fit.0, length-append r (flatten rs)) in
    read_all_step (length rs) (open_reader size version n k position) after
      (front ++ (r ++ flatten rs)) r (has_next_lem size version n k position (omega arith))
      (read_next_lem size version n k position front r (flatten rs) (omega arith) hp fit.0 h)
    ∙ ap (λ c. ((read_all (length rs) after c).0, r ∷ (read_all (length rs) after c).1))
        (sym (append_assoc front r (flatten rs)))
    ∙ ap (λ x. (x.0, r ∷ x.1)) rest
    ∙ ap (λ q. (open_reader size version n n q, r ∷ rs)) p

open_content_lem :
    (size version count position : ℕ) (content : Bytes)
    → read_headers content
      ≡ some
          (position, record { record_version = version; record_size = size; record_count = count })
    → open_content (new_reader size) content ≡ (open_reader size version count 0 position, true)
unfolding open_content
open_content_lem size version count position content e =
    let same = ==_self size in rw (e, open_content, same)

-- Opening a file that a writer left.
pub open_image :
    (size version : ℕ) (rs : List Bytes)
    → size < 2 ^ 32
    → version < 2 ^ 32
    → length rs < 2 ^ 32
    → reader_open (new_reader size) (some (image version size rs))
      ≡ (open_reader size version (length rs) 0 20, true)
unfolding reader_open
open_image size version rs hs hv hn =
    open_content_lem size version (length rs) 20 (image version size rs) (
      read_headers-written
        (record { record_version = version; record_size = size; record_count = length rs })
        (flatten rs) hv hs hn)

pub read_image :
    (size version : ℕ) (rs : List Bytes)
    → All (λ r. length r ≡ size) rs
    → 0 < size
    → length rs < 2 ^ 32
    → read_all (length rs) (open_reader size version (length rs) 0 20) (image version size rs)
      ≡ (open_reader size version (length rs) (length rs) (20 + length (flatten rs)), rs)
read_image size version rs fit h small =
    let header =
      content_header_bytes
        (record { record_version = version; record_size = size; record_count = length rs }) in
    ap (read_all (length rs) (open_reader size version (length rs) 0 20))
      (sym (append_assoc file_header header (flatten rs)))
    ∙ read_all_records size version (length rs) rs 0 20 (file_header ++ header) fit h (omega arith)
        small
        (omega (
          arith,
          length-append file_header header,
          length-file_header,
          length-content_header
              (record { record_version = version; record_size = size; record_count = length rs }),
        ))
