-- ===== src/ObjectFile/Bytes.antt =====
-- Writes at positions, and the words and headers that they put into a file.
use tactility_halo.Base.{
  ℕ, zero, suc, ◌+◌, ◌^◌, ◌≤◌, ◌<◌, ◌≡◌, ◌∙◌, refl, ap, sym, true, false, [], ◌∷◌, ◌++◌, some,
  arith, leb, ◌==◌, length, le→leb, take-append, drop-append, length-append,
}
use tactility_halo.ObjectFile.{
  Bytes, u32_bytes, u32_at, file_header, ContentHeader, content_header_bytes, write_at, fread,
  read_headers, content_header_at, is_file_header,
}

pub write_at-nil : (p : ℕ) (content : Bytes) → write_at p [] content ≡ content
unfolding write_at
write_at-nil zero content = refl
write_at-nil (suc p) content = refl

-- Writes at disjoint places commute.
pub write_at-write_at :
    (p q : ℕ) (a b content : Bytes)
    → p + length a ≤ q
    → write_at p a (write_at q b content) ≡ write_at q b (write_at p a content)
unfolding write_at
write_at-write_at p q [] b content h =
    rw (write_at-nil p (write_at q b content), write_at-nil p content)
write_at-write_at p q (x ∷ a) [] content h =
    rw (write_at-nil q content, write_at-nil q (write_at p (x ∷ a) content))
write_at-write_at zero zero (x ∷ a) (y ∷ b) content h = absurd (omega arith)
write_at-write_at zero (suc q) (x ∷ a) (y ∷ b) [] h =
    ap (◌∷◌ x) (write_at-write_at zero q a (y ∷ b) [] (omega arith))
write_at-write_at zero (suc q) (x ∷ a) (y ∷ b) (z ∷ content) h =
    ap (◌∷◌ x) (write_at-write_at zero q a (y ∷ b) content (omega arith))
write_at-write_at (suc p) zero (x ∷ a) (y ∷ b) content h = absurd (omega arith)
write_at-write_at (suc p) (suc q) (x ∷ a) (y ∷ b) [] h =
    ap (◌∷◌ 0) (write_at-write_at p q (x ∷ a) (y ∷ b) [] (omega arith))
write_at-write_at (suc p) (suc q) (x ∷ a) (y ∷ b) (z ∷ content) h =
    ap (◌∷◌ z) (write_at-write_at p q (x ∷ a) (y ∷ b) content (omega arith))

write_at-empty : (a : Bytes) → write_at 0 a [] ≡ a
unfolding write_at
write_at-empty [] = refl
write_at-empty (x ∷ a) = ap (◌∷◌ x) (write_at-empty a)

-- A write at the end of the file appends.
pub write_at_end :
    (p : ℕ) (a content : Bytes) → p ≡ length content → write_at p a content ≡ content ++ a
unfolding write_at
write_at_end zero a [] h = write_at-empty a
write_at_end zero a (x ∷ content) h = absurd (omega arith)
write_at_end (suc p) a [] h = absurd (omega arith)
write_at_end (suc p) [] (x ∷ content) h = ap (◌∷◌ x) (rec_nil content)
  where
    rec_nil : (c : Bytes) → c ≡ c ++ []
    rec_nil [] = refl
    rec_nil (y ∷ c) = ap (◌∷◌ y) (rec_nil c)
write_at_end (suc p) (y ∷ a) (x ∷ content) h =
    ap (◌∷◌ x) (write_at_end p (y ∷ a) content (omega arith))

-- A write over the second part of a file of three parts.
pub write_at_part :
    (p : ℕ) (a old front back : Bytes)
    → p ≡ length front
    → length a ≡ length old
    → write_at p a (front ++ (old ++ back)) ≡ front ++ (a ++ back)
unfolding write_at
write_at_part zero [] [] [] back hp ha = refl
write_at_part zero [] (y ∷ old) [] back hp ha = absurd (omega arith)
write_at_part zero (x ∷ a) [] [] back hp ha = absurd (omega arith)
write_at_part zero (x ∷ a) (y ∷ old) [] back hp ha =
    ap (◌∷◌ x) (write_at_part zero a old [] back (omega arith) (omega arith))
write_at_part zero a old (z ∷ front) back hp ha = absurd (omega arith)
write_at_part (suc p) a old [] back hp ha = absurd (omega arith)
write_at_part (suc p) [] [] (z ∷ front) back hp ha = refl
write_at_part (suc p) [] (y ∷ old) (z ∷ front) back hp ha = absurd (omega arith)
write_at_part (suc p) (x ∷ a) old (z ∷ front) back hp ha =
    ap (◌∷◌ z) (write_at_part p (x ∷ a) old front back (omega arith) ha)

pub content_header_at-bytes :
    (h : ContentHeader)
    → h.record_version < 2 ^ 32
    → h.record_size < 2 ^ 32
    → h.record_count < 2 ^ 32
    → content_header_at (content_header_bytes h) ≡ h
unfolding u32_at u32_bytes content_header_bytes content_header_at
content_header_at-bytes h hv hs hc =
    let v : u32_at 0 (content_header_bytes h) ≡ h.record_version = omega arith in
    let s : u32_at 4 (content_header_bytes h) ≡ h.record_size = omega arith in
    let c : u32_at 8 (content_header_bytes h) ≡ h.record_count = omega arith in
    λ i. record { record_version = v i; record_size = s i; record_count = c i }

-- A read of a part of a file of three parts.
pub fread-part :
    (size position : ℕ) (front part back : Bytes)
    → position ≡ length front
    → size ≡ length part
    → 0 < size
    → fread size (front ++ (part ++ back)) position ≡ (position + size, some part)
unfolding fread
fread-part size position front part back hp hs h =
    let nonempty : (size == 0) ≡ false = ground arith in
    let fits : leb (position + size) (length (front ++ (part ++ back))) ≡ true =
      le→leb _ _ (omega (arith, length-append front (part ++ back), length-append part back)) in
    rw (nonempty, fits, drop-append front (part ++ back) position hp, take-append part back size hs)

is_file_header-file_header : is_file_header file_header ≡ true
unfolding is_file_header file_header u32_bytes u32_at
is_file_header-file_header = refl

pub length-file_header : length file_header ≡ 8
unfolding file_header u32_bytes
length-file_header = refl

pub length-content_header : (h : ContentHeader) → length (content_header_bytes h) ≡ 12
unfolding content_header_bytes u32_bytes
length-content_header h = refl

read_headers_lem :
    (content header h : Bytes)
    → fread 8 content 0 ≡ (8, some header)
    → is_file_header header ≡ true
    → fread 12 content 8 ≡ (20, some h)
    → read_headers content ≡ some (20, content_header_at h)
unfolding read_headers
read_headers_lem content header h first good second = ground (arith, first, good, second)

-- The headers that the writer makes are read back.
pub read_headers-written :
    (h : ContentHeader) (back : Bytes)
    → h.record_version < 2 ^ 32
    → h.record_size < 2 ^ 32
    → h.record_count < 2 ^ 32
    → read_headers (file_header ++ (content_header_bytes h ++ back)) ≡ some (20, h)
read_headers-written h back hv hs hc =
    read_headers_lem (file_header ++ (content_header_bytes h ++ back)) file_header
      (content_header_bytes h)
      (fread-part 8 0 [] file_header (content_header_bytes h ++ back) refl (sym length-file_header)
        (omega arith))
      is_file_header-file_header
      (fread-part 12 8 file_header (content_header_bytes h) back (sym length-file_header)
        (sym (length-content_header h)) (omega arith))
    ∙ ap (λ x. some (20, x)) (content_header_at-bytes h hv hs hc)
