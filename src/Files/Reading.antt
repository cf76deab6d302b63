-- ===== src/Files/Reading.antt =====
-- The reading of a whole file: `readBinaryInternal` of File.cpp.
use tactility_halo.Base.{
  ◌∙◌, ap, sym, ℕ, zero, suc, ◌+◌, ◌-◌, ◌≤◌, ◌<◌, ◌≡◌, refl, ◌⊎◌, inl, inr, true, false, List, [],
  ◌∷◌, ◌++◌, none, some, arith, ◌==◌, length, lt_or_le, take, drop, take_all, take-nil, take-append,
  length-append, length-take, length-drop, length-replicate, replicate,
}
use tactility_halo.Files.{
  Stream, SizeCalls, get_size, fread, write_at, read_loop, read_content, read_binary_internal,
}

take-add : (m n : ℕ) (xs : List ℕ) → take (m + n) xs ≡ take m xs ++ take n (drop m xs)
take-add zero n xs = ap (λ i. take i xs) (omega arith)
take-add (suc m) n [] = take-nil (suc m + n) ∙ sym (take-nil n)
take-add (suc m) n (x ∷ xs) =
    ap (λ i. take i (x ∷ xs)) {y = suc (m + n)} (omega arith) ∙ ap (◌∷◌ x) (take-add m n xs)

take-length-take : (n : ℕ) (xs : List ℕ) → take (length (take n xs)) xs ≡ take n xs
take-length-take zero xs = refl
take-length-take (suc n) [] = refl
take-length-take (suc n) (x ∷ xs) = ap (◌∷◌ x) (take-length-take n xs)

-- What holds before each round: the buffer has the size of the content and begins with what was
-- read, and the stream stands behind that.
record Reads (content : List ℕ) (buffer_offset : ℕ) (buffer : List ℕ) (file : Stream) : Type 0 where
  within : buffer_offset ≤ length content
  same_size : length buffer ≡ length content
  filled : take buffer_offset buffer ≡ take buffer_offset content
  same_content : file.content ≡ content
  position : file.offset ≡ buffer_offset

-- The bytes of a round.
bytes_of :
    (content : List ℕ) (limit o : ℕ) (buffer : List ℕ) (file : Stream)
    → Reads content o buffer file
    → (fread limit (length content - o) file).1 ≡ take limit (drop o content)
unfolding fread
bytes_of content limit o buffer file r =
    rw (r.same_content, r.position)
      (ap (take limit)
        (take_all (length content - o) (drop o content) (omega (arith, length-drop o content))))

offset_of :
    (content : List ℕ) (limit o : ℕ) (buffer : List ℕ) (file : Stream)
    → Reads content o buffer file
    → (fread limit (length content - o) file).0.offset ≡ o + length (take limit (drop o content))
unfolding fread
offset_of content limit o buffer file r =
    rw (r.same_content, r.position)
      (ap (λ xs. o + length (take limit xs))
        (take_all (length content - o) (drop o content) (omega (arith, length-drop o content))))

length-bytes :
    (content : List ℕ) (limit o : ℕ)
    → o ≤ length content
    → o + length (take limit (drop o content)) ≤ length content
length-bytes content limit o h =
    omega (arith, length-take limit (drop o content), length-drop o content)

round-Reads :
    (content : List ℕ) (limit o : ℕ) (buffer : List ℕ) (file : Stream)
    → Reads content o buffer file
    → Reads content
        (o + length (fread limit (length content - o) file).1)
        (write_at buffer o (fread limit (length content - o) file).1)
        (fread limit (length content - o) file).0
round-Reads content limit o buffer file r =
    let bytes = take limit (drop o content) in
    let front : List ℕ = take o buffer ++ bytes in
    let end : length front ≡ o + length bytes =
      omega
        (arith, length-append (take o buffer) bytes, length-take o buffer, r.same_size, r.within) in
    let bound = length-bytes content limit o r.within in
    rw (bytes_of content limit o buffer file r) (record {
      within = bound;
      same_size =
          unfold write_at in
          omega (
            arith,
            end,
            bound,
            length-append front (drop (o + length bytes) buffer),
            length-drop (o + length bytes) buffer,
            r.same_size,
          );
      filled =
          unfold write_at in
          (take-append front (drop (o + length bytes) buffer) (o + length bytes) (sym end)
            ∙ ap (λ xs. xs ++ bytes) r.filled
            ∙ ap (λ xs. take o content ++ xs) (sym (take-length-take limit (drop o content)))
            ∙ sym (take-add o (length bytes) content));
      same_content = unfold fread in r.same_content;
      position = offset_of content limit o buffer file r;
    })

abbrev at_start : List ℕ → Stream
at_start content = record { content = content; offset = 0 }

start-Reads : (content : List ℕ) → Reads content 0 (replicate (length content) 0) (at_start content)
start-Reads content = record {
  within = omega arith;
  same_size = length-replicate (length content) 0;
  filled = refl;
  same_content = refl;
  position = refl;
}

whole_buffer :
    (content buffer : List ℕ) (o : ℕ) (file : Stream)
    → Reads content o buffer file
    → o ≡ length content
    → buffer ≡ content
whole_buffer content buffer o file r full =
    sym (take_all o buffer (omega (arith, r.same_size)))
    ∙ r.filled
    ∙ take_all o content (omega arith)

module _ (limit : ℕ → ℕ → ℕ) where
  -- The loop ends, with the rest unread or with the whole content in the buffer.
  read_loop_ends :
      (content : List ℕ) (fuel call o : ℕ) (buffer : List ℕ) (file : Stream)
      → Reads content o buffer file
      → length content - o < fuel
      → (end : ℕ) × (filled : List ℕ) × (last : Stream) × (read_loop limit fuel call
            (length content)
            o
            buffer
            file
          ≡ some (end, filled))
        × Reads content end filled last
        × (((i n : ℕ) → 0 < n → 0 < limit i n) → end ≡ length content)
  unfolding read_loop
  read_loop_ends content zero call o buffer file r lt = absurd (omega arith)
  read_loop_ends content (suc fuel) call o buffer file r lt =
      let wanted = length content - o in
      let got = limit call wanted in
      let size = length (fread got wanted file).1 in
      elim (lt_or_le o (length content)) [
        | inr full ↦ (o, buffer, file, ground arith, r, λ p. omega (arith, r.within))
        | inl more ↦ elim (lt_or_le 0 size) [
          | inl some_read ↦
              let (end, filled, last, eq, kept, all) =
                read_loop_ends content fuel (call + 1) (o + size)
                  (write_at buffer o (fread got wanted file).1) (fread got wanted file).0
                  (round-Reads content got o buffer file r) (omega arith) in
              (end, filled, last, ground (arith, eq), kept, all)
          | inr stuck ↦ (
            o,
            buffer,
            file,
            ground arith,
            r,
            λ p. absurd (
                omega (
                  arith,
                  p call wanted,
                  length-take got (drop o content),
                  length-drop o content,
                  ap length (bytes_of content got o buffer file r),
                )),
          )
        ]
      ]

  finish :
      (content buffer : List ℕ) (o : ℕ) (file : Stream)
      → Reads content o buffer file
      → o ≡ length content
      → read_loop limit
          (length content + 1)
          0
          (length content)
          0
          (replicate (length content) 0)
          (at_start content)
        ≡ some (o, buffer)
      → read_content limit (at_start content) (length content)
        ≡ some (some (content, length content))
  unfolding read_content
  finish content buffer o file r full ran =
      let tested : (o == length content) ≡ true = ground arith in
      rw (read_content, ran, tested)
        (ap (λ b. some (some (b, o))) (whole_buffer content buffer o file r full)
          ∙ ap (λ n. some (some (content, n))) full)

  read_content_whole :
      (content : List ℕ)
      → ((read_content limit (at_start content) (length content) ≡ some none)
          ⊎ (read_content limit (at_start content) (length content)
              ≡ some (some (content, length content))))
        × (((i n : ℕ) → 0 < n → 0 < limit i n)
            → read_content limit (at_start content) (length content)
              ≡ some (some (content, length content)))
  unfolding read_content
  read_content_whole content =
      let (end, buffer, last, ran, reads, all) =
        read_loop_ends content (length content + 1) 0 0 (replicate (length content) 0)
          (at_start content) (start-Reads content) (omega arith) in
      (
        elim (lt_or_le end (length content)) [
          | inl short ↦
              let tested : (end == length content) ≡ false = ground arith in
              inl (rw (read_content, ran, tested) refl)
          | inr full ↦ inr (finish content buffer end last reads (omega (arith, reads.within)) ran)
        ],
        λ p. finish content buffer end last reads (all p) ran,
      )

-- However many bytes each `fread` delivers: the reading loop ends, and the result is a buffer with
-- the whole content, and its length, or nothing. When the three calls of `getSize` succeed and every
-- `fread` can deliver at least one byte, it is the content.
pub read_binary_internal_whole :
    (calls : SizeCalls) (limit : ℕ → ℕ → ℕ) (content : List ℕ)
    → ((read_binary_internal calls limit (some content) ≡ some none)
        ⊎ (read_binary_internal calls limit (some content) ≡ some (some (content, length content))))
      × (calls.seek_end ≡ true
          → calls.tell ≡ true
          → calls.seek_back ≡ true
          → ((i n : ℕ) → 0 < n → 0 < limit i n)
          → read_binary_internal calls limit (some content) ≡ some (some (content, length content)))
unfolding read_binary_internal get_size
read_binary_internal_whole calls limit content =
    let (either, whole) = read_content_whole limit content in
    (ground arith, λ e t b p. rw (e, t, b) (whole p))
