-- ===== src/ObjectFile/Sessions.antt =====
-- What a writer leaves in the file from `open` over the calls of `write` to `close`.
use tactility_halo.Base.{
  ℕ, ◌+◌, ◌%◌, ◌^◌, ◌<◌, ◌≡◌, ◌∙◌, refl, ap, subst, sym, Bool, true, List, [], ◌∷◌, ◌++◌, none,
  some, arith, length, All, length-append, append_assoc, append-nil,
}
use tactility_halo.ObjectFile.{Bytes, file_header, content_header_bytes, write_at, fwrite}
use tactility_halo.ObjectFile.Writer.{ObjectFileWriter, write, close}
use tactility_halo.ObjectFile.Clients.{write_all}
use tactility_halo.ObjectFile.Bytes.{
  write_at-write_at, write_at_end, write_at_part, length-file_header, length-content_header,
}

abbrev pub flatten : List Bytes → Bytes
flatten [] = []
flatten (r ∷ rs) = r ++ flatten rs

flatten-snoc : (rs : List Bytes) (r : Bytes) → flatten (rs ++ r ∷ []) ≡ flatten rs ++ r
flatten-snoc [] r = append-nil r
flatten-snoc (q ∷ rs) r = ap (◌++◌ q) (flatten-snoc rs r) ∙ sym (append_assoc q (flatten rs) r)

-- The file that holds the records.
abbrev pub image : ℕ → ℕ → List Bytes → Bytes
image version size rs =
    file_header
    ++ (content_header_bytes
          (record { record_version = version; record_size = size; record_count = length rs })
        ++ flatten rs)

-- During a session the place of the content header is free.
pub record Session (rs : List Bytes) (content : Bytes) (position : ℕ) : Type 0 where
  pub header : (h : Bytes) → length h ≡ 12 → write_at 8 h content ≡ file_header ++ (h ++ flatten rs)
  pub at_end : position ≡ 20 + length (flatten rs)

abbrev pub open_writer : ℕ → ℕ → Bool → ℕ → ℕ → ObjectFileWriter
open_writer size version append count position = record {
  record_size = size;
  record_version = version;
  append = append;
  file = some position;
  records_written = count;
}

abbrev pub closed_writer : ℕ → ℕ → Bool → ℕ → ObjectFileWriter
closed_writer size version append count = record {
  record_size = size;
  record_version = version;
  append = append;
  file = none;
  records_written = count;
}

pub Session-new : Session [] file_header 20
Session-new = record {
  header = λ h e.
      write_at_end 8 h file_header (sym length-file_header)
      ∙ ap (λ x. file_header ++ x) (sym (append-nil h));
  at_end = refl;
}

pub Session-image :
    (version size : ℕ) (rs : List Bytes)
    → Session rs (image version size rs) (20 + length (flatten rs))
Session-image version size rs = record {
  header = λ h e.
      write_at_part 8 h
        (content_header_bytes
          (record { record_version = version; record_size = size; record_count = length rs }))
        file_header (flatten rs) (sym length-file_header) (e ∙ sym (length-content_header _));
  at_end = refl;
}

Session-write :
    (rs : List Bytes) (r content : Bytes) (position : ℕ)
    → Session rs content position
    → Session (rs ++ r ∷ []) (write_at position r content) (position + length r)
Session-write rs r content position s = record {
  header = λ h e.
      write_at-write_at 8 position h r content (omega (arith, s.at_end))
      ∙ ap (write_at position r) (s.header h e)
      ∙ write_at_end position r (file_header ++ (h ++ flatten rs)) (
          omega (
            arith,
            s.at_end,
            length-append file_header (h ++ flatten rs),
            length-append h (flatten rs),
            length-file_header,
          ))
      ∙ append_assoc file_header (h ++ flatten rs) r
      ∙ ap (λ x. file_header ++ x)
          (append_assoc h (flatten rs) r ∙ ap (λ x. h ++ x) (sym (flatten-snoc rs r)));
  at_end = omega (arith, s.at_end, length-append (flatten rs) r, ap length (flatten-snoc rs r));
}

fwrite_whole :
    (r content : Bytes) (position : ℕ)
    → 0 < length r
    → fwrite none r content position ≡ (write_at position r content, position + length r, true)
unfolding fwrite
fwrite_whole [] content position h = absurd (omega arith)
fwrite_whole (b ∷ bs) content position h = refl

write_step :
    (size version : ℕ) (a : Bool) (count position : ℕ) (r content : Bytes)
    → 0 < length r
    → count + 1 < 2 ^ 32
    → write none (open_writer size version a count position) r content ≡ (
      open_writer size version a (count + 1) (position + length r),
      write_at position r content,
      true,
    )
unfolding write
write_step size version a count position r content h small =
    let whole : (count + 1) % 2 ^ 32 ≡ count + 1 = omega arith in
    let e = fwrite_whole r content position h in rw (e, whole, write, e)

-- The state that a session reaches, and the records of its file.
pub record Reached (size version : ℕ) (a : Bool) (rs : List Bytes) (end : ObjectFileWriter × Bytes)
    : Type 0 where
  pub position : ℕ
  pub writer : end.0 ≡ open_writer size version a (length rs) position
  pub session : Session rs end.1 position

write_all-next :
    (size version : ℕ) (a : Bool) (count position : ℕ) (r content : Bytes) (rs : List Bytes)
    → 0 < length r
    → count + 1 < 2 ^ 32
    → write_all (open_writer size version a count position) content (r ∷ rs)
      ≡ write_all
          (open_writer size version a (count + 1) (position + length r))
          (write_at position r content)
          rs
unfolding write_all
write_all-next size version a count position r content rs h small =
    ap (λ x. write_all x.0 x.1 rs) (write_step size version a count position r content h small)

pub write_all-Reached :
    (size version : ℕ) (a : Bool) (rs old : List Bytes) (content : Bytes) (position : ℕ)
    → All (λ r. length r ≡ size) rs
    → 0 < size
    → length old + length rs < 2 ^ 32
    → Session old content position
    → Reached size version a
        (old ++ rs)
        (write_all (open_writer size version a (length old) position) content rs)
write_all-Reached size version a [] old content position fit h small s =
    unfold write_all in
    subst
      (λ l. Reached size version a l (open_writer size version a (length old) position, content))
      (sym (append-nil old)) (record { position = position; writer = refl; session = s })
write_all-Reached size version a (r ∷ rs) old content position fit h small s =
    let grown : length (old ++ r ∷ []) ≡ length old + 1 = length-append old (r ∷ []) in
    let rest =
      write_all-Reached size version a rs (old ++ r ∷ []) (write_at position r content)
        (position + length r) fit.1 h (omega (arith, grown))
        (Session-write old r content position s) in
    rw
      (write_all-next size version a (length old) position r content rs (omega (arith, fit.0))
        (omega arith))
      (subst
        (λ n. Reached size version a (old ++ r ∷ rs) (
          write_all (open_writer size version a n (position + length r))
            (write_at position r content) rs))
        grown
        (subst
          (λ l. Reached size version a l (
            write_all (open_writer size version a (length (old ++ r ∷ [])) (position + length r))
              (write_at position r content) rs))
          (append_assoc old (r ∷ []) rs) rest))

-- `close` puts the content header in its place.
pub close-Session :
    (size version : ℕ) (a : Bool) (rs : List Bytes) (content : Bytes) (position : ℕ)
    → Session rs content position
    → close true none (open_writer size version a (length rs) position) content
      ≡ (closed_writer size version a (length rs), image version size rs)
unfolding close
close-Session size version a rs content position s =
    let h =
      content_header_bytes
        (record { record_version = version; record_size = size; record_count = length rs }) in
    λ i. (
      closed_writer size version a (length rs),
      (ap (λ x. x.0) (fwrite_whole h content 8 (omega (arith, length-content_header _)))
            ∙ s.header h (length-content_header _))
          i,
    )
