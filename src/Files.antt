-- ===== src/Files.antt =====
-- TactilityCore/Source/file/File.cpp. The POSIX calls are parameters of the functions that make
-- them; a path is the list of its bytes.
pub mod Names
pub mod Directories
pub mod Reading
pub mod Tests
use tactility_halo.Base.{
  ℕ, zero, suc, ◌+◌, ◌-◌, ◌≤◌, ◌≡◌, Bool, true, false, ◌&&◌, ◌||◌, List, [], ◌∷◌, ◌++◌, Option,
  none, some, ltb, ◌==◌, if◌then◌else◌, length, take, drop, replicate,
}
use tactility_halo.Text.{Str, find_from}

abbrev pub separator : ℕ
separator = b'/'

pub get_child_path : Str → Str → Str
get_child_path base_path child_path =
    if length base_path == 1 then separator ∷ child_path else base_path ++ (separator ∷ child_path)

-- The fields of `dirent` that are read.
pub record Dirent : Type 0 where
  pub d_type : ℕ
  pub d_name : Str

abbrev pub tt_dt_chr : ℕ
tt_dt_chr = 2

abbrev pub tt_dt_dir : ℕ
tt_dt_dir = 4

-- `strcmp(left, right) < 0`
pub strcmp_lt : Str → Str → Bool
strcmp_lt [] [] = false
strcmp_lt [] (y ∷ ys) = true
strcmp_lt (x ∷ xs) [] = false
strcmp_lt (x ∷ xs) (y ∷ ys) = ltb x y || x == y && strcmp_lt xs ys

-- `strcmp(left, right) == 0`
pub strcmp_eq : Str → Str → Bool
strcmp_eq [] [] = true
strcmp_eq [] (y ∷ ys) = false
strcmp_eq (x ∷ xs) [] = false
strcmp_eq (x ∷ xs) (y ∷ ys) = x == y && strcmp_eq xs ys

-- The C result: 0 keeps the entry, and -1 (here `true`) drops it.
pub dirent_filter_dot_entries : Dirent → Bool
unfolding strcmp_eq
dirent_filter_dot_entries entry =
    strcmp_eq entry.d_name (b'.' ∷ b'.' ∷ []) || strcmp_eq entry.d_name (b'.' ∷ [])

pub is_directory : Dirent → Bool
is_directory e = e.d_type == tt_dt_dir || e.d_type == tt_dt_chr

-- On Booleans `left > right` is "left and not right".
pub dirent_sort_alpha_and_type : Dirent → Dirent → Bool
dirent_sort_alpha_and_type left right = elim (is_directory left) [
  | true ↦ if is_directory right then strcmp_lt left.d_name right.d_name else true
  | false ↦ if is_directory right then false else strcmp_lt left.d_name right.d_name
]

-- The loop over `readdir`: what the filter keeps is added to the end of the list.
pub scandir_loop : (Dirent → Bool) → List Dirent → List Dirent → List Dirent
scandir_loop drops [] out_list = out_list
scandir_loop drops (entry ∷ rest) out_list =
    scandir_loop drops rest (if drops entry then out_list else out_list ++ entry ∷ [])

-- `directory` is what `opendir` and `readdir` give, `sort` is `std::ranges::sort` by the method.
-- The result is the count, or `none` for -1, and the output list.
pub scandir :
    Option (List Dirent)
    → List Dirent
    → (Dirent → Bool)
    → Option (List Dirent → List Dirent)
    → Option ℕ × List Dirent
unfolding scandir_loop
scandir none out_list drops sort = (none, out_list)
scandir (some entries) out_list drops none =
    let found = scandir_loop drops entries out_list in (some (length found), found)
scandir (some entries) out_list drops (some sort) =
    let found = sort (scandir_loop drops entries out_list) in (some (length found), found)

-- What `mkdir` returns: 0, or -1 with `errno` EEXIST or another value.
pub data Mkdir : Type 0 where
  created exists failed : Mkdir

-- The file system: its states, and the calls that `findOrCreateDirectory` makes.
pub record FileSystem : Type 1 where
  pub State : Type 0
  pub mkdir : State → Str → State × Mkdir
  -- `stat` succeeds and finds a directory.
  pub is_dir : State → Str → Bool
  -- POSIX: after `mkdir` returned 0 the path is a directory, and no directory is lost.
  pub mkdir_creates :
      (s : State) (path : Str) → (mkdir s path).1 ≡ created → is_dir (mkdir s path).0 path ≡ true
  pub mkdir_keeps :
      (s : State) (path other : Str) → is_dir s other ≡ true → is_dir (mkdir s path).0 other ≡ true

-- The search starts behind a separator that the path begins with.
pub first_index : Str → ℕ
first_index [] = 0
first_index (c ∷ rest) = if c == separator then 1 else 0

module _ (fs : FileSystem) where
  open fs use {State, mkdir, is_dir}

  pub find_or_create_directory_internal : State → Str → State × Bool
  find_or_create_directory_internal s path =
      let (s', result) = mkdir s path in
      (s', elim result [ created ↦ true | exists ↦ is_dir s' path | failed ↦ false ])

  -- The loop on fuel; the state of the search is `separator_index`, `none` for `npos`. The outer
  -- `none` means that the fuel ran out.
  pub create_loop : ℕ → State → Str → Option ℕ → Option (State × Bool)
  create_loop zero s path separator_index = none
  create_loop (suc fuel) s path none = some (find_or_create_directory_internal s path)
  create_loop (suc fuel) s path (some i) =
      let (s', found) = find_or_create_directory_internal s (take i path) in
      elim found [
        | false ↦ some (s', false)
        | true ↦ create_loop fuel s' path (find_from path (separator ∷ []) (i + 1))
      ]

  pub find_or_create_directory : State → Str → Option (State × Bool)
  find_or_create_directory s [] = some (s, true)
  find_or_create_directory s (c ∷ rest) =
      create_loop (length (c ∷ rest) + 1) s (c ∷ rest)
        (find_from (c ∷ rest) (separator ∷ []) (first_index (c ∷ rest)))

-- A stream that is open for reading. `content` is what the file holds.
pub record Stream : Type 0 where
  pub content : List ℕ
  pub offset : ℕ

-- Which of the calls of `getSize` succeed.
pub record SizeCalls : Type 0 where
  pub seek_end : Bool
  pub tell : Bool
  pub seek_back : Bool

-- `none` is -1.
unfoldable pub get_size : SizeCalls → Stream → Stream × Option ℕ
get_size calls file = elim calls.seek_end [
  | false ↦ (file, none)
  | true ↦
      let at_end = record file { offset = length file.content } in
      elim calls.tell [
        | false ↦ (at_end, none)
        | true ↦ elim calls.seek_back [
          | false ↦ (at_end, none)
          | true ↦ (record at_end { offset = file.offset }, some (length file.content))
        ]
      ]
]

-- A `fread` of `n` bytes, of which it delivers at most `limit`, from the position of the stream.
unfoldable pub fread : (limit n : ℕ) → Stream → Stream × List ℕ
fread limit n file =
    let bytes = take limit (take n (drop file.offset file.content)) in
    (record file { offset = file.offset + length bytes }, bytes)

-- The bytes that `fread` puts into the buffer at an offset.
unfoldable pub write_at : List ℕ → ℕ → List ℕ → List ℕ
write_at buffer offset bytes = (take offset buffer ++ bytes) ++ drop (offset + length bytes) buffer

-- The reading loop, with its buffer and its stream. `limit i n` is how many of `n` wanted bytes the
-- call number `i` can deliver. Each round that goes on reads at least one byte, so `content_length`
-- rounds and one are enough; `none` means that the fuel ran out.
unfoldable pub read_loop :
    (ℕ → ℕ → ℕ)
    → (fuel call content_length buffer_offset : ℕ) → List ℕ
    → Stream
    → Option (ℕ × List ℕ)
read_loop limit zero call content_length buffer_offset buffer file = none
read_loop limit (suc fuel) call content_length buffer_offset buffer file =
    let wanted = content_length - buffer_offset in
    let (file', bytes) = fread (limit call wanted) wanted file in
    let rest =
      read_loop limit fuel (call + 1) content_length (buffer_offset + length bytes)
        (write_at buffer buffer_offset bytes) file' in
    if ltb buffer_offset content_length
    then (if ltb 0 (length bytes) then rest else some (buffer_offset, buffer))
    else some (buffer_offset, buffer)

-- The allocation of a buffer of zeros, the loop, and the test behind it.
unfoldable pub read_content : (ℕ → ℕ → ℕ) → Stream → ℕ → Option (Option (List ℕ × ℕ))
read_content limit file content_length =
    elim (read_loop limit (content_length + 1) 0 content_length 0 (replicate content_length 0)
      file) [
        | none ↦ none
        | some (buffer_offset, buffer) ↦
            if buffer_offset == content_length
            then some (some (buffer, buffer_offset))
            else some none
      ]

-- `opened` is the content of the file that `fopen` opens, at its start. The result is the buffer and
-- `outSize`; `none` is `nullptr`.
unfoldable pub read_binary_internal :
    SizeCalls → (ℕ → ℕ → ℕ) → Option (List ℕ) → Option (Option (List ℕ × ℕ))
read_binary_internal calls limit none = some none
read_binary_internal calls limit (some content) =
    let (file, size) = get_size calls (record { content = content; offset = 0 }) in
    elim size [ none ↦ some none | some content_length ↦ read_content limit file content_length ]
