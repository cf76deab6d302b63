-- ===== src/Bundle/Entries.antt =====
-- What the `opt` functions return after a `put`, and when they are defined.
use tactility_halo.Base.{
  Holds, insert-Holds, ℕ, String, ◌≡◌, refl, inl, inr, Bool, true, false, Option, none, some, arith,
  lookup, lookup-insert, str_eq, if◌then◌else◌, Bool-cases,
}
use mathlib.Core.Option
use tactility_halo.Bundle.{
  ValueType, bool, int32, string, Storage, value_bool, value_int32, Value, Bundle, opt_bool,
  opt_int32, opt_string, put_bool, put_int32, put_string, get_bool, get_int32, get_string, has_bool,
  has_int32, has_string, has_type, is_type, as_bool, as_int32, opt_bool_entry, opt_int32_entry,
  opt_string_entry,
}

-- The member of the union that the type names is the one that was written.
abbrev pub IsTagged : Value → Type 0
IsTagged v = elim v.type [
  | bool ↦ (b : Bool) × (v.storage ≡ value_bool b)
  | int32 ↦ (n : ℕ) × (v.storage ≡ value_int32 n)
  | string ↦ Unit {0}
]

-- What a caller sees of one key: the three results of the `opt` functions.
pub record View : Type 0 where
  pub bool_out : Bool × Option Bool
  pub int32_out : Bool × Option ℕ
  pub string_out : Bool × String

abbrev pub view : Bundle → String → Bool → ℕ → String → View
view b key x n s = record {
  bool_out = opt_bool b key x;
  int32_out = opt_int32 b key n;
  string_out = opt_string b key s;
}

-- A `put` decides what all three `opt` functions say of its key, so a value of one type hides an
-- older one of another type, and says nothing of the other keys. An `opt` function that returns
-- false leaves the output argument alone.
pub view-put :
    (b : Bundle) (key other : String) (vb x : Bool) (vn n : ℕ) (vs s : String)
    → (view (put_bool b key vb) other x n s ≡ (
        if str_eq key other
        then record {
          bool_out = (true, some vb);
          int32_out = (false, some n);
          string_out = (false, s);
        }
        else view b other x n s))
      × (view (put_int32 b key vn) other x n s ≡ (
          if str_eq key other
          then record {
            bool_out = (false, some x);
            int32_out = (true, some vn);
            string_out = (false, s);
          }
          else view b other x n s))
      × (view (put_string b key vs) other x n s ≡ (
          if str_eq key other
          then record {
            bool_out = (false, some x);
            int32_out = (false, some n);
            string_out = (true, vs);
          }
          else view b other x n s))
unfolding opt_bool opt_int32 opt_string put_bool put_int32 put_string
view-put b key other vb x vn n vs s = simp lookup-insert (elim (Bool-cases (str_eq key other)) [
  | inl e ↦ rw e (refl, refl, refl)
  | inr e ↦ rw e (refl, refl, refl)
])

-- Every entry of the bundle is tagged.
abbrev pub IsValid : Bundle → Type 0
IsValid b = Holds IsTagged b.entries

-- The functions that put a value keep every entry tagged.
pub put-IsValid :
    (b : Bundle) (key : String) (vb : Bool) (vn : ℕ) (vs : String)
    → IsValid b
    → IsValid (put_bool b key vb) × IsValid (put_int32 b key vn) × IsValid (put_string b key vs)
unfolding put_bool put_int32 put_string
put-IsValid b key vb vn vs h = (
  insert-Holds IsTagged key _ b.entries h (vb, refl),
  insert-Holds IsTagged key _ b.entries h (vn, refl),
  insert-Holds IsTagged key _ b.entries h tt,
)

tagged_bool :
    (t : ValueType) (st : Storage) (text : String)
    → is_type bool t ≡ true
    → IsTagged (record { type = t; storage = st; value_string = text })
    → (b : Bool) × (t ≡ bool) × (st ≡ value_bool b)
unfolding is_type
tagged_bool bool st text h tag = (tag.0, refl, tag.1)
tagged_bool int32 st text h tag = cc
tagged_bool string st text h tag = cc

tagged_int32 :
    (t : ValueType) (st : Storage) (text : String)
    → is_type int32 t ≡ true
    → IsTagged (record { type = t; storage = st; value_string = text })
    → (n : ℕ) × (t ≡ int32) × (st ≡ value_int32 n)
unfolding is_type
tagged_int32 int32 st text h tag = (tag.0, refl, tag.1)
tagged_int32 bool st text h tag = cc
tagged_int32 string st text h tag = cc

tagged_string : (t : ValueType) → is_type string t ≡ true → t ≡ string
unfolding is_type
tagged_string string h = refl
tagged_string bool h = cc
tagged_string int32 h = cc

bool_entry :
    (o : Option Value) (x : Bool)
    → ((v : Value) → o ≡ some v → IsTagged v)
    → has_type bool o ≡ true
    → (v : Bool) × ((elim o [ none ↦ none | some e ↦ as_bool e.storage ]) ≡ some v)
      × (opt_bool_entry o x ≡ (true, some v))
unfolding has_type opt_bool_entry as_bool
bool_entry none x h e = cc
bool_entry (some v) x h e =
    let (b, t, st) = tagged_bool v.type v.storage v.value_string e (h v refl) in
    (b, ground arith, ground arith)

int32_entry :
    (o : Option Value) (n : ℕ)
    → ((v : Value) → o ≡ some v → IsTagged v)
    → has_type int32 o ≡ true
    → (v : ℕ) × ((elim o [ none ↦ none | some e ↦ as_int32 e.storage ]) ≡ some v)
      × (opt_int32_entry o n ≡ (true, some v))
unfolding has_type opt_int32_entry as_int32
int32_entry none n h e = cc
int32_entry (some v) n h e =
    let (k, t, st) = tagged_int32 v.type v.storage v.value_string e (h v refl) in
    (k, ground arith, ground arith)

string_entry :
    (o : Option Value) (s : String)
    → has_type string o ≡ true
    → (v : String) × (Option.map (λ (e : Value). e.value_string) o ≡ some v)
      × (opt_string_entry o s ≡ (true, v))
unfolding has_type opt_string_entry
string_entry none s e = cc
string_entry (some v) s e = let t = tagged_string v.type e in (v.value_string, refl, ground arith)

-- In a bundle whose entries are tagged, a `has` function that returns true tells that the `get`
-- function of that type is defined, and that the `opt` function returns true and the same value.
pub get_of_has :
    (b : Bundle) (key : String) (x : Bool) (n : ℕ) (s : String)
    → IsValid b
    → (has_bool b key ≡ true
        → (v : Bool) × (get_bool b key ≡ some v) × (opt_bool b key x ≡ (true, some v)))
      × (has_int32 b key ≡ true
          → (v : ℕ) × (get_int32 b key ≡ some v) × (opt_int32 b key n ≡ (true, some v)))
      × (has_string b key ≡ true
          → (v : String) × (get_string b key ≡ some v) × (opt_string b key s ≡ (true, v)))
unfolding get_bool get_int32 get_string opt_bool opt_int32 opt_string has_bool has_int32 has_string
get_of_has b key x n s h = (
  bool_entry (lookup key b.entries) x (h key),
  int32_entry (lookup key b.entries) n (h key),
  string_entry (lookup key b.entries) s,
)
