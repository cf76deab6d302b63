-- ===== src/Bundle.antt =====
-- TactilityCore/Source/Bundle.cpp and its header. An `int32_t` is its bit pattern.
pub mod Entries
pub mod Tests
use mathlib.Core.Option
use tactility_halo.Base.{ℕ, String, Bool, true, false, Option, none, some, Dict, lookup, insert}

pub data ValueType : Type 0 where
  bool int32 string : ValueType

-- The union: which member was written last, with its value.
pub data Storage : Type 0 where
  value_bool : Bool → Storage
  value_int32 : ℕ → Storage

pub record Value : Type 0 where
  pub type : ValueType
  pub storage : Storage
  pub value_string : String

pub record Bundle : Type 0 where
  pub entries : Dict Value

-- A read of the other member of the union has no defined value: `none`.
as_bool : Storage → Option Bool
as_bool (value_bool b) = some b
as_bool (value_int32 n) = none

as_int32 : Storage → Option ℕ
as_int32 (value_bool b) = none
as_int32 (value_int32 n) = some n

-- The `get` functions read through the iterator without a test: `none` is undefined behaviour.
pub get_bool : Bundle → String → Option Bool
unfolding as_bool
get_bool b key = elim (lookup key b.entries) [ none ↦ none | some v ↦ as_bool v.storage ]

pub get_int32 : Bundle → String → Option ℕ
unfolding as_int32
get_int32 b key = elim (lookup key b.entries) [ none ↦ none | some v ↦ as_int32 v.storage ]

pub get_string : Bundle → String → Option String
get_string b key = Option.map (λ v. v.value_string) (lookup key b.entries)

is_type : ValueType → ValueType → Bool
is_type bool bool = true
is_type int32 int32 = true
is_type string string = true
is_type _ _ = false

has_type : ValueType → Option Value → Bool
unfolding is_type
has_type t none = false
has_type t (some v) = is_type t v.type

pub has_bool : Bundle → String → Bool
unfolding has_type
has_bool b key = has_type bool (lookup key b.entries)

pub has_int32 : Bundle → String → Bool
unfolding has_type
has_int32 b key = has_type int32 (lookup key b.entries)

pub has_string : Bundle → String → Bool
unfolding has_type
has_string b key = has_type string (lookup key b.entries)

-- `out` is the output argument: the result, and its value after the call. The inner option is the
-- undefined read of a union member that was not written.
opt_bool_entry : Option Value → Bool → Bool × Option Bool
unfolding as_bool
opt_bool_entry none out = (false, some out)
opt_bool_entry (some v) out = elim v.type [
  | bool ↦ (true, as_bool v.storage)
  | _ ↦ (false, some out)
]

pub opt_bool : Bundle → String → Bool → Bool × Option Bool
unfolding opt_bool_entry
opt_bool b key out = opt_bool_entry (lookup key b.entries) out

opt_int32_entry : Option Value → ℕ → Bool × Option ℕ
unfolding as_int32
opt_int32_entry none out = (false, some out)
opt_int32_entry (some v) out = elim v.type [
  | int32 ↦ (true, as_int32 v.storage)
  | _ ↦ (false, some out)
]

pub opt_int32 : Bundle → String → ℕ → Bool × Option ℕ
unfolding opt_int32_entry
opt_int32 b key out = opt_int32_entry (lookup key b.entries) out

opt_string_entry : Option Value → String → Bool × String
opt_string_entry none out = (false, out)
opt_string_entry (some v) out = elim v.type [ string ↦ (true, v.value_string) | _ ↦ (false, out) ]

pub opt_string : Bundle → String → String → Bool × String
unfolding opt_string_entry
opt_string b key out = opt_string_entry (lookup key b.entries) out

put : Bundle → String → Value → Bundle
put b key v = record { entries = insert key v b.entries }

pub put_bool : Bundle → String → Bool → Bundle
unfolding put
put_bool b key value =
    put b key (record { type = bool; storage = value_bool value; value_string = "" })

pub put_int32 : Bundle → String → ℕ → Bundle
unfolding put
put_int32 b key value =
    put b key (record { type = int32; storage = value_int32 value; value_string = "" })

pub put_string : Bundle → String → String → Bundle
unfolding put
put_string b key value =
    put b key (record { type = string; storage = value_bool false; value_string = value })
