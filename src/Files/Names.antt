-- ===== src/Files/Names.antt =====
-- Child paths against parents and segments, and the order in which directories are listed.
use tactility_halo.Base.{
  ℕ, suc, ◌<◌, ◌≡◌, refl, sym, ap, ◌∙◌, ◌⊎◌, inl, inr, true, false, [], ◌∷◌, ◌++◌, some, arith,
  ◌==◌, length, drop, take-append, drop-append, length-append,
}
use mathlib.Core.List.{append_assoc}
use tactility_halo.Text.{Str, slash, get_path_parent, get_last_path_segment}
use tactility_halo.Text.Paths.{IsFreeOf, find_last_of-append, below_parent, root_parent, segment}
use tactility_halo.Files.{
  get_child_path, strcmp_lt, Dirent, is_directory, dirent_sort_alpha_and_type,
}

child_below :
    (base child output : Str) (i : ℕ)
    → length base ≡ suc i
    → IsFreeOf slash child
    → (get_path_parent (base ++ (slash ∷ child)) output ≡ (true, base))
      × (get_last_path_segment (base ++ (slash ∷ child)) ≡ child)
child_below base child output i e free =
    let at = find_last_of-append slash base child free ∙ ap some e in
    (
      below_parent (base ++ (slash ∷ child)) output i at
          ∙ ap (λ p. (true, p)) (take-append base (slash ∷ child) (suc i) (sym e)),
      segment (base ++ (slash ∷ child)) (suc i) at
          ∙ (ap (drop (suc (suc i))) (sym (append_assoc base (slash ∷ []) child))
              ∙ drop-append (base ++ slash ∷ []) child (suc (suc i))
                  (omega (arith, length-append base (slash ∷ []), e))),
    )

-- For a child name without a slash, and a base path that is the root or has at least two
-- characters: the parent of the child path is the base path, and its last segment is the child.
pub get_path_parent-get_child_path :
    (base child output : Str)
    → (base ≡ slash ∷ []) ⊎ (1 < length base)
    → IsFreeOf slash child
    → (get_path_parent (get_child_path base child) output ≡ (true, base))
      × (get_last_path_segment (get_child_path base child) ≡ child)
unfolding get_child_path
get_path_parent-get_child_path base child output (inl e) free =
    let at = find_last_of-append slash [] child free in
    rw e (root_parent (slash ∷ child) output at, segment (slash ∷ child) 0 at)
get_path_parent-get_child_path [] child output (inr h) free = absurd (omega arith)
get_path_parent-get_child_path (x ∷ []) child output (inr h) free = absurd (omega arith)
get_path_parent-get_child_path (x ∷ y ∷ base) child output (inr h) free =
    let long : (suc (suc (length base)) == 1) ≡ false = ground arith in
    rw long (child_below (x ∷ y ∷ base) child output (suc (length base)) refl free)

strcmp_lt_irrefl : (s : Str) → strcmp_lt s s ≡ false
unfolding strcmp_lt
strcmp_lt_irrefl [] = refl
strcmp_lt_irrefl (x ∷ s) = ground (arith, strcmp_lt_irrefl s)

strcmp_lt_trans : (s t u : Str) → strcmp_lt s t ≡ true → strcmp_lt t u ≡ true → strcmp_lt s u ≡ true
unfolding strcmp_lt
strcmp_lt_trans [] [] u h k = cc
strcmp_lt_trans [] (y ∷ t) [] h k = cc
strcmp_lt_trans [] (y ∷ t) (z ∷ u) h k = refl
strcmp_lt_trans (x ∷ s) [] u h k = cc
strcmp_lt_trans (x ∷ s) (y ∷ t) [] h k = cc
strcmp_lt_trans (x ∷ s) (y ∷ t) (z ∷ u) h k = ground (arith, strcmp_lt_trans s t u)

strcmp_lt-total : (s t : Str) → strcmp_lt s t ≡ false → strcmp_lt t s ≡ false → s ≡ t
unfolding strcmp_lt
strcmp_lt-total [] [] h k = refl
strcmp_lt-total [] (y ∷ t) h k = cc
strcmp_lt-total (x ∷ s) [] h k = cc
strcmp_lt-total (x ∷ s) (y ∷ t) h k = ground (arith, strcmp_lt-total s t)

-- The comparison is a strict order, as `std::ranges::sort` wants: no entry comes before itself, the
-- order is transitive, and of two entries neither of which comes first the names are the same and
-- both are directories or neither is.
pub dirent_sort_order :
    (a b c : Dirent)
    → (dirent_sort_alpha_and_type a a ≡ false)
      × (dirent_sort_alpha_and_type a b ≡ true
          → dirent_sort_alpha_and_type b c ≡ true
          → dirent_sort_alpha_and_type a c ≡ true)
      × (dirent_sort_alpha_and_type a b ≡ false
          → dirent_sort_alpha_and_type b a ≡ false
          → (a.d_name ≡ b.d_name) × (is_directory a ≡ is_directory b))
unfolding dirent_sort_alpha_and_type
dirent_sort_order a b c = ground (
  arith,
  strcmp_lt_irrefl a.d_name,
  strcmp_lt_trans a.d_name b.d_name c.d_name,
  strcmp_lt-total a.d_name b.d_name,
)
