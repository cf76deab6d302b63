-- ===== src/Calculator/Grammar.antt =====
-- Expressions, as they are written with no more parentheses than needed.
use tactility_halo.Base.{ℕ, suc, ◌+◌, ◌<◌, ◌≡◌, Bool, true, false, List, [], ◌∷◌, ◌++◌, All}
use tactility_halo.Calculator.{Str, is_digit, in_number, precedence}

pub data Expression : Type 0 where
  -- the first digit, and the digits and points behind it
  literal : ℕ → Str → Expression
  -- the operator is minus or plus
  sum : Bool → Expression → Expression → Expression
  -- the operator is a division or a product
  product : Bool → Expression → Expression → Expression

abbrev pub sum_op : Bool → ℕ
sum_op true = b'-'
sum_op false = b'+'

abbrev pub product_op : Bool → ℕ
product_op true = b'/'
product_op false = b'*'

abbrev pub is_sum : Expression → Bool
is_sum (literal c more) = false
is_sum (sum minus a b) = true
is_sum (product divides a b) = false

abbrev pub is_compound : Expression → Bool
is_compound (literal c more) = false
is_compound (sum minus a b) = true
is_compound (product divides a b) = true

abbrev pub wrap : Bool → Str → Str
wrap true s = b'(' ∷ (s ++ b')' ∷ [])
wrap false s = s

-- The formula: parentheses only around a sum in a product, a sum on the right of a sum, and
-- anything compound on the right of a product.
unfoldable pub written : Expression → Str
written (literal c more) = c ∷ more
written (sum minus a b) = written a ++ sum_op minus ∷ wrap (is_sum b) (written b)
written (product divides a b) =
    wrap (is_sum a) (written a) ++ product_op divides ∷ wrap (is_compound b) (written b)

-- The same in reverse Polish notation.
unfoldable pub postfix : Expression → List Str
postfix (literal c more) = (c ∷ more) ∷ []
postfix (sum minus a b) = postfix a ++ (postfix b ++ (sum_op minus ∷ []) ∷ [])
postfix (product divides a b) = postfix a ++ (postfix b ++ (product_op divides ∷ []) ∷ [])

-- Literals begin with a digit and go on with digits and points.
abbrev pub IsWritten : Expression → Type 0
IsWritten (literal c more) = (is_digit c ≡ true) × All (λ x. in_number x ≡ true) more
IsWritten (sum minus a b) = IsWritten a × IsWritten b
IsWritten (product divides a b) = IsWritten a × IsWritten b

-- The rounds that the loop spends on a formula.
abbrev pub wrap_rounds : Bool → ℕ → ℕ
wrap_rounds true n = suc (n + 1)
wrap_rounds false n = n

abbrev pub rounds : Expression → ℕ
rounds (literal c more) = 1
rounds (sum minus a b) = rounds a + suc (wrap_rounds (is_sum b) (rounds b))
rounds (product divides a b) =
    wrap_rounds (is_sum a) (rounds a) + suc (wrap_rounds (is_compound b) (rounds b))

-- What is on the stack behind a formula, and the output so far.
abbrev pub unless {ℓ} : {A : Type ℓ} → Bool → List A → List A
unless true xs = []
unless false xs = xs

abbrev pub pending : Expression → List ℕ
pending (literal c more) = []
pending (sum minus a b) = unless (is_sum b) (pending b) ++ sum_op minus ∷ []
pending (product divides a b) = product_op divides ∷ []

-- The stack begins with an operator that binds less than the level.
abbrev pub IsBelow : ℕ → List ℕ → Type 0
IsBelow level [] = Unit
IsBelow level (top ∷ stack) = precedence top < level

abbrev pub level : Expression → ℕ
level (literal c more) = 3
level (sum minus a b) = 1
level (product divides a b) = 2

-- No number goes on at the beginning of the text.
abbrev pub IsEnd : Str → Type 0
IsEnd [] = Unit
IsEnd (c ∷ rest) = in_number c ≡ false
