-- ===== src/Calculator.antt =====
-- The arithmetic of Tactility/Source/app/calculator/Calculator.cpp: `infixToRPN` and `evaluateRPN`.
-- A formula is the list of its bytes, none of them 0. The type double and `std::stod` are
-- parameters.
pub mod Grammar
pub mod Rounds
pub mod Conversion
pub mod Evaluation
pub mod Tests
use tactility_halo.Base.{
  ℕ, zero, suc, ◌+◌, Bool, true, false, ◌&&◌, ◌||◌, List, [], ◌∷◌, ◌++◌, map, Option, none, some,
  leb, ◌==◌, if◌then◌else◌, length,
}

abbrev pub Str : Type 0
Str = List ℕ

abbrev pub is_digit : ℕ → Bool
is_digit c = leb b'0' c && leb c b'9'

-- The condition of the inner loop.
abbrev pub in_number : ℕ → Bool
in_number c = is_digit c || c == b'.'

abbrev pub is_operator : ℕ → Bool
is_operator c = c == b'+' || c == b'-' || c == b'*' || c == b'/'

abbrev pub precedence : ℕ → ℕ
precedence op = if op == b'+' || op == b'-' then 1 else if op == b'*' || op == b'/' then 2 else 0

-- The inner loop: the token, and the index behind it.
unfoldable pub number : Str → Str
number [] = []
number (c ∷ rest) = let more = number rest in if in_number c then c ∷ more else []

unfoldable pub behind_number : Str → Str
behind_number [] = []
behind_number (c ∷ rest) = let later = behind_number rest in if in_number c then later else c ∷ rest

-- The loop in the case of an operator: the stack and the output after it.
unfoldable pub pop_operators : ℕ → List ℕ → List Str → List ℕ × List Str
pop_operators ch [] output = ([], output)
pop_operators ch (top ∷ stack) output =
    let later = pop_operators ch stack (output ++ (top ∷ []) ∷ []) in
    if leb (precedence ch) (precedence top) then later else (top ∷ stack, output)

-- The case of a closing parenthesis; `none` is `pop()` of the empty stack.
unfoldable pub pop_parenthesis : List ℕ → List Str → Option (List ℕ × List Str)
pop_parenthesis [] output = none
pop_parenthesis (top ∷ stack) output =
    let later = pop_parenthesis stack (output ++ (top ∷ []) ∷ []) in
    if top == b'(' then some (stack, output) else later

-- One round: what is left of the formula, the stack and the output.
unfoldable pub infix_round : ℕ → Str → List ℕ → List Str → Option (Str × List ℕ × List Str)
infix_round ch rest op_stack output =
    if is_digit ch
    then some (behind_number (ch ∷ rest), op_stack, output ++ number (ch ∷ rest) ∷ [])
    else if ch == b'('
    then some (rest, ch ∷ op_stack, output)
    else if ch == b')'
    then elim (pop_parenthesis op_stack output) [
      | none ↦ none
      | some (stack, out) ↦ some (rest, stack, out)
    ]
    else if is_operator ch
    then (let (stack, out) = pop_operators ch op_stack output in some (rest, ch ∷ stack, out))
    else some (rest, op_stack, output)

-- The loop on fuel; each round consumes at least one byte. The last loop empties the stack.
unfoldable pub infix_loop : ℕ → Str → List ℕ → List Str → Option (List Str)
infix_loop zero formula op_stack output = none
infix_loop (suc fuel) [] op_stack output = some (output ++ map (λ op. op ∷ []) op_stack)
infix_loop (suc fuel) (ch ∷ rest) op_stack output = elim (infix_round ch rest op_stack output) [
  | none ↦ none
  | some (rest', stack, out) ↦ infix_loop fuel rest' stack out
]

unfoldable pub infix_to_rpn : Str → Option (List Str)
infix_to_rpn formula = infix_loop (length formula + 1) formula [] []

-- The type double.
pub record Double : Type 1 where
  pub R : Type 0
  pub number_zero : R
  pub add : R → R → R
  pub sub : R → R → R
  pub mul : R → R → R
  pub div : R → R → R
  pub is_zero : R → Bool
  pub stod : Str → R

module _ (d : Double) where
  open d use {R, number_zero, add, sub, mul, div, is_zero, stod}

  -- What an operator pushes; a division by zero pushes nothing.
  unfoldable pub operate : ℕ → R → R → List R → List R
  operate op a b values =
      if op == b'+'
      then add a b ∷ values
      else if op == b'-'
      then sub a b ∷ values
      else if op == b'*'
      then mul a b ∷ values
      else if is_zero b
      then values
      else div a b ∷ values

  unfoldable pub evaluate_loop : List Str → List R → R
  evaluate_loop [] [] = number_zero
  evaluate_loop [] (v ∷ values) = v
  -- Of an empty token the test sees the end, which `strchr` finds like an operator.
  evaluate_loop ([] ∷ queue) [] = number_zero
  evaluate_loop ([] ∷ queue) (b ∷ []) = number_zero
  evaluate_loop ([] ∷ queue) (b ∷ (a ∷ below)) = evaluate_loop queue below
  evaluate_loop ((c ∷ token) ∷ queue) values =
      let with_number = evaluate_loop queue (stod (c ∷ token) ∷ values) in
      let unknown = evaluate_loop queue values in
      if is_digit c
      then with_number
      else if is_operator c
      then (elim values [
        | [] ↦ number_zero
        | b ∷ [] ↦ number_zero
        | b ∷ (a ∷ below) ↦ evaluate_loop queue (operate c a b below)
      ])
      else unknown

  unfoldable pub evaluate_rpn : List Str → R
  evaluate_rpn queue = evaluate_loop queue []

  -- `computeFormula`
  unfoldable pub compute_formula : Str → Option R
  compute_formula formula = elim (infix_to_rpn formula) [
    | none ↦ none
    | some queue ↦ some (evaluate_rpn queue)
  ]
