-- ===== src/Calculator/Evaluation.antt =====
-- The run of `evaluateRPN` after `infixToRPN` on a written expression.
use tactility_halo.Base.{
  ℕ, suc, ◌+◌, ◌-◌, ◌≤◌, ◌≡◌, ◌∙◌, refl, ap, sym, Bool, true, false, List, [], ◌∷◌, ◌++◌, none,
  some, arith, length, append_assoc, append-nil, length-append, if◌then◌else◌,
}
use tactility_halo.Calculator.{
  Str, infix_loop, infix_to_rpn, Double, operate, evaluate_loop, evaluate_rpn, compute_formula,
}
use tactility_halo.Calculator.Grammar.{
  Expression, literal, sum, product, sum_op, product_op, is_sum, is_compound, wrap, written,
  postfix, IsWritten, wrap_rounds, rounds, pending,
}
use tactility_halo.Calculator.Rounds.{tokens, ready, ready-pending}
use tactility_halo.Calculator.Conversion.{Reads-expression}

wrap-bound :
    (wrapped : Bool) (n : ℕ) (s : Str)
    → n ≤ length s
    → wrap_rounds wrapped n ≤ length (wrap wrapped s)
wrap-bound true n s h = omega (arith, length-append s (b')' ∷ []))
wrap-bound false n s h = h

rounds-bound : (e : Expression) → rounds e ≤ length (written e)
unfolding written
rounds-bound (literal c more) = omega arith
rounds-bound (sum minus a b) = omega (
  arith,
  rounds-bound a,
  wrap-bound (is_sum b) (rounds b) (written b) (rounds-bound b),
  length-append (written a) (sum_op minus ∷ wrap (is_sum b) (written b)),
)
rounds-bound (product divides a b) = omega (
  arith,
  wrap-bound (is_sum a) (rounds a) (written a) (rounds-bound a),
  wrap-bound (is_compound b) (rounds b) (written b) (rounds-bound b),
  length-append (wrap (is_sum a) (written a))
      (product_op divides ∷ wrap (is_compound b) (written b)),
)

loop_end :
    (fuel : ℕ) (st : List ℕ) (out : List Str)
    → infix_loop (suc fuel) [] st out ≡ some (out ++ tokens st)
unfolding infix_loop
loop_end fuel st out = refl

-- An expression that is written with no more parentheses than needed is converted to its reverse
-- Polish notation, within the fuel.
pub infix_to_rpn-written :
    (e : Expression) → IsWritten e → infix_to_rpn (written e) ≡ some (postfix e)
unfolding infix_to_rpn
infix_to_rpn-written e v =
    let left = length (written e) - rounds e in
    ap (λ s. infix_loop (length (written e) + 1) s [] []) (sym (append-nil (written e)))
    ∙ ap (λ k. infix_loop k (written e ++ []) [] []) {x = length (written e) + 1}
        {y = rounds e + suc left} (omega (arith, rounds-bound e))
    ∙ Reads-expression e v [] [] [] (suc left) tt tt
    ∙ loop_end left (pending e ++ []) (ready e)
    ∙ ap (λ st. some (ready e ++ tokens st)) (append-nil (pending e))
    ∙ ap some (ready-pending e)

module _ (d : Double) where
  open d use {R, add, sub, mul, div, is_zero, stod}

  -- The value of an expression.
  unfoldable pub value : Expression → R
  value (literal c more) = stod (c ∷ more)
  value (sum true a b) = sub (value a) (value b)
  value (sum false a b) = add (value a) (value b)
  value (product true a b) = div (value a) (value b)
  value (product false a b) = mul (value a) (value b)

  -- No divisor is zero.
  unfoldable pub IsDefined : Expression → Type 0
  IsDefined (literal c more) = Unit
  IsDefined (sum minus a b) = IsDefined a × IsDefined b
  IsDefined (product true a b) = IsDefined a × IsDefined b × (is_zero (value b) ≡ false)
  IsDefined (product false a b) = IsDefined a × IsDefined b

  -- What evaluating an expression does to the stack of values.
  abbrev Evaluates : Expression → Type 0
  Evaluates e =
      (queue : List Str) (values : List R)
      → evaluate_loop d (postfix e ++ queue) values ≡ evaluate_loop d queue (value e ∷ values)

  Evaluates-both :
      (op : ℕ) (a b : Expression) (queue : List Str) (values : List R)
      → Evaluates a
      → Evaluates b
      → evaluate_loop d ((postfix a ++ (postfix b ++ (op ∷ []) ∷ [])) ++ queue) values
        ≡ evaluate_loop d ((op ∷ []) ∷ queue) (value b ∷ value a ∷ values)
  Evaluates-both op a b queue values run_a run_b =
      ap (λ q. evaluate_loop d q values)
        (append_assoc (postfix a) (postfix b ++ (op ∷ []) ∷ []) queue
          ∙ ap (λ q. postfix a ++ q) (append_assoc (postfix b) ((op ∷ []) ∷ []) queue))
      ∙ run_a (postfix b ++ (op ∷ []) ∷ queue) values
      ∙ run_b ((op ∷ []) ∷ queue) (value a ∷ values)

  evaluates : (e : Expression) → IsWritten e → IsDefined e → Evaluates e
  unfolding evaluate_loop operate value postfix IsDefined
  evaluates (literal c more) w v queue values = rw (w.0, evaluate_loop)
  evaluates (sum true a b) w v queue values =
      Evaluates-both b'-' a b queue values (evaluates a w.0 v.0) (evaluates b w.1 v.1)
  evaluates (sum false a b) w v queue values =
      Evaluates-both b'+' a b queue values (evaluates a w.0 v.0) (evaluates b w.1 v.1)
  evaluates (product true a b) w v queue values =
      Evaluates-both b'/' a b queue values (evaluates a w.0 v.0) (evaluates b w.1 v.1)
      ∙ ap (λ z. evaluate_loop d queue (if z then values else div (value a) (value b) ∷ values)) v.2
  evaluates (product false a b) w v queue values =
      Evaluates-both b'*' a b queue values (evaluates a w.0 v.0) (evaluates b w.1 v.1)

-- A written expression without a division by zero is computed to its value: products bind more
-- than sums, operators of one kind go from left to right, and parentheses override both. This
-- holds for every arithmetic and every reading of the literals.
pub compute_formula-written :
    (d : Double) (e : Expression)
    → IsWritten e
    → IsDefined d e
    → compute_formula d (written e) ≡ some (value d e)
unfolding compute_formula evaluate_rpn evaluate_loop
compute_formula-written d e w v =
    ap (λ q. elim q [ none ↦ none | some queue ↦ some (evaluate_rpn d queue) ])
      (infix_to_rpn-written e w)
    ∙ ap (λ q. some (evaluate_loop d q [])) (sym (append-nil (postfix e)))
    ∙ ap some (evaluates d e w v [] [])
