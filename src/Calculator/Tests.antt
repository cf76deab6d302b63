-- ===== src/Calculator/Tests.antt =====
-- Runs of the calculator at fixed inputs, with natural numbers for the type double.
use tactility_halo.Base.{ℕ, ◌+◌, ◌-◌, ◌*◌, ◌/◌, ◌≡◌, refl, true, false, ◌==◌, [], ◌∷◌, some}
use tactility_halo.Calculator.{Double, Str, compute_formula}
use tactility_halo.Calculator.Grammar.{Expression, literal, sum, product, written}
use tactility_halo.Calculator.Evaluation.{value, IsDefined, compute_formula-written}

digits : ℕ → Str → ℕ
digits n [] = n
digits n (c ∷ rest) = digits (n * 10 + (c - b'0')) rest

abbrev naturals : Double
naturals = record {
  R = ℕ;
  number_zero = 0;
  add = λ a b. a + b;
  sub = λ a b. a - b;
  mul = λ a b. a * b;
  div = λ a b. a / b;
  is_zero = λ a. a == 0;
  stod = λ s. digits 0 s;
}

-- 8-2*(1+2)
abbrev formula : Expression
formula =
    sum true (literal b'8' [])
      (product false (literal b'2' []) (sum false (literal b'1' []) (literal b'2' [])))

formula_text : written formula ≡ b'8' ∷ b'-' ∷ b'2' ∷ b'*' ∷ b'(' ∷ b'1' ∷ b'+' ∷ b'2' ∷ b')' ∷ []
unfolding written
formula_text = refl

compute_formula-written_example : compute_formula naturals (written formula) ≡ some 2
unfolding value digits IsDefined
compute_formula-written_example =
    compute_formula-written naturals formula ((refl, tt), ((refl, tt), ((refl, tt), (refl, tt))))
      (tt, (tt, (tt, tt)))
