-- ===== src/Calculator/Conversion.antt =====
-- The conversion of a written expression to reverse Polish notation.
use tactility_halo.Base.{
  ℕ, suc, ◌+◌, ◌≤◌, ◌≡◌, ◌∙◌, refl, ap, sym, Bool, true, false, List, [], ◌∷◌, ◌++◌, arith, All,
  All-append, append_assoc,
}
use tactility_halo.Calculator.{Str, in_number, precedence, infix_loop}
use tactility_halo.Calculator.Grammar.{
  Expression, literal, sum, product, sum_op, product_op, is_sum, is_compound, wrap, written,
  postfix, IsWritten, wrap_rounds, rounds, unless, pending, IsBelow, level, IsEnd,
}
use tactility_halo.Calculator.Rounds.{
  tokens, ready, wrap_ready, wrap_ready-unless, ready-pending, literal_round, open_round,
  close_round, sum_round, product_round,
}

unless-All :
    (n : ℕ) (b : Bool) (xs : List ℕ)
    → All (λ x. n ≤ precedence x) xs
    → All (λ x. n ≤ precedence x) (unless b xs)
unless-All n true xs h = tt
unless-All n false xs h = h

sum_op-bound : (minus : Bool) → precedence (sum_op minus) ≡ 1
sum_op-bound true = refl
sum_op-bound false = refl

product_op-bound : (divides : Bool) → precedence (product_op divides) ≡ 2
product_op-bound true = refl
product_op-bound false = refl

pending-bound : (e : Expression) → All (λ x. 1 ≤ precedence x) (pending e)
pending-bound (literal c more) = tt
pending-bound (sum minus a b) =
    All-append (λ x. 1 ≤ precedence x) (unless (is_sum b) (pending b)) (sum_op minus ∷ [])
      (unless-All 1 (is_sum b) (pending b) (pending-bound b))
      (omega (arith, sum_op-bound minus), tt)
pending-bound (product divides a b) = (omega (arith, product_op-bound divides), tt)

factor-bound : (e : Expression) → All (λ x. 2 ≤ precedence x) (unless (is_sum e) (pending e))
factor-bound (literal c more) = tt
factor-bound (sum minus a b) = tt
factor-bound (product divides a b) = (omega (arith, product_op-bound divides), tt)

IsBelow-mono : (m n : ℕ) (st : List ℕ) → m ≤ n → IsBelow m st → IsBelow n st
IsBelow-mono m n [] h b = tt
IsBelow-mono m n (x ∷ st) h b = omega arith

level-bound : (e : Expression) → 1 ≤ level e
level-bound (literal c more) = omega arith
level-bound (sum minus a b) = omega arith
level-bound (product divides a b) = omega arith

level-factor : (e : Expression) → is_sum e ≡ false → 2 ≤ level e
level-factor (literal c more) h = omega arith
level-factor (sum minus a b) h = absurd (ground arith)
level-factor (product divides a b) h = omega arith

level-literal : (e : Expression) → is_compound e ≡ false → 3 ≤ level e
level-literal (literal c more) h = omega arith
level-literal (sum minus a b) h = absurd (ground arith)
level-literal (product divides a b) h = absurd (ground arith)

unless-compound : (e : Expression) → unless (is_compound e) (pending e) ≡ []
unless-compound (literal c more) = refl
unless-compound (sum minus a b) = refl
unless-compound (product divides a b) = refl

ready-compound : (e : Expression) → wrap_ready (is_compound e) e ≡ postfix e
unfolding postfix
ready-compound (literal c more) = refl
ready-compound (sum minus a b) = refl
ready-compound (product divides a b) = refl

sum_op-IsEnd : (minus : Bool) → in_number (sum_op minus) ≡ false
sum_op-IsEnd true = refl
sum_op-IsEnd false = refl

product_op-IsEnd : (divides : Bool) → in_number (product_op divides) ≡ false
product_op-IsEnd true = refl
product_op-IsEnd false = refl

-- What reading an expression does.
abbrev pub Reads : Expression → Type 0
Reads e =
    (st : List ℕ) (rest : Str) (out : List Str) (fuel : ℕ)
    → IsBelow (level e) st
    → IsEnd rest
    → infix_loop (rounds e + fuel) (written e ++ rest) st out
      ≡ infix_loop fuel rest (pending e ++ st) (out ++ ready e)

Reads-wrapped :
    (wrapped : Bool) (e : Expression)
    → Reads e
    → (st : List ℕ) (rest : Str) (out : List Str) (fuel : ℕ)
    → (wrapped ≡ false → IsBelow (level e) st)
    → IsEnd rest
    → infix_loop (wrap_rounds wrapped (rounds e) + fuel) (wrap wrapped (written e) ++ rest) st out
      ≡ infix_loop fuel rest (unless wrapped (pending e) ++ st) (out ++ wrap_ready wrapped e)
Reads-wrapped false e reads st rest out fuel below end = reads st rest out fuel (below refl) end
Reads-wrapped true e reads st rest out fuel below end =
    ap (λ k. infix_loop k (b'(' ∷ ((written e ++ b')' ∷ []) ++ rest)) st out)
      {x = suc (rounds e + 1) + fuel} {y = suc (rounds e + suc fuel)} (omega arith)
    ∙ open_round (rounds e + suc fuel) ((written e ++ b')' ∷ []) ++ rest) st out
    ∙ ap (λ x. infix_loop (rounds e + suc fuel) x (b'(' ∷ st) out)
        (append_assoc (written e) (b')' ∷ []) rest)
    ∙ reads (b'(' ∷ st) (b')' ∷ rest) out (suc fuel) (omega (arith, level-bound e)) refl
    ∙ close_round fuel rest (pending e) st (out ++ ready e) (pending-bound e)
    ∙ ap (infix_loop fuel rest st)
        (append_assoc out (ready e) (tokens (pending e)) ∙ ap (λ x. out ++ x) (ready-pending e))

Reads-sum : (minus : Bool) (a b : Expression) → Reads a → Reads b → Reads (sum minus a b)
unfolding written
Reads-sum minus a b reads_a reads_b st rest out fuel below end =
    let w = wrap (is_sum b) (written b) in
    let n = wrap_rounds (is_sum b) (rounds b) in
    let op = sum_op minus in
    let stack = unless (is_sum b) (pending b) in
    ap (λ k. infix_loop k ((written a ++ op ∷ w) ++ rest) st out) {x = rounds a + suc n + fuel}
      {y = rounds a + suc (n + fuel)} (omega arith)
    ∙ ap (λ x. infix_loop (rounds a + suc (n + fuel)) x st out)
        (append_assoc (written a) (op ∷ w) rest)
    ∙ reads_a st (op ∷ (w ++ rest)) out (suc (n + fuel))
        (IsBelow-mono 1 (level a) st (level-bound a) below) (sum_op-IsEnd minus)
    ∙ sum_round (n + fuel) minus (w ++ rest) (pending a) st (out ++ ready a) (pending-bound a) below
    ∙ ap (infix_loop (n + fuel) (w ++ rest) (op ∷ st))
        (append_assoc out (ready a) (tokens (pending a)) ∙ ap (λ x. out ++ x) (ready-pending a))
    ∙ Reads-wrapped (is_sum b) b reads_b (op ∷ st) rest (out ++ postfix a) fuel
        (λ free. omega (arith, sum_op-bound minus, level-factor b free)) end
    ∙ ap (λ x. infix_loop fuel rest x ((out ++ postfix a) ++ wrap_ready (is_sum b) b))
        (sym (append_assoc stack (op ∷ []) st))
    ∙ ap (infix_loop fuel rest ((stack ++ op ∷ []) ++ st))
        (append_assoc out (postfix a) (wrap_ready (is_sum b) b))

Reads-product :
    (divides : Bool) (a b : Expression) → Reads a → Reads b → Reads (product divides a b)
unfolding written
Reads-product divides a b reads_a reads_b st rest out fuel below end =
    let v = wrap (is_sum a) (written a) in
    let m = wrap_rounds (is_sum a) (rounds a) in
    let w = wrap (is_compound b) (written b) in
    let n = wrap_rounds (is_compound b) (rounds b) in
    let op = product_op divides in
    let stack = unless (is_sum a) (pending a) in
    ap (λ k. infix_loop k ((v ++ op ∷ w) ++ rest) st out) {x = m + suc n + fuel}
      {y = m + suc (n + fuel)} (omega arith)
    ∙ ap (λ x. infix_loop (m + suc (n + fuel)) x st out) (append_assoc v (op ∷ w) rest)
    ∙ Reads-wrapped (is_sum a) a reads_a st (op ∷ (w ++ rest)) out (suc (n + fuel))
        (λ free. IsBelow-mono 2 (level a) st (level-factor a free) below) (product_op-IsEnd divides)
    ∙ product_round (n + fuel) divides (w ++ rest) stack st (out ++ wrap_ready (is_sum a) a)
        (factor-bound a) below
    ∙ ap (infix_loop (n + fuel) (w ++ rest) (op ∷ st)) (
        append_assoc out (wrap_ready (is_sum a) a) (tokens stack)
        ∙ ap (λ x. out ++ x) (wrap_ready-unless (is_sum a) a (ready-pending a)))
    ∙ Reads-wrapped (is_compound b) b reads_b (op ∷ st) rest (out ++ postfix a) fuel
        (λ free. omega (arith, product_op-bound divides, level-literal b free)) end
    ∙ ap
        (λ x.
          infix_loop fuel rest (x ++ op ∷ st) ((out ++ postfix a) ++ wrap_ready (is_compound b) b))
        (unless-compound b)
    ∙ ap (λ x. infix_loop fuel rest (op ∷ st) ((out ++ postfix a) ++ x)) (ready-compound b)
    ∙ ap (infix_loop fuel rest (op ∷ st)) (append_assoc out (postfix a) (postfix b))

pub Reads-expression : (e : Expression) → IsWritten e → Reads e
Reads-expression (literal c more) v = λ st rest out fuel below end.
    unfold written in
    ap (λ k. infix_loop k (c ∷ (more ++ rest)) st out) {x = 1 + fuel} {y = suc fuel} (omega arith)
    ∙ literal_round fuel c more rest st out v.0 v.1 end
Reads-expression (sum minus a b) v =
    Reads-sum minus a b (Reads-expression a v.0) (Reads-expression b v.1)
Reads-expression (product divides a b) v =
    Reads-product divides a b (Reads-expression a v.0) (Reads-expression b v.1)
