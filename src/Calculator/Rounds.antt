-- ===== src/Calculator/Rounds.antt =====
-- What single rounds of the conversion do.
use tactility_halo.Base.{
  ℕ, suc, ◌≤◌, ◌≡◌, ◌∙◌, refl, ap, sym, Bool, true, false, ◌||◌, List, [], ◌∷◌, ◌++◌, map, some,
  arith, leb, le→leb, ◌==◌, if◌then◌else◌, All, append_assoc, append-nil,
}
use tactility_halo.Calculator.{
  Str, is_digit, in_number, precedence, number, behind_number, pop_operators, pop_parenthesis,
  infix_round, infix_loop,
}
use tactility_halo.Calculator.Grammar.{
  Expression, literal, sum, product, sum_op, product_op, is_sum, postfix, unless, pending, IsBelow,
  IsEnd,
}

abbrev pub tokens : List ℕ → List Str
tokens = map (λ op. op ∷ [])

-- The output when a formula has been read.
abbrev pub ready : Expression → List Str
ready (literal c more) = (c ∷ more) ∷ []
ready (sum minus a b) = postfix a ++ (if is_sum b then postfix b else ready b)
ready (product divides a b) = postfix a ++ postfix b

abbrev pub wrap_ready : Bool → Expression → List Str
wrap_ready wrapped e = if wrapped then postfix e else ready e

tokens-append : (xs ys : List ℕ) → tokens (xs ++ ys) ≡ tokens xs ++ tokens ys
tokens-append [] ys = refl
tokens-append (x ∷ xs) ys = ap (◌∷◌ (x ∷ [])) (tokens-append xs ys)

pub wrap_ready-unless :
    (wrapped : Bool) (e : Expression)
    → ready e ++ tokens (pending e) ≡ postfix e
    → wrap_ready wrapped e ++ tokens (unless wrapped (pending e)) ≡ postfix e
wrap_ready-unless true e h = append-nil (postfix e)
wrap_ready-unless false e h = h

pub ready-pending : (e : Expression) → ready e ++ tokens (pending e) ≡ postfix e
unfolding postfix
ready-pending (literal c more) = refl
ready-pending (sum minus a b) =
    let front = wrap_ready (is_sum b) b in
    let stack = unless (is_sum b) (pending b) in
    let last : List Str = (sum_op minus ∷ []) ∷ [] in
    ap (λ x. (postfix a ++ front) ++ x) (tokens-append stack (sum_op minus ∷ []))
    ∙ append_assoc (postfix a) front (tokens stack ++ last)
    ∙ ap (λ x. postfix a ++ x)
        (sym (append_assoc front (tokens stack) last)
          ∙ ap (λ x. x ++ last) (wrap_ready-unless (is_sum b) b (ready-pending b)))
ready-pending (product divides a b) =
    append_assoc (postfix a) (postfix b) ((product_op divides ∷ []) ∷ [])

number_lem :
    (more rest : Str)
    → All (λ x. in_number x ≡ true) more
    → IsEnd rest
    → (number (more ++ rest) ≡ more) × (behind_number (more ++ rest) ≡ rest)
unfolding number behind_number
number_lem [] [] h e = (refl, refl)
number_lem [] (c ∷ rest) h e = (rw (e, number), rw (e, behind_number))
number_lem (c ∷ more) rest h e =
    let (token, left) = number_lem more rest h.1 e in
    (rw (h.0, number) (ap (◌∷◌ c) token), rw (h.0, behind_number) left)

pub loop_round :
    (fuel ch : ℕ) (rest r : Str) (st s : List ℕ) (out o : List Str)
    → infix_round ch rest st out ≡ some (r, s, o)
    → infix_loop (suc fuel) (ch ∷ rest) st out ≡ infix_loop fuel r s o
unfolding infix_loop
loop_round fuel ch rest r st s out o e = rw (e, infix_loop)

digit_round :
    (c : ℕ) (rest : Str) (st : List ℕ) (out : List Str)
    → is_digit c ≡ true
    → infix_round c rest st out ≡ some (behind_number (c ∷ rest), st, out ++ number (c ∷ rest) ∷ [])
unfolding infix_round
digit_round c rest st out digit = rw (digit, infix_round)

digit-in_number : (c : ℕ) → is_digit c ≡ true → in_number c ≡ true
digit-in_number c h = ap (λ b. b || c == b'.') h

pub literal_round :
    (fuel c : ℕ) (more rest : Str) (st : List ℕ) (out : List Str)
    → is_digit c ≡ true
    → All (λ x. in_number x ≡ true) more
    → IsEnd rest
    → infix_loop (suc fuel) (c ∷ (more ++ rest)) st out
      ≡ infix_loop fuel rest st (out ++ (c ∷ more) ∷ [])
literal_round fuel c more rest st out digit h e =
    let (token, left) = number_lem (c ∷ more) rest (digit-in_number c digit, h) e in
    loop_round fuel c (more ++ rest) rest st st out (out ++ (c ∷ more) ∷ []) (
      digit_round c (more ++ rest) st out digit
      ∙ ap (λ x. some (x, st, out ++ number (c ∷ (more ++ rest)) ∷ [])) left
      ∙ ap (λ x. some (rest, st, out ++ x ∷ [])) token)

pop_operators-pending :
    (op : ℕ) (pend st : List ℕ) (out : List Str)
    → All (λ x. precedence op ≤ precedence x) pend
    → IsBelow (precedence op) st
    → pop_operators op (pend ++ st) out ≡ (st, out ++ tokens pend)
unfolding pop_operators
pop_operators-pending op [] [] out h b = ap (λ x. ([], x)) (sym (append-nil out))
pop_operators-pending op [] (top ∷ st) out h b =
    let stays : leb (precedence op) (precedence top) ≡ false = ground (arith, b) in
    rw (stays, pop_operators) (ap (λ x. (top ∷ st, x)) (sym (append-nil out)))
pop_operators-pending op (x ∷ pend) st out h b =
    let pops = le→leb (precedence op) (precedence x) h.0 in
    rw (pops, pop_operators)
      (pop_operators-pending op pend st (out ++ (x ∷ []) ∷ []) h.1 b
        ∙ ap (λ o. (st, o)) (append_assoc out ((x ∷ []) ∷ []) (tokens pend)))

no_parenthesis : (x : ℕ) → 1 ≤ precedence x → (x == b'(') ≡ false
no_parenthesis x h = ground arith

pop_parenthesis-pending :
    (pend st : List ℕ) (out : List Str)
    → All (λ x. 1 ≤ precedence x) pend
    → pop_parenthesis (pend ++ b'(' ∷ st) out ≡ some (st, out ++ tokens pend)
unfolding pop_parenthesis
pop_parenthesis-pending [] st out h = ap (λ x. some (st, x)) (sym (append-nil out))
pop_parenthesis-pending (x ∷ pend) st out h =
    let other = no_parenthesis x h.0 in
    rw (other, pop_parenthesis)
      (pop_parenthesis-pending pend st (out ++ (x ∷ []) ∷ []) h.1
        ∙ ap (λ o. some (st, o)) (append_assoc out ((x ∷ []) ∷ []) (tokens pend)))

pub open_round :
    (fuel : ℕ) (rest : Str) (st : List ℕ) (out : List Str)
    → infix_loop (suc fuel) (b'(' ∷ rest) st out ≡ infix_loop fuel rest (b'(' ∷ st) out
unfolding infix_loop infix_round
open_round fuel rest st out = refl

close_step :
    (rest : Str) (pend st : List ℕ) (out : List Str)
    → All (λ x. 1 ≤ precedence x) pend
    → infix_round b')' rest (pend ++ b'(' ∷ st) out ≡ some (rest, st, out ++ tokens pend)
unfolding infix_round
close_step rest pend st out h =
    let popped = pop_parenthesis-pending pend st out h in rw (popped, infix_round)

pub close_round :
    (fuel : ℕ) (rest : Str) (pend st : List ℕ) (out : List Str)
    → All (λ x. 1 ≤ precedence x) pend
    → infix_loop (suc fuel) (b')' ∷ rest) (pend ++ b'(' ∷ st) out
      ≡ infix_loop fuel rest st (out ++ tokens pend)
close_round fuel rest pend st out h =
    loop_round fuel b')' rest rest (pend ++ b'(' ∷ st) st out (out ++ tokens pend)
      (close_step rest pend st out h)

pub sum_round :
    (fuel : ℕ) (minus : Bool) (rest : Str) (pend st : List ℕ) (out : List Str)
    → All (λ x. 1 ≤ precedence x) pend
    → IsBelow 1 st
    → infix_loop (suc fuel) (sum_op minus ∷ rest) (pend ++ st) out
      ≡ infix_loop fuel rest (sum_op minus ∷ st) (out ++ tokens pend)
sum_round fuel true rest pend st out h b =
    loop_round fuel b'-' rest rest (pend ++ st) (b'-' ∷ st) out (out ++ tokens pend) (
      unfold infix_round in
      ap (λ x. some (rest, b'-' ∷ x.0, x.1)) (pop_operators-pending b'-' pend st out h b))
sum_round fuel false rest pend st out h b =
    loop_round fuel b'+' rest rest (pend ++ st) (b'+' ∷ st) out (out ++ tokens pend) (
      unfold infix_round in
      ap (λ x. some (rest, b'+' ∷ x.0, x.1)) (pop_operators-pending b'+' pend st out h b))

pub product_round :
    (fuel : ℕ) (divides : Bool) (rest : Str) (pend st : List ℕ) (out : List Str)
    → All (λ x. 2 ≤ precedence x) pend
    → IsBelow 2 st
    → infix_loop (suc fuel) (product_op divides ∷ rest) (pend ++ st) out
      ≡ infix_loop fuel rest (product_op divides ∷ st) (out ++ tokens pend)
product_round fuel true rest pend st out h b =
    loop_round fuel b'/' rest rest (pend ++ st) (b'/' ∷ st) out (out ++ tokens pend) (
      unfold infix_round in
      ap (λ x. some (rest, b'/' ∷ x.0, x.1)) (pop_operators-pending b'/' pend st out h b))
product_round fuel false rest pend st out h b =
    loop_round fuel b'*' rest rest (pend ++ st) (b'*' ∷ st) out (out ++ tokens pend) (
      unfold infix_round in
      ap (λ x. some (rest, b'*' ∷ x.0, x.1)) (pop_operators-pending b'*' pend st out h b))
