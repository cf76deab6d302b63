-- ===== src/Tca9534/Pins.antt =====
-- One pin among the others.
use Prim.Native.Nat.{bit_or, digits, max, bit_or-bitwise}
use tactility_halo.Base.{
  lt_or_le, subst, inl, inr, ℕ, zero, suc, ◌/◌, ◌≤◌, ◌<◌, ◌==◌, ◌≡◌, ◌≢◌, ◌∙◌, refl, sym, ap, Bool,
  true, false, not, ◌&&◌, arith, if◌then◌else◌, ltb, ltb→lt,
}
use tactility_halo.Tca9534.{Register, Expander, pin_of, with_pin, get_all, get_pin, set_pin}

-- Whether a test holds of all numbers below a bound.
checks : (ℕ → Bool) → ℕ → Bool
checks test zero = true
checks test (suc bound) = let lower = checks test bound in if test bound then lower else false

checks_at : (test : ℕ → Bool) (bound v : ℕ) → v < bound → checks test bound ≡ true → test v ≡ true
unfolding checks
checks_at test zero v below all = elim below [ ]
checks_at test (suc bound) v below all = elim (lt_or_le v bound) [
  | inl lower ↦ ground (arith, checks_at test bound v lower)
  | inr last ↦
      let here : bound ≡ v = omega arith in
      let holds : test bound ≡ true = ground arith in subst (λ w. test w ≡ true) here holds
]

abbrev same : Bool → Bool → Bool
same true b = b
same false b = not b

same-eq : (a b : Bool) → same a b ≡ true → a ≡ b
same-eq true b h = ground arith
same-eq false b h = ground arith

abbrev is_right : Bool → ℕ → ℕ → ℕ → Bool
is_right on v p q =
    ltb (with_pin on v p) 256
    && same (pin_of (with_pin on v p) q) (if p == q then on else pin_of v q)

abbrev table : Bool → Bool
table on = checks (λ v. checks (λ p. checks (is_right on v p) 8) 8) 256

table_on : table true ≡ true
unfolding checks pin_of with_pin
table_on = refl

table_off : table false ≡ true
unfolding checks pin_of with_pin
table_off = refl

none_table : checks (λ q. not (pin_of 0 q)) 8 ≡ true
unfolding checks pin_of
none_table = refl

none_set : (q : ℕ) → q < 8 → pin_of 0 q ≡ false
none_set q h =
    let clear = checks_at (λ q. not (pin_of 0 q)) 8 q h none_table in ground (arith, clear)

table_right : (on : Bool) → table on ≡ true
table_right true = table_on
table_right false = table_off

and_both : (a b : Bool) → (a && b) ≡ true → (a ≡ true) × (b ≡ true)
and_both a b h = ground arith

or_digits_zero : (n a b : ℕ) → a ≤ n → digits (λ c. c) max n a b ≡ 0 → (a ≡ 0) × (b ≡ 0)
or_digits_zero zero zero b h e = (refl, e)
or_digits_zero zero (suc a) b h e = absurd (omega arith)
or_digits_zero (suc n) zero b h e = (refl, e)
or_digits_zero (suc n) (suc a) b h e =
    let low = or_digits_zero n (suc a / 2) (b / 2) (omega arith) (omega arith) in
    (omega arith, omega arith)

-- Two statuses are joined to 0 only if both are.
or_zero : (a b : ℕ) → bit_or a b ≡ 0 → (a ≡ 0) × (b ≡ 0)
or_zero a b e = or_digits_zero a a b (omega arith) (sym (bit_or-bitwise a b) ∙ e)

with_pin_lem :
    (on : Bool) (v p q : ℕ)
    → v < 256
    → p < 8
    → q < 8
    → (with_pin on v p < 256) × (pin_of (with_pin on v p) q ≡ (if p == q then on else pin_of v q))
with_pin_lem on v p q hv hp hq =
    let row =
      checks_at (λ w. checks (λ i. checks (is_right on w i) 8) 8) 256 v hv (table_right on) in
    let column = checks_at (λ i. checks (is_right on v i) 8) 8 p hp row in
    let cell = checks_at (is_right on v p) 8 q hq column in
    let parts = and_both (ltb (with_pin on v p) 256) _ cell in
    (ltb→lt (with_pin on v p) 256 parts.0, same-eq _ _ parts.1)

-- A chip whose register keeps what an acknowledged write puts there: what it holds, what a read that
-- is acknowledged delivers, and that no read changes it.
pub record Stores {E : Type 0} (io_exp : Expander E) (reg : Register) (value : E → ℕ) : Type 0 where
  pub is_byte : (e : E) → value e < 256
  pub read_keeps : (e : E) → value (io_exp.read_reg reg e).0 ≡ value e
  pub read_delivers : (e : E) → (io_exp.read_reg reg e).1 ≡ 0 → (io_exp.read_reg reg e).2 ≡ value e
  pub write_stores :
      (byte : ℕ) (e : E)
      → byte < 256
      → (io_exp.write_reg reg byte e).1 ≡ 0
      → value (io_exp.write_reg reg byte e).0 ≡ byte

module _ {E : Type 0} (io_exp : Expander E) (reg : Register) (value : E → ℕ)
    (stores : Stores io_exp reg value) where
  set_pin_lem :
      (on : Bool) (p q : ℕ) (e : E)
      → p < 8
      → q < 8
      → (set_pin io_exp reg on p e).1 ≡ 0
      → pin_of (value (set_pin io_exp reg on p e).0) q ≡ (if p == q then on else pin_of (value e) q)
  unfolding set_pin
  set_pin_lem on p q e hp hq ok =
      let read = io_exp.read_reg reg e in
      let byte = if read.1 == 0 then read.2 else 0 in
      let both = or_zero read.1 (io_exp.write_reg reg (with_pin on byte p) read.0).1 ok in
      let held : byte ≡ value e = ground (arith, both.0, stores.read_delivers e both.0) in
      let small : byte < 256 = omega (arith, held, stores.is_byte e) in
      let changed = with_pin_lem on byte p q small hp hq in
      ap (λ v. pin_of v q) (stores.write_stores (with_pin on byte p) read.0 changed.0 both.1)
      ∙ changed.1
      ∙ ap (λ v. if p == q then on else pin_of v q) held

  get_pin_lem :
      (q : ℕ) (e : E)
      → (io_exp.read_reg reg e).1 ≡ 0
      → (get_pin io_exp reg q e).1 ≡ pin_of (value e) q
  unfolding get_pin get_all
  get_pin_lem q e ok =
      let delivered = stores.read_delivers e ok in
      ground (arith, ok, delivered, ap (λ v. pin_of v q) delivered)

  -- After a change of one pin of a register that succeeds, a read that succeeds finds that pin as it
  -- was set, and each of the other seven as it was before.
  pub get_pin-set_pin :
      (on : Bool) (p q : ℕ) (e : E)
      → p < 8
      → q < 8
      → (set_pin io_exp reg on p e).1 ≡ 0
      → (io_exp.read_reg reg (set_pin io_exp reg on p e).0).1 ≡ 0
      → (get_pin io_exp reg q (set_pin io_exp reg on p e).0).1
        ≡ (if p == q then on else pin_of (value e) q)
  get_pin-set_pin on p q e hp hq ok read =
      get_pin_lem q (set_pin io_exp reg on p e).0 read ∙ set_pin_lem on p q e hp hq ok

  -- If the read of a change of one pin fails and its write succeeds, all other pins are cleared.
  pub set_pin_clears :
      (on : Bool) (p q : ℕ) (e : E)
      → p < 8
      → q < 8
      → (io_exp.read_reg reg e).1 ≢ 0
      → (io_exp.write_reg reg (with_pin on 0 p) (io_exp.read_reg reg e).0).1 ≡ 0
      → pin_of (value (set_pin io_exp reg on p e).0) q ≡ (p == q && on)
  unfolding set_pin
  set_pin_clears on p q e hp hq failed written =
      let changed = with_pin_lem on 0 p q (omega arith) hp hq in
      let nothing : ((io_exp.read_reg reg e).1 == 0) ≡ false = ground arith in
      let stored =
        stores.write_stores (with_pin on 0 p) (io_exp.read_reg reg e).0 changed.0 written in
      rw nothing (ap (λ v. pin_of v q) stored ∙ changed.1 ∙ ground (arith, none_set q hq))
