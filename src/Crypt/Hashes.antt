-- ===== src/Crypt/Hashes.antt =====
-- The two forms of djb2.
use tactility_halo.Base.{
  ℕ, ◌+◌, ◌*◌, ◌%◌, ◌^◌, ◌<◌, ◌≡◌, ◌∙◌, refl, ap, Bool, true, false, [], ◌∷◌, ◌++◌, some, arith,
  leb, ◌==◌, length, All,
}
use tactility_halo.Crypt.{Bytes, widen, djb2_step, djb2_loop, djb2, djb2_data_loop, djb2_data}

-- A character of a C string in ASCII.
abbrev pub IsText : Bytes → Type 0
IsText = All (λ c. (0 < c) × (c < 128))

widen-ascii : (signed : Bool) (c : ℕ) → c < 128 → widen signed c ≡ c
unfolding widen
widen-ascii true c h = (let small : leb 128 c ≡ false = ground arith in rw (small, widen))
widen-ascii false c h = refl

loops_agree :
    (signed : Bool) (hash : ℕ) (text rest : Bytes)
    → IsText text
    → djb2_loop signed hash (text ++ 0 ∷ rest)
      ≡ djb2_data_loop hash (length text) (text ++ 0 ∷ rest)
unfolding djb2_loop djb2_data_loop
loops_agree signed hash [] rest h = refl
loops_agree signed hash (c ∷ text) rest h =
    let going : (c == 0) ≡ false = ground (arith, h.0.0) in
    rw (going, djb2_loop, widen-ascii signed c h.0.1)
      (loops_agree signed (djb2_step hash c) text rest h.1)

-- The hash as a sum over the bytes, not wrapped on the way.
pub djb2_sum : ℕ → Bytes → ℕ
djb2_sum hash [] = hash
djb2_sum hash (c ∷ text) = djb2_sum (hash * 33 + c) text

data_loop-sum :
    (hash exact : ℕ) (text rest : Bytes) (end : ℕ)
    → hash ≡ exact % 2 ^ 32
    → djb2_data_loop hash (length text) (text ++ end ∷ rest) ≡ some (djb2_sum exact text % 2 ^ 32)
unfolding djb2_data_loop djb2_sum djb2_step
data_loop-sum hash exact [] rest end e = ap some e
data_loop-sum hash exact (c ∷ text) rest end e =
    data_loop-sum ((hash * 32 + hash + c) % 2 ^ 32) (exact * 33 + c) text rest end
      (omega (arith, e))

-- For a text in ASCII with its terminating zero in memory, the hash of the string is the hash of
-- its bytes, whether `char` is signed or not, and it is the exact polynomial in 33, started with
-- 5381, modulo 2^32.
pub djb2_lem :
    (signed : Bool) (text rest : Bytes)
    → IsText text
    → (djb2 signed (text ++ 0 ∷ rest) ≡ djb2_data (text ++ 0 ∷ rest) (length text))
      × (djb2 signed (text ++ 0 ∷ rest) ≡ some (djb2_sum 5381 text % 2 ^ 32))
unfolding djb2 djb2_data
djb2_lem signed text rest h =
    let same = loops_agree signed 5381 text rest h in
    (same, same ∙ data_loop-sum 5381 5381 text rest 0 (omega arith))
