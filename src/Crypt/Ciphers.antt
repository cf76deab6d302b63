-- ===== src/Crypt/Ciphers.antt =====
-- Encryption and its initialisation vector.
use tactility_halo.Base.{
  ℕ, ◌+◌, ◌%◌, ◌<◌, ◌≡◌, ◌≢◌, ◌∙◌, refl, ap, false, [], ◌∷◌, some, arith, ◌==◌, if◌then◌else◌,
  length, All, Bool-cases, inl, inr,
}
use tactility_halo.Crypt.{
  Bytes, iv_loop, get_iv, Aes, crash, error_code, success, aes256_crypt_cbc, encrypt, decrypt,
}

-- Whole blocks are encrypted, and decryption with the same key and vector gives them back. Data of
-- length 0 is refused by the error code, and any other length is a failed check.
pub decrypt-encrypt :
    (aes : Aes) (key iv input : Bytes)
    → ((length input % 16 ≡ 0)
        → (0 < length input)
        → (encrypt aes key iv input ≡ success (aes.encrypt_cbc key iv input))
          × (decrypt aes key iv (aes.encrypt_cbc key iv input) ≡ success input))
      × ((length input ≡ 0) → encrypt aes key iv input ≡ error_code)
      × ((length input % 16 ≢ 0) → encrypt aes key iv input ≡ crash)
unfolding encrypt decrypt aes256_crypt_cbc
decrypt-encrypt aes key iv input = (
  λ whole some_data. (
    ground (arith, whole, some_data),
    ground (arith, whole, some_data, aes.same_length key iv input, aes.decrypts key iv input whole),
  ),
  λ empty. ground (arith, empty),
  λ broken. ground (arith, broken),
)

zero_mod : (b : ℕ) → b ≢ 0 → 0 % b ≡ 0
zero_mod b h = grind arith

iv_loop-zeros :
    (iv : ℕ → ℕ) (i : ℕ) (input : Bytes)
    → ((j : ℕ) → iv j ≡ 0)
    → All (λ b. b ≢ 0) input
    → (iv' : ℕ → ℕ) × (iv_loop iv i input ≡ some iv') × ((k : ℕ) → iv' k ≡ 0)
unfolding iv_loop
iv_loop-zeros iv i [] zeros h = (iv, refl, zeros)
iv_loop-zeros iv i (b ∷ input) zeros h =
    let nonzero : (b == 0) ≡ false = ground (arith, h.0) in
    let (iv', found, is) =
      iv_loop-zeros (λ j. if j == i % 16 then iv j % b else iv j) (i + 1) input
        (λ j. elim (Bool-cases (j == i % 16)) [
          | inl same ↦ rw same (ap (λ x. x % b) (zeros j) ∙ zero_mod b h.0)
          | inr apart ↦ rw apart (zeros j)
        ])
        h.1 in
    (iv', rw (nonzero, iv_loop) found, is)

-- Where no byte of the data is 0, `getIv` gives the vector of 16 zeros, whatever the data is: the
-- vectors of all such data are the same.
pub get_iv_zeros :
    (input : Bytes)
    → All (λ b. b ≢ 0) input
    → (iv : ℕ → ℕ) × (get_iv input ≡ some iv) × ((k : ℕ) → iv k ≡ 0)
unfolding get_iv
get_iv_zeros input h = iv_loop-zeros (λ j. 0) 0 input (λ j. refl) h
