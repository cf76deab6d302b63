-- ===== src/Crypt.antt =====
-- TactilityCore/Source/crypt/Hash.cpp and Crypt.cpp. AES of mbed TLS is a parameter, and so is the
-- key that `getKey` makes (the key from the hardware and the flash, or zeros on the simulator).
pub mod Hashes
pub mod Ciphers
pub mod Tests
use tactility_halo.Base.{
  ℕ, zero, suc, ◌+◌, ◌-◌, ◌*◌, ◌%◌, ◌^◌, ◌≡◌, Bool, true, false, ◌&&◌, List, [], ◌∷◌, Option, none,
  some, leb, ◌==◌, if◌then◌else◌, length, replicate,
}

abbrev pub Bytes : Type 0
Bytes = List ℕ

-- `(uint32_t)c` for a `char` with the bit pattern: sign extension where `char` is signed.
unfoldable pub widen : Bool → ℕ → ℕ
widen char_is_signed c = if char_is_signed && leb 128 c then 2 ^ 32 - 256 + c else c

-- `((hash << 5) + hash) + c` on 32 bits
unfoldable pub djb2_step : ℕ → ℕ → ℕ
djb2_step hash c = (hash * 32 + hash + c) % 2 ^ 32

-- The loop over a string in memory; `none` is a read past the memory.
unfoldable pub djb2_loop : Bool → ℕ → Bytes → Option ℕ
djb2_loop char_is_signed hash [] = none
djb2_loop char_is_signed hash (c ∷ memory) =
    let later = djb2_loop char_is_signed (djb2_step hash (widen char_is_signed c)) memory in
    if c == 0 then some hash else later

unfoldable pub djb2 : Bool → Bytes → Option ℕ
djb2 char_is_signed memory = djb2_loop char_is_signed 5381 memory

-- The loop over data: `c` was read before the test of the index, also the one behind the data.
unfoldable pub djb2_data_loop : ℕ → ℕ → Bytes → Option ℕ
djb2_data_loop hash remaining [] = none
djb2_data_loop hash zero (c ∷ memory) = some hash
djb2_data_loop hash (suc remaining) (c ∷ memory) =
    djb2_data_loop (djb2_step hash c) remaining memory

unfoldable pub djb2_data : Bytes → ℕ → Option ℕ
djb2_data memory size = djb2_data_loop 5381 size memory

-- `iv[i % 16] %= data[i]`, byte after byte; `none` is the division by zero.
unfoldable pub iv_loop : (ℕ → ℕ) → ℕ → Bytes → Option (ℕ → ℕ)
iv_loop iv i [] = some iv
iv_loop iv i (byte ∷ data_bytes) =
    let later = iv_loop (λ k. if k == i % 16 then iv k % byte else iv k) (i + 1) data_bytes in
    if byte == 0 then none else later

unfoldable pub get_iv : Bytes → Option (ℕ → ℕ)
get_iv data_bytes = iv_loop (λ k. 0) 0 data_bytes

-- The two directions of `mbedtls_aes_crypt_cbc` with a 256-bit key: key, IV and input.
pub record Aes : Type 0 where
  pub encrypt_cbc : Bytes → Bytes → Bytes → Bytes
  pub decrypt_cbc : Bytes → Bytes → Bytes → Bytes
  -- mbed TLS: decryption undoes encryption of whole blocks, and the output is as long as the input.
  pub decrypts :
      (key iv input : Bytes)
      → length input % 16 ≡ 0
      → decrypt_cbc key iv (encrypt_cbc key iv input) ≡ input
  pub same_length : (key iv input : Bytes) → length (encrypt_cbc key iv input) ≡ length input

-- What `encrypt` and `decrypt` do: the failed check, the error code -1, or success with the
-- output.
pub data CryptResult : Type 0 where
  crash error_code : CryptResult
  success : Bytes → CryptResult

unfoldable pub aes256_crypt_cbc :
    (Bytes → Bytes → Bytes → Bytes) → Bytes → Bytes → Bytes → CryptResult
aes256_crypt_cbc direction key iv input =
    if length input == 0
    then error_code
    else if length input % 16 == 0
    then success (direction key iv input)
    else error_code

module _ (aes : Aes) where
  unfoldable pub encrypt : Bytes → Bytes → Bytes → CryptResult
  encrypt key iv in_data =
      if length in_data % 16 == 0 then aes256_crypt_cbc aes.encrypt_cbc key iv in_data else crash

  unfoldable pub decrypt : Bytes → Bytes → Bytes → CryptResult
  decrypt key iv in_data =
      if length in_data % 16 == 0 then aes256_crypt_cbc aes.decrypt_cbc key iv in_data else crash
