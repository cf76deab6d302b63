-- ===== src/Crypt/Tests.antt =====
-- Runs of Hash.cpp and Crypt.cpp at fixed inputs.
use tactility_halo.Base.{◌%◌, ◌^◌, ◌≡◌, refl, true, [], ◌∷◌, ◌++◌, some, arith, replicate}
use tactility_halo.Crypt.{Bytes, djb2, djb2_data, Aes}
use tactility_halo.Crypt.Hashes.{djb2_sum, djb2_lem}

abbrev text : Bytes
text = b'h' ∷ b'i' ∷ []

djb2_lem_example :
    (djb2 true (text ++ 0 ∷ []) ≡ djb2_data (text ++ 0 ∷ []) 2)
    × (djb2 true (text ++ 0 ∷ []) ≡ some (djb2_sum 5381 text % 2 ^ 32))
djb2_lem_example =
    djb2_lem true text [] ((omega arith, omega arith), ((omega arith, omega arith), tt))

-- A cipher that changes nothing.
abbrev plain : Aes
plain = record {
  encrypt_cbc = λ key iv input. input;
  decrypt_cbc = λ key iv input. input;
  decrypts = λ key iv input h. refl;
  same_length = λ key iv input. refl;
}

abbrev block : Bytes
block = replicate 16 7
