-- ===== src/Descrambler/Keys/Tests.antt =====
-- The keys with a toy cipher, and the theorems about them at concrete keys.
use vdr_plugin_dvbapi.Prelude.{
  ℕ, suc, ◌^◌, ◌≤◌, ◌≡◌, ◌↔◌, refl, ap, ap₂, ◌∙◌, true, false, List, [], ◌∷◌, ◌++◌, map, concat,
  some, none, arith, replicate, bit_xor, bit_xor_twice, length,
}
use vdr_plugin_dvbapi.Descrambler.Keys.{
  Crypto, DeCsaKey, Keys, new_key, aes_decrypt, set_data, data_iv,
}
use vdr_plugin_dvbapi.Descrambler.Keys.Cbc.{cbc_encrypt, aes_decrypt-cbc_encrypt}
use vdr_plugin_dvbapi.Descrambler.Keys.Settings.{set_data-none}

-- A cipher that flips bits of each byte; a key struct holds its control words.
abbrev flip_bits : List ℕ → List ℕ
flip_bits b = map (λ x. bit_xor x 0x5A) b

abbrev toy : Crypto
toy = record {
  CsaKey = List ℕ × List ℕ;
  AesCtx = List ℕ;
  DesKey = List ℕ;
  set_even_cw = λ cw ecm key. (cw, key.1);
  set_odd_cw = λ cw ecm key. (key.0, cw);
  aes_set_key = λ bits cw ctx. (cw, true);
  aes_update = λ ctx bytes. some (flip_bits bytes);
  des_set_key = λ cw. cw;
  des_block = λ key block. block;
}

flip_twice : (b : List ℕ) → flip_bits (flip_bits b) ≡ b
flip_twice [] = refl
flip_twice (x ∷ b) = ap₂ (λ (y : ℕ) (ys : List ℕ). y ∷ ys) (bit_xor_twice x 0x5A) (flip_twice b)

length-flip_bits : (b : List ℕ) → length (flip_bits b) ≡ length b
length-flip_bits [] = refl
length-flip_bits (x ∷ b) = ap suc (length-flip_bits b)

flip_bits-append : (xs ys : List ℕ) → flip_bits (xs ++ ys) ≡ flip_bits xs ++ flip_bits ys
flip_bits-append [] ys = refl
flip_bits-append (x ∷ xs) ys = ap (λ l. bit_xor x 0x5A ∷ l) (flip_bits-append xs ys)

flip_bits-concat : (cs : List (List ℕ)) → flip_bits (concat cs) ≡ concat (map flip_bits cs)
flip_bits-concat [] = refl
flip_bits-concat (c ∷ cs) =
    flip_bits-append c (concat cs) ∙ ap (λ l. flip_bits c ++ l) (flip_bits-concat cs)

abbrev cbc_key : DeCsaKey toy
cbc_key = record {
  aes = false;
  algo = 2;
  cipher_mode = 1;
  aes_iv = replicate 16 7;
  key = none;
  aes_keys = some ([], []);
  des_keys = ([], []);
}

abbrev two_blocks : List (List ℕ)
two_blocks = replicate 16 1 ∷ replicate 16 2 ∷ []

aes_decrypt-cbc_encrypt_example :
    aes_decrypt toy true (concat (cbc_encrypt flip_bits (replicate 16 7) two_blocks)) cbc_key
    ≡ some (concat two_blocks)
aes_decrypt-cbc_encrypt_example =
    aes_decrypt-cbc_encrypt flip_bits flip_bits (λ b h. length-flip_bits b ∙ h)
      (λ b h. flip_twice b) toy cbc_key true [] [] two_blocks refl refl refl refl (refl, (refl, tt))
      (λ cs blocks. ap some (flip_bits-concat cs))

abbrev all_keys : Keys toy
all_keys = replicate 32 (new_key toy ([], []))

abbrev iv : List ℕ
iv = replicate 16 0

set_data-none_example :
    (set_data toy none (0xFFFFFFFF) 0 data_iv iv all_keys ≡ none)
    ↔ ((data_iv ≡ data_iv) × (length iv ≡ 16) × (2 ^ 31 ≤ 0xFFFFFFFF))
set_data-none_example = set_data-none toy none (0xFFFFFFFF) 0 data_iv iv all_keys refl

-- The IV of a negative index.
leaves_the_array : set_data toy none (0xFFFFFFFF) 0 data_iv iv all_keys ≡ none
leaves_the_array = set_data-none_example.1 (refl, refl, omega arith)
