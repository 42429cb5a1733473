-- ===== src/Descrambler/Keys/Cbc.antt =====
-- `AesDecrypt` in CBC mode, against the encryption in CBC mode.
use vdr_plugin_dvbapi.Prelude.{
  ℕ, zero, suc, ◌+◌, ◌-◌, ◌≤◌, ◌<◌, ◌≡◌, refl, sym, ap, ap₂, ◌∙◌, Bool, some, List, [], ◌∷◌, ◌++◌,
  map, concat, All, bit_xor, bit_xor_twice, get_or, length, length-append, drop, ltb, if◌then◌else◌,
  arith,
}
use vdr_plugin_dvbapi.Descrambler.Keys.{Crypto, DeCsaKey, chain, aes_decrypt, algo_aes128, mode_cbc}

-- The exclusive or of two byte strings, as long as the first.
pub xor_bytes : List ℕ → List ℕ → List ℕ
xor_bytes [] ys = []
xor_bytes (x ∷ xs) [] = x ∷ xs
xor_bytes (x ∷ xs) (y ∷ ys) = bit_xor x y ∷ xor_bytes xs ys

-- The encryption of blocks in CBC mode, for the encryption of one block.
pub cbc_encrypt : (List ℕ → List ℕ) → List ℕ → List (List ℕ) → List (List ℕ)
unfolding xor_bytes
cbc_encrypt enc prev [] = []
cbc_encrypt enc prev (p ∷ ps) = let c = enc (xor_bytes p prev) in c ∷ cbc_encrypt enc c ps

length-xor_bytes : (xs ys : List ℕ) → length (xor_bytes xs ys) ≡ length xs
unfolding xor_bytes
length-xor_bytes [] ys = refl
length-xor_bytes (x ∷ xs) [] = refl
length-xor_bytes (x ∷ xs) (y ∷ ys) = ap suc (length-xor_bytes xs ys)

xor_bytes_twice : (xs ys : List ℕ) → xor_bytes (xor_bytes xs ys) ys ≡ xs
unfolding xor_bytes
xor_bytes_twice [] ys = refl
xor_bytes_twice (x ∷ xs) [] = refl
xor_bytes_twice (x ∷ xs) (y ∷ ys) =
    ap₂ (λ (z : ℕ) (zs : List ℕ). z ∷ zs) (bit_xor_twice x y) (xor_bytes_twice xs ys)

xor_bytes-append :
    (xs ys xs' ys' : List ℕ)
    → length xs ≡ length ys
    → xor_bytes (xs ++ xs') (ys ++ ys') ≡ xor_bytes xs ys ++ xor_bytes xs' ys'
unfolding xor_bytes
xor_bytes-append [] [] xs' ys' h = refl
xor_bytes-append [] (y ∷ ys) xs' ys' h = absurd (omega arith)
xor_bytes-append (x ∷ xs) [] xs' ys' h = absurd (omega arith)
xor_bytes-append (x ∷ xs) (y ∷ ys) xs' ys' h =
    ap (λ l. bit_xor x y ∷ l) (xor_bytes-append xs ys xs' ys' (omega arith))

drop_next : (i : ℕ) (l : List ℕ) → i < length l → drop i l ≡ get_or l i 0 ∷ drop (suc i) l
drop_next i [] h = absurd (omega arith)
drop_next zero (x ∷ l) h = refl
drop_next (suc i) (x ∷ l) h = drop_next i l (omega arith)

get_or-append :
    (xs ys : List ℕ) (i : ℕ)
    → get_or (xs ++ ys) i 0
      ≡ (if ltb i (length xs) then get_or xs i 0 else get_or ys (i - length xs) 0)
get_or-append [] ys i = ground arith
get_or-append (x ∷ xs) ys zero = ground arith
get_or-append (x ∷ xs) ys (suc i) = ground (arith, get_or-append xs ys i)

-- The loop over the bytes is the exclusive or with the IV and the input behind it.
chain-xor_bytes :
    (iv input : List ℕ) (i : ℕ) (out : List ℕ)
    → length iv ≡ 16
    → i + length out ≤ 16 + length input
    → chain iv input i out ≡ xor_bytes out (drop i (iv ++ input))
unfolding chain xor_bytes
chain-xor_bytes iv input i [] h k = refl
chain-xor_bytes iv input i (b ∷ out) h k =
    let inside : i < length (iv ++ input) = omega (arith, length-append iv input) in
    let here : get_or (iv ++ input) i 0
        ≡ (if ltb i 16 then get_or iv i 0 else get_or input (i - 16) 0) =
      rw (← h) (get_or-append iv input i) in
    rw (drop_next i (iv ++ input) inside, here)
      (ap (λ l. bit_xor b (if ltb i 16 then get_or iv i 0 else get_or input (i - 16) 0) ∷ l)
        (chain-xor_bytes iv input (suc i) out h (omega arith)))

module _ (enc dec : List ℕ → List ℕ)
    (enc_length : (b : List ℕ) → length b ≡ 16 → length (enc b) ≡ 16)
    (dec-enc : (b : List ℕ) → length b ≡ 16 → dec (enc b) ≡ b) where
  unchain :
      (prev : List ℕ) (ps : List (List ℕ))
      → length prev ≡ 16
      → All (λ b. length b ≡ 16) ps
      → xor_bytes
          (concat (map dec (cbc_encrypt enc prev ps)))
          (prev ++ concat (cbc_encrypt enc prev ps))
        ≡ concat ps
  unfolding cbc_encrypt
  unchain prev [] h a = refl
  unchain prev (p ∷ ps) h (hp, a) =
      let mixed = xor_bytes p prev in
      let c = enc mixed in
      let size : length mixed ≡ 16 = length-xor_bytes p prev ∙ hp in
      rw
        (
          dec-enc mixed size,
          xor_bytes-append mixed prev (concat (map dec (cbc_encrypt enc c ps)))
              (c ++ concat (cbc_encrypt enc c ps)) (size ∙ sym h),
          xor_bytes_twice p prev,
        )
        (ap (λ l. p ++ l) (unchain c ps (enc_length mixed size) a))

  cbc_encrypt_blocks :
      (prev : List ℕ) (ps : List (List ℕ))
      → All (λ b. length b ≡ 16) ps
      → All (λ b. length b ≡ 16) (cbc_encrypt enc prev ps)
  unfolding cbc_encrypt
  cbc_encrypt_blocks prev [] a = tt
  cbc_encrypt_blocks prev (p ∷ ps) (hp, a) = (
    enc_length (xor_bytes p prev) (length-xor_bytes p prev ∙ hp),
    cbc_encrypt_blocks (enc (xor_bytes p prev)) ps a,
  )

  decrypted_length :
      (prev : List ℕ) (ps : List (List ℕ))
      → All (λ b. length b ≡ 16) ps
      → length (concat (map dec (cbc_encrypt enc prev ps)))
        ≡ length (concat (cbc_encrypt enc prev ps))
  unfolding cbc_encrypt
  decrypted_length prev [] a = refl
  decrypted_length prev (p ∷ ps) (hp, a) =
      let mixed = xor_bytes p prev in
      let c = enc mixed in
      let size : length mixed ≡ 16 = length-xor_bytes p prev ∙ hp in
      let back : length (dec c) ≡ 16 = ap length (dec-enc mixed size) ∙ size in
      omega (
        arith,
        back,
        enc_length mixed size,
        length-append (dec c) (concat (map dec (cbc_encrypt enc c ps))),
        length-append c (concat (cbc_encrypt enc c ps)),
        decrypted_length c ps a,
      )

  module _ (crypto : Crypto) (k : DeCsaKey crypto) where
    open crypto use {AesCtx, aes_update}

    in_cbc_mode :
        (odd : Bool) (even_ctx odd_ctx : AesCtx) (input out : List ℕ)
        → k.aes_keys ≡ some (even_ctx, odd_ctx)
        → k.algo ≡ algo_aes128
        → k.cipher_mode ≡ mode_cbc
        → aes_update (if odd then odd_ctx else even_ctx) input ≡ some out
        → aes_decrypt crypto odd input k ≡ some (chain k.aes_iv input 0 out)
    unfolding aes_decrypt
    in_cbc_mode odd even_ctx odd_ctx input out keys algo mode got = ground arith

    -- AesDecrypt in CBC mode gives back any blocks that were encrypted in CBC mode from the IV of the
    -- key, if the cipher context of the parity decrypts each block of 16 bytes on its own (ECB), by
    -- the inverse of the encryption.
    pub aes_decrypt-cbc_encrypt :
        (odd : Bool) (even_ctx odd_ctx : AesCtx) (ps : List (List ℕ))
        → k.aes_keys ≡ some (even_ctx, odd_ctx)
        → k.algo ≡ algo_aes128
        → k.cipher_mode ≡ mode_cbc
        → length k.aes_iv ≡ 16
        → All (λ b. length b ≡ 16) ps
        → ((cs : List (List ℕ))
            → All (λ b. length b ≡ 16) cs
            → aes_update (if odd then odd_ctx else even_ctx) (concat cs)
              ≡ some (concat (map dec cs)))
        → aes_decrypt crypto odd (concat (cbc_encrypt enc k.aes_iv ps)) k ≡ some (concat ps)
    aes_decrypt-cbc_encrypt odd even_ctx odd_ctx ps keys algo mode iv blocks ecb =
        let cs = cbc_encrypt enc k.aes_iv ps in
        let out = concat (map dec cs) in
        in_cbc_mode odd even_ctx odd_ctx (concat cs) out keys algo mode
          (ecb cs (cbc_encrypt_blocks k.aes_iv ps blocks))
        ∙ ap some (
            chain-xor_bytes k.aes_iv (concat cs) 0 out iv
              (omega (arith, decrypted_length k.aes_iv ps blocks))
            ∙ unchain k.aes_iv ps iv blocks)
