-- ===== src/Descrambler/Keys.antt =====
-- DeCSA.cpp: `DeCsaKey`, the key of an index, and the methods of `DeCSA` that set it. What FFdecsa,
-- OpenSSL and cscrypt do is a parameter, and so is what an allocation returns, in each call.
pub mod Cbc
pub mod Settings
pub mod Others
pub mod Own
mod Tests
use vdr_plugin_dvbapi.Prelude.{
  ℕ, zero, suc, ◌+◌, ◌-◌, ◌*◌, ◌^◌, Bool, true, false, not, ◌&&◌, ◌||◌, Option, none, some, List,
  [], ◌∷◌, ltb, leb, ◌==◌, bit_xor, get_or, get_elem?, set, length, replicate, take, if◌then◌else◌,
}
use vdr_plugin_dvbapi.Descrambler.{max_csa_idx}

-- `set_even_control_word` and `set_odd_control_word` of FFdecsa with the ECM number, `aes_set_key` (an
-- `EVP_DecryptInit_ex` for a number of bits) and `EVP_DecryptUpdate` of OpenSSL, and `des_set_key` and
-- `des` of cscrypt.
pub record Crypto : Type 1 where
  pub CsaKey : Type 0
  pub AesCtx : Type 0
  pub DesKey : Type 0
  pub set_even_cw : List ℕ → ℕ → CsaKey → CsaKey
  pub set_odd_cw : List ℕ → ℕ → CsaKey → CsaKey
  pub aes_set_key : ℕ → List ℕ → AesCtx → AesCtx × Bool
  pub aes_update : AesCtx → List ℕ → Option (List ℕ)
  pub des_set_key : List ℕ → DesKey
  pub des_block : DesKey → List ℕ → List ℕ

abbrev pub algo_dvbcsa : ℕ
algo_dvbcsa = 0

abbrev pub algo_des : ℕ
algo_des = 1

abbrev pub algo_aes128 : ℕ
algo_aes128 = 2

abbrev pub mode_cbc : ℕ
mode_cbc = 1

-- `CA_DATA_IV` and `CA_DATA_KEY`.
abbrev pub data_iv : ℕ
data_iv = 0

abbrev pub data_key : ℕ
data_key = 1

-- `uint32_t` to `int`: whether it is negative.
abbrev pub is_negative : ℕ → Bool
is_negative index = leb (2 ^ 31) index

-- The loop of `AesDecrypt` that chains the blocks, from the byte `i` on: `input` is the copy of the
-- packet's bytes.
pub chain : List ℕ → List ℕ → ℕ → List ℕ → List ℕ
chain iv input i [] = []
chain iv input i (b ∷ out) =
    bit_xor b (if ltb i 16 then get_or iv i 0 else get_or input (i - 16) 0)
    ∷ chain iv input (suc i) out

module _ (crypto : Crypto) where
  open crypto use {
    CsaKey, AesCtx, DesKey, set_even_cw, set_odd_cw, aes_set_key, aes_update, des_set_key,
    des_block,
  }

  -- The fields of `DeCsaKey`. `aes_keys` and `des_keys` have the even one first.
  pub record DeCsaKey : Type 0 where
    pub aes : Bool
    pub algo : ℕ
    pub cipher_mode : ℕ
    pub aes_iv : List ℕ
    pub key : Option CsaKey
    pub aes_keys : Option (AesCtx × AesCtx)
    pub des_keys : DesKey × DesKey

  -- The constructor, over what the memory of `des_key_schedule` holds.
  pub new_key : DesKey × DesKey → DeCsaKey
  new_key schedule = record {
    aes = false;
    algo = algo_dvbcsa;
    cipher_mode = 0;
    aes_iv = replicate 16 0;
    key = none;
    aes_keys = none;
    des_keys = schedule;
  }

  -- `GetorCreateKeyStruct` and `GetorCreateAesKeyStruct`, where an allocation returns `fresh`.
  pub get_or_create_key : Option CsaKey → DeCsaKey → Bool × DeCsaKey
  get_or_create_key fresh k = elim k.key [
    | some old ↦ (true, k)
    | none ↦ elim fresh [ none ↦ (false, k) | some new ↦ (true, record k { key = some new }) ]
  ]

  pub get_or_create_aes_key : Option (AesCtx × AesCtx) → DeCsaKey → Bool × DeCsaKey
  get_or_create_aes_key fresh k = elim k.aes_keys [
    | some old ↦ (true, k)
    | none ↦ elim fresh [ none ↦ (false, k) | some new ↦ (true, record k { aes_keys = some new }) ]
  ]

  pub set_aes_key : Bool → List ℕ → ℕ → DeCsaKey → Bool × DeCsaKey
  set_aes_key odd cw bits k = elim k.aes_keys [
    | none ↦ (false, k)
    | some (even_ctx, odd_ctx) ↦
        let (ctx, ok) = aes_set_key bits cw (if odd then odd_ctx else even_ctx) in
        (ok, record k { aes_keys = some (if odd then (even_ctx, ctx) else (ctx, odd_ctx)) })
  ]

  pub set_aes_iv : List ℕ → DeCsaKey → DeCsaKey
  set_aes_iv iv k = record k { aes_iv = take 16 iv }

  pub set_control_word : Bool → List ℕ → ℕ → DeCsaKey → DeCsaKey
  set_control_word odd cw ecm k = elim k.key [
    | none ↦ k
    | some old ↦ record k {
      key = some (if odd then set_odd_cw cw ecm old else set_even_cw cw ecm old);
    }
  ]

  pub des_set : Bool → List ℕ → DeCsaKey → DeCsaKey
  des_set odd cw k =
      let schedule = des_set_key cw in
      record k { des_keys = if odd then (k.des_keys.0, schedule) else (schedule, k.des_keys.1) }

  -- `AesDecrypt`; none where it returns false. The inputs are those of `Decrypt`, the payloads of
  -- packets, which the array `in[TS_SIZE]` has room for.
  pub aes_decrypt : Bool → List ℕ → DeCsaKey → Option (List ℕ)
  unfolding chain
  aes_decrypt odd input k =
      let cbc = k.algo == algo_aes128 && k.cipher_mode == mode_cbc in
      elim k.aes_keys as (λ _. Option (List ℕ)) [
        | none ↦ none
        | some (even_ctx, odd_ctx) ↦
            elim (aes_update (if odd then odd_ctx else even_ctx) input) as (λ _. Option (List ℕ)) [
              | none ↦ none
              | some out ↦ some (if cbc then chain k.aes_iv input 0 out else out)
            ]
      ]

  -- `Des`.
  pub des : Bool → List ℕ → DeCsaKey → List ℕ
  des odd block k = des_block (if odd then k.des_keys.1 else k.des_keys.0) block

  -- The array of keys, and a change of the one at an index; none for an access outside of it.
  abbrev pub Keys : Type 0
  Keys = List DeCsaKey

  pub change_key : ℕ → (DeCsaKey → DeCsaKey) → Keys → Option Keys
  change_key index f keys = elim (get_elem? keys index) as (λ _. Option Keys) [
    | none ↦ none
    | some k ↦ some (set keys index (f k))
  ]

  -- `DeCSA::SetAlgo`, `SetAes` and `SetCipherMode`.
  abbrev pub in_range : ℕ → (DeCsaKey → DeCsaKey) → Keys → Option Keys
  in_range index f keys = if ltb index max_csa_idx then change_key index f keys else some keys

  pub set_algo : ℕ → ℕ → Keys → Option Keys
  unfolding change_key
  set_algo index algo = in_range index (λ k. record k { algo = algo })

  pub set_aes : ℕ → Bool → Keys → Option Keys
  unfolding change_key
  set_aes index aes = in_range index (λ k. record k { aes = aes })

  pub set_cipher_mode : ℕ → ℕ → Keys → Option Keys
  unfolding change_key
  set_cipher_mode index mode = in_range index (λ k. record k { cipher_mode = mode })

  -- `SetDescr`, where `GetECM` returns `ecm`. An index that is negative as an `int` has no key struct.
  pub describe : Option CsaKey → Bool → List ℕ → ℕ → DeCsaKey → DeCsaKey
  unfolding get_or_create_key des_set set_control_word
  describe fresh odd cw ecm k =
      let (ok, k') = get_or_create_key fresh k in
      if ok then set_control_word odd cw ecm (des_set odd cw k') else k'

  pub set_descr : Option CsaKey → ℕ → ℕ → List ℕ → ℕ → Keys → Option Keys
  unfolding describe change_key
  set_descr fresh index parity cw ecm keys =
      if ltb 1 parity || not (ltb index max_csa_idx)
      then some keys
      else change_key index (describe fresh (parity == 1) cw ecm) keys

  -- `SetDescrAes`, and the key branch of `SetData`.
  pub describe_aes : Option (AesCtx × AesCtx) → Bool → List ℕ → ℕ → DeCsaKey → DeCsaKey
  unfolding get_or_create_aes_key set_aes_key
  describe_aes fresh odd cw bits k =
      let (ok, k') = get_or_create_aes_key fresh k in
      if ok then (set_aes_key odd cw bits k').1 else k'

  pub set_descr_aes : Option (AesCtx × AesCtx) → ℕ → ℕ → List ℕ → Keys → Option Keys
  unfolding describe_aes change_key
  set_descr_aes fresh index parity cw =
      in_range index (describe_aes fresh (not (parity == 0)) cw 128)

  -- `SetData`: the IV branch compares the index as an `int` with 32 only, so that a negative one is an
  -- access outside of the array.
  pub set_iv : ℕ → List ℕ → Keys → Option Keys
  unfolding set_aes_iv change_key
  set_iv index iv keys =
      if (is_negative index || ltb index max_csa_idx) && length iv == 16
      then change_key index (set_aes_iv iv) keys
      else some keys

  abbrev pub is_key_length : ℕ → Bool
  is_key_length n = n == 16 || (n == 24 || n == 32)

  pub set_data : Option (AesCtx × AesCtx) → ℕ → ℕ → ℕ → List ℕ → Keys → Option Keys
  unfolding set_iv describe_aes change_key
  set_data fresh index parity data_type body keys =
      if data_type == data_iv
      then set_iv index body keys
      else if data_type == data_key && is_key_length (length body)
      then in_range index (describe_aes fresh (not (parity == 0)) body (8 * length body)) keys
      else some keys

  -- `GetAlgo` and `GetAes` for an index that is not negative; -1 as a `uint32_t` outside of the array,
  -- which is true as a `bool`.
  pub get_algo : ℕ → Keys → ℕ
  get_algo index keys = elim (get_elem? keys index) as (λ _. ℕ) [
    | none ↦ 2 ^ 32 - 1
    | some k ↦ k.algo
  ]

  pub get_aes : ℕ → Keys → Bool
  get_aes index keys = elim (get_elem? keys index) as (λ _. Bool) [ none ↦ true | some k ↦ k.aes ]
