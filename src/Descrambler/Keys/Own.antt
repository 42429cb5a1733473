-- ===== src/Descrambler/Keys/Own.antt =====
-- What each setter makes of the key of its index.
use vdr_plugin_dvbapi.Prelude.{
  ℕ, ◌≡◌, ◌<◌, ◌≤◌, refl, ◌∙◌, Bool, true, false, not, ◌||◌, Option, none, some, List, get_elem?,
  set, length, length-set, get_elem?-set, ltb, ◌==◌, ==_refl, if◌then◌else◌, arith,
}
use vdr_plugin_dvbapi.Descrambler.{max_csa_idx}
use vdr_plugin_dvbapi.Descrambler.Keys.{
  Crypto, DeCsaKey, Keys, change_key, set_algo, set_aes, set_cipher_mode, set_descr, describe,
  get_algo, get_aes, get_or_create_key, set_control_word, des_set,
}

module _ (crypto : Crypto) where
  open crypto use {CsaKey}

  -- The setter stays in the array, and the key at the index becomes `k`.
  abbrev pub Sets : ℕ → DeCsaKey crypto → Option (Keys crypto) → Type 0
  Sets index k r =
      (keys' : Keys crypto) × (r ≡ some keys')
      × (length keys' ≡ max_csa_idx)
      × (get_elem? keys' index ≡ some k)

  change_key-Sets :
      (index : ℕ) (f : DeCsaKey crypto → DeCsaKey crypto) (keys : Keys crypto) (k : DeCsaKey crypto)
      → length keys ≡ max_csa_idx
      → index < max_csa_idx
      → get_elem? keys index ≡ some k
      → Sets index (f k) (change_key crypto index f keys)
  unfolding change_key
  change_key-Sets index f keys k size small found = (
    set keys index (f k),
    rw (change_key, found) refl,
    length-set keys index (f k) ∙ size,
    get_elem?-set keys index index (f k) (omega arith) ∙ rw (==_refl index) refl,
  )

  module _ (index : ℕ) (keys : Keys crypto) (k : DeCsaKey crypto) (size : length keys ≡ max_csa_idx)
      (small : index < max_csa_idx) (found : get_elem? keys index ≡ some k) where
    in_array : ltb index max_csa_idx ≡ true
    in_array = ground arith

    pub set_algo-Sets :
        (algo : ℕ) → Sets index (record k { algo = algo }) (set_algo crypto index algo keys)
    unfolding set_algo
    set_algo-Sets algo =
        rw in_array (change_key-Sets index (λ k. record k { algo = algo }) keys k size small found)

    pub set_aes-Sets :
        (aes : Bool) → Sets index (record k { aes = aes }) (set_aes crypto index aes keys)
    unfolding set_aes
    set_aes-Sets aes =
        rw in_array (change_key-Sets index (λ k. record k { aes = aes }) keys k size small found)

    pub set_cipher_mode-Sets :
        (mode : ℕ)
        → Sets index (record k { cipher_mode = mode }) (set_cipher_mode crypto index mode keys)
    unfolding set_cipher_mode
    set_cipher_mode-Sets mode =
        rw in_array
          (change_key-Sets index (λ k. record k { cipher_mode = mode }) keys k size small found)

    pub set_descr-Sets :
        (fresh : Option CsaKey) (parity : ℕ) (cw : List ℕ) (ecm : ℕ)
        → parity ≤ 1
        → Sets index
            (describe crypto fresh (parity == 1) cw ecm k)
            (set_descr crypto fresh index parity cw ecm keys)
    unfolding set_descr
    set_descr-Sets fresh parity cw ecm p =
        let accepted : (ltb 1 parity || not (ltb index max_csa_idx)) ≡ false = ground arith in
        rw accepted (
          change_key-Sets index (describe crypto fresh (parity == 1) cw ecm) keys k size small
            found)

    pub get_algo_found : get_algo crypto index keys ≡ k.algo
    unfolding get_algo
    get_algo_found = rw (get_algo, found) refl

    pub get_aes_found : get_aes crypto index keys ≡ k.aes
    unfolding get_aes
    get_aes_found = rw (get_aes, found) refl

  -- The key struct that a key has after `GetorCreateKeyStruct`.
  abbrev pub struct_of : CsaKey → Option CsaKey → CsaKey
  struct_of fresh none = fresh
  struct_of fresh (some old) = old

  -- The control word of a parity in the struct of FFdecsa.
  abbrev pub with_word : Bool → List ℕ → ℕ → CsaKey → CsaKey
  with_word odd cw ecm key =
      if odd then crypto.set_odd_cw cw ecm key else crypto.set_even_cw cw ecm key

  pub describe-key :
      (fresh : CsaKey) (odd : Bool) (cw : List ℕ) (ecm : ℕ) (k : DeCsaKey crypto)
      → (describe crypto (some fresh) odd cw ecm k).key
        ≡ some (with_word odd cw ecm (struct_of fresh k.key))
  unfolding describe get_or_create_key set_control_word des_set
  describe-key fresh odd cw ecm k = ground arith

  pub describe_kept :
      (fresh : Option CsaKey) (odd : Bool) (cw : List ℕ) (ecm : ℕ) (k : DeCsaKey crypto)
      → ((describe crypto fresh odd cw ecm k).algo ≡ k.algo)
        × ((describe crypto fresh odd cw ecm k).aes ≡ k.aes)
  unfolding describe get_or_create_key set_control_word des_set
  describe_kept fresh odd cw ecm k = ground arith
