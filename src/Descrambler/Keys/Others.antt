-- ===== src/Descrambler/Keys/Others.antt =====
-- Each setter of `DeCSA` changes the key of its index at most.
use vdr_plugin_dvbapi.Prelude.{
  ℕ, ◌*◌, ◌≡◌, ◌<◌, ◌≢◌, refl, sym, Bool, true, false, not, ◌&&◌, ◌||◌, Option, none, some, List,
  get_elem?, set, length, get_elem?-set, get_elem?_ge, ltb, ◌==◌, if◌then◌else◌, arith,
}
use vdr_plugin_dvbapi.Descrambler.{max_csa_idx}
use vdr_plugin_dvbapi.Descrambler.Keys.{
  Crypto, DeCsaKey, Keys, change_key, set_algo, set_aes, set_cipher_mode, set_descr, describe,
  set_descr_aes, describe_aes, set_data, set_iv, set_aes_iv, in_range, is_key_length, data_key,
  data_iv, get_algo, get_aes,
}

module _ (crypto : Crypto) where
  open crypto use {CsaKey, AesCtx}

  -- What a setter makes of the keys, if it does not leave the array.
  abbrev pub KeepsOthers : ℕ → Keys crypto → Option (Keys crypto) → Type 0
  KeepsOthers index keys r =
      (keys' : Keys crypto)
      → r ≡ some keys'
      → (j : ℕ) → j ≢ index
      → get_elem? keys' j ≡ get_elem? keys j

  same-KeepsOthers : (index : ℕ) (keys : Keys crypto) → KeepsOthers index keys (some keys)
  same-KeepsOthers index keys keys' e j other = ground arith

  changed_at :
      (index : ℕ) (f : DeCsaKey crypto → DeCsaKey crypto) (keys : Keys crypto)
      (r : Option (DeCsaKey crypto))
      → get_elem? keys index ≡ r
      → KeepsOthers index keys (change_key crypto index f keys)
  unfolding change_key
  changed_at index f keys none found keys' e j other = ground (arith, found)
  changed_at index f keys (some k) found keys' e j other =
      let inside : index < length keys = ground (arith, get_elem?_ge keys index) in
      let new : set keys index (f k) ≡ keys' = ground (arith, found) in
      let differs : (j == index) ≡ false = ground arith in
      rw (sym new, get_elem?-set keys index j (f k) inside, differs) refl

  change_key-KeepsOthers :
      (index : ℕ) (f : DeCsaKey crypto → DeCsaKey crypto) (keys : Keys crypto)
      → KeepsOthers index keys (change_key crypto index f keys)
  unfolding change_key
  change_key-KeepsOthers index f keys keys' e j other =
      changed_at index f keys (get_elem? keys index) refl keys' e j other

  if-KeepsOthers :
      (b : Bool) (index : ℕ) (keys : Keys crypto) {x y : Option (Keys crypto)}
      → KeepsOthers index keys x
      → KeepsOthers index keys y
      → KeepsOthers index keys (if b then x else y)
  if-KeepsOthers true index keys hx hy = hx
  if-KeepsOthers false index keys hx hy = hy

  in_range-KeepsOthers :
      (index : ℕ) (f : DeCsaKey crypto → DeCsaKey crypto) (keys : Keys crypto)
      → KeepsOthers index keys (in_range crypto index f keys)
  in_range-KeepsOthers index f keys =
      if-KeepsOthers (ltb index max_csa_idx) index keys (change_key-KeepsOthers index f keys)
        (same-KeepsOthers index keys)

  pub set_algo-KeepsOthers :
      (index algo : ℕ) (keys : Keys crypto)
      → KeepsOthers index keys (set_algo crypto index algo keys)
  unfolding set_algo
  set_algo-KeepsOthers index algo keys =
      in_range-KeepsOthers index (λ k. record k { algo = algo }) keys

  pub set_aes-KeepsOthers :
      (index : ℕ) (aes : Bool) (keys : Keys crypto)
      → KeepsOthers index keys (set_aes crypto index aes keys)
  unfolding set_aes
  set_aes-KeepsOthers index aes keys = in_range-KeepsOthers index (λ k. record k { aes = aes }) keys

  pub set_cipher_mode-KeepsOthers :
      (index mode : ℕ) (keys : Keys crypto)
      → KeepsOthers index keys (set_cipher_mode crypto index mode keys)
  unfolding set_cipher_mode
  set_cipher_mode-KeepsOthers index mode keys =
      in_range-KeepsOthers index (λ k. record k { cipher_mode = mode }) keys

  pub set_descr-KeepsOthers :
      (fresh : Option CsaKey) (index parity : ℕ) (cw : List ℕ) (ecm : ℕ) (keys : Keys crypto)
      → KeepsOthers index keys (set_descr crypto fresh index parity cw ecm keys)
  unfolding set_descr
  set_descr-KeepsOthers fresh index parity cw ecm keys =
      if-KeepsOthers (ltb 1 parity || not (ltb index max_csa_idx)) index keys
        (same-KeepsOthers index keys)
        (change_key-KeepsOthers index (describe crypto fresh (parity == 1) cw ecm) keys)

  pub set_descr_aes-KeepsOthers :
      (fresh : Option (AesCtx × AesCtx)) (index parity : ℕ) (cw : List ℕ) (keys : Keys crypto)
      → KeepsOthers index keys (set_descr_aes crypto fresh index parity cw keys)
  unfolding set_descr_aes
  set_descr_aes-KeepsOthers fresh index parity cw keys =
      in_range-KeepsOthers index (describe_aes crypto fresh (not (parity == 0)) cw 128) keys

  set_iv-KeepsOthers :
      (index : ℕ) (iv : List ℕ) (keys : Keys crypto)
      → KeepsOthers index keys (set_iv crypto index iv keys)
  unfolding set_iv
  set_iv-KeepsOthers index iv keys =
      if-KeepsOthers _ index keys (change_key-KeepsOthers index (set_aes_iv crypto iv) keys)
        (same-KeepsOthers index keys)

  pub set_data-KeepsOthers :
      (fresh : Option (AesCtx × AesCtx)) (index parity data_type : ℕ) (body : List ℕ)
      (keys : Keys crypto)
      → KeepsOthers index keys (set_data crypto fresh index parity data_type body keys)
  unfolding set_data
  set_data-KeepsOthers fresh index parity data_type body keys =
      if-KeepsOthers (data_type == data_iv) index keys (set_iv-KeepsOthers index body keys) (
        if-KeepsOthers (data_type == data_key && is_key_length crypto (length body)) index keys
          (in_range-KeepsOthers index
            (describe_aes crypto fresh (not (parity == 0)) body (8 * length body)) keys)
          (same-KeepsOthers index keys))

  pub get_algo-same :
      (index : ℕ) (keys keys' : Keys crypto)
      → get_elem? keys' index ≡ get_elem? keys index
      → get_algo crypto index keys' ≡ get_algo crypto index keys
  unfolding get_algo
  get_algo-same index keys keys' e = rw (get_algo, e) refl

  pub get_aes-same :
      (index : ℕ) (keys keys' : Keys crypto)
      → get_elem? keys' index ≡ get_elem? keys index
      → get_aes crypto index keys' ≡ get_aes crypto index keys
  unfolding get_aes
  get_aes-same index keys keys' e = rw (get_aes, e) refl
