-- ===== src/Descrambler/Keys/Settings.antt =====
-- `SetDescr`, `SetDescrAes` and `SetData`: which key they change, and where `SetData` leaves the array.
use vdr_plugin_dvbapi.Prelude.{
  ℕ, ◌^◌, ◌*◌, ◌≤◌, ◌<◌, ◌≡◌, ◌↔◌, refl, ◌∙◌, Bool-cases, inl, inr, Bool, false, not, ◌||◌, Option,
  none, some, List, get_elem?, set, length, length-set, get_elem?-set, get_elem?_lt, get_elem?_ge,
  ◌≢◌, ltb, ◌==◌, ==_iff, if◌then◌else◌, arith,
}
use vdr_plugin_dvbapi.Descrambler.{max_csa_idx}
use vdr_plugin_dvbapi.Descrambler.Keys.{
  Crypto, DeCsaKey, Keys, change_key, set_descr, describe, set_data, set_iv, set_aes_iv,
  describe_aes, data_iv,
}

module _ (crypto : Crypto) where
  open crypto use {CsaKey, AesCtx}

  -- What becomes of the key `j` where the key at an index is changed.
  abbrev pub changed :
      (DeCsaKey crypto → DeCsaKey crypto) → Option (DeCsaKey crypto) → Option (DeCsaKey crypto)
  changed f none = none
  changed f (some k) = some (f k)

  at_index :
      (index j : ℕ) (f : DeCsaKey crypto → DeCsaKey crypto) (keys : Keys crypto)
      (k : DeCsaKey crypto)
      → get_elem? keys index ≡ some k
      → (if j == index then some (f k) else get_elem? keys j)
        ≡ (if j == index then changed f (get_elem? keys j) else get_elem? keys j)
  at_index index j f keys k e = elim (Bool-cases (j == index)) [
    | inl t ↦ let here : j ≡ index = (==_iff j index).0 t in rw t (rw here (rw e refl))
    | inr t ↦ rw t refl
  ]

  change_key-lt :
      (index : ℕ) (f : DeCsaKey crypto → DeCsaKey crypto) (keys : Keys crypto)
      → index < length keys
      → (keys' : Keys crypto) × (change_key crypto index f keys ≡ some keys')
        × (length keys' ≡ length keys)
        × ((j : ℕ)
            → get_elem? keys' j
              ≡ (if j == index then changed f (get_elem? keys j) else get_elem? keys j))
  unfolding change_key
  change_key-lt index f keys h =
      let (k, e) = get_elem?_lt keys index h in
      (
        set keys index (f k),
        rw (e, change_key) refl,
        length-set keys index (f k),
        λ j. get_elem?-set keys index j (f k) h ∙ at_index index j f keys k e,
      )

  -- SetDescr with a parity of 0 or 1 and an index below 32 changes only the key of that index: it gets
  -- the control word of the parity, for CSA and for DES, where its key struct is there or is created.
  get_elem?-set_descr :
      (fresh : Option CsaKey) (index parity : ℕ) (cw : List ℕ) (ecm : ℕ) (keys : Keys crypto)
      → length keys ≡ max_csa_idx
      → index < max_csa_idx
      → parity ≤ 1
      → (keys' : Keys crypto) × (set_descr crypto fresh index parity cw ecm keys ≡ some keys')
        × (length keys' ≡ max_csa_idx)
        × ((j : ℕ)
            → get_elem? keys' j ≡ (
                if j == index
                then changed (describe crypto fresh (parity == 1) cw ecm) (get_elem? keys j)
                else get_elem? keys j))
  unfolding set_descr
  get_elem?-set_descr fresh index parity cw ecm keys size h p =
      let accepted : (ltb 1 parity || not (ltb index max_csa_idx)) ≡ false = ground arith in
      let (keys', e, same_size, at) =
        change_key-lt index (describe crypto fresh (parity == 1) cw ecm) keys (omega arith) in
      (keys', rw accepted e, same_size ∙ size, at)

  -- What SetDescr does to a key that has its struct: the even control word and schedule change, and
  -- the odd ones stay, or the other way round.
  describe_lem :
      (fresh : Option CsaKey) (odd : Bool) (cw : List ℕ) (ecm : ℕ) (k : DeCsaKey crypto)
      (old : CsaKey)
      → k.key ≡ some old
      → describe crypto fresh odd cw ecm k ≡ record k {
        key = some (if odd then crypto.set_odd_cw cw ecm old else crypto.set_even_cw cw ecm old);
        des_keys =
            if odd
            then (k.des_keys.0, crypto.des_set_key cw)
            else (crypto.des_set_key cw, k.des_keys.1);
      }
  unfolding describe
  describe_lem fresh odd cw ecm k old e = ground arith

  change_key-inside :
      (index : ℕ) (f : DeCsaKey crypto → DeCsaKey crypto) (keys : Keys crypto)
      → index < length keys
      → change_key crypto index f keys ≢ none
  change_key-inside index f keys h e =
      let (keys', e', size, at) = change_key-lt index f keys h in absurd (cc (e', e))

  change_key-outside :
      (index : ℕ) (f : DeCsaKey crypto → DeCsaKey crypto) (keys : Keys crypto)
      → length keys ≤ index
      → change_key crypto index f keys ≡ none
  unfolding change_key
  change_key-outside index f keys h = rw (get_elem?_ge keys index h, change_key) refl

  set_iv-none :
      (index : ℕ) (iv : List ℕ) (keys : Keys crypto)
      → length keys ≡ max_csa_idx
      → (set_iv crypto index iv keys ≡ none) ↔ ((length iv ≡ 16) × (2 ^ 31 ≤ index))
  unfolding set_iv
  set_iv-none index iv keys size = ground (
    arith,
    change_key-inside index (set_aes_iv crypto iv) keys,
    change_key-outside index (set_aes_iv crypto iv) keys,
  )

  -- SetData leaves the array of the keys if and only if it sets an IV of 16 bytes for an index that is
  -- negative as an int: it lacks the check that the other setters have.
  pub set_data-none :
      (fresh : Option (AesCtx × AesCtx)) (index parity data_type : ℕ) (body : List ℕ)
      (keys : Keys crypto)
      → length keys ≡ max_csa_idx
      → (set_data crypto fresh index parity data_type body keys ≡ none)
        ↔ ((data_type ≡ data_iv) × (length body ≡ 16) × (2 ^ 31 ≤ index))
  unfolding set_data
  set_data-none fresh index parity data_type body keys size = ground (
    arith,
    set_iv-none index body keys,
    change_key-inside index (describe_aes crypto fresh (not (parity == 0)) body (8 * length body))
        keys,
  )
