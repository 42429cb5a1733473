-- ===== src/Descrambler/Decsa.antt =====
-- `DeCSA` as the socket thread and Decrypt share it: the pid maps of the adapters and the keys. The calls
-- that SocketHandler::HandleMessage makes change it, and the loop of Decrypt looks up in it.
pub mod Isolation
pub mod Delivery
mod Tests
use vdr_plugin_dvbapi.Prelude.{
  ℕ, Bool, true, false, Option, none, some, List, [], ◌∷◌, leb, ltb, get_elem?, if◌then◌else◌,
}
use vdr_plugin_dvbapi.Filter.{PidMap}
use vdr_plugin_dvbapi.Filter.Control.{get_ecm}
use vdr_plugin_dvbapi.Socket.Messages.{Call}
use vdr_plugin_dvbapi.Descrambler.{AdapterPidMap, set_ca_pid, search_pid, max_adapter}
use vdr_plugin_dvbapi.Descrambler.Keys.{
  Crypto, DeCsaKey, Keys, is_negative, set_algo, set_aes, set_cipher_mode, set_descr, set_descr_aes,
  set_data, get_algo, get_aes, des, aes_decrypt,
}
use vdr_plugin_dvbapi.Descrambler.Batch.{Batch, new_batch, packets}

-- An `int` of 32 bits; `none` where it is negative.
abbrev pub signed : ℕ → Option ℕ
signed n = if is_negative n then none else some n

module _ (crypto : Crypto) where
  open crypto use {CsaKey, AesCtx}

  -- `DeCSAArray` and `DeCSAKeyArray`.
  pub record Decsa : Type 0 where
    pub maps : ℕ → AdapterPidMap
    pub keys : Keys crypto

  -- What the allocations in a call return, and the table of filters that GetECM reads.
  pub record Context : Type 0 where
    pub fresh_key : Option CsaKey
    pub fresh_aes_key : Option (AesCtx × AesCtx)
    pub filters : PidMap

  abbrev pub on_keys : Decsa → Option (Keys crypto) → Option Decsa
  on_keys s none = none
  on_keys s (some keys) = some (record s { keys = keys })

  -- A call of HandleMessage; the other calls are not those of `DeCSA`.
  pub perform_call : Context → Call → Decsa → Option Decsa
  perform_call env (Call.set_ca_pid adapter pid index) s =
      some (record s { maps = set_ca_pid adapter pid (signed index) s.maps })
  perform_call env (Call.set_aes index aes) s = on_keys s (set_aes crypto index aes s.keys)
  perform_call env (Call.set_descr adapter index parity cw) s = on_keys s (
      set_descr crypto env.fresh_key index parity cw (get_ecm adapter index parity env.filters)
        s.keys)
  perform_call env (Call.set_descr_aes index parity cw) s =
      on_keys s (set_descr_aes crypto env.fresh_aes_key index parity cw s.keys)
  perform_call env (Call.set_algo index algo) s = on_keys s (set_algo crypto index algo s.keys)
  perform_call env (Call.set_cipher_mode index mode) s =
      on_keys s (set_cipher_mode crypto index mode s.keys)
  perform_call env (Call.set_data index parity data_type body) s =
      on_keys s (set_data crypto env.fresh_aes_key index parity data_type body s.keys)
  perform_call env _ s = some s

  pub perform_calls : List (Context × Call) → Decsa → Option Decsa
  unfolding perform_call
  perform_calls [] s = some s
  perform_calls ((env, c) ∷ cs) s = elim (perform_call env c s) as (λ _. Option Decsa) [
    | none ↦ none
    | some s' ↦ perform_calls cs s'
  ]

  -- `Des` and `AesDecrypt` of the key of an index, as Decrypt calls them.
  abbrev pub des_with : Option (DeCsaKey crypto) → Bool → List ℕ → List ℕ
  des_with none odd block = block
  des_with (some k) odd block = des crypto odd block k

  abbrev pub des_at : Keys crypto → ℕ → Bool → List ℕ → List ℕ
  des_at keys index = des_with (get_elem? keys index)

  abbrev pub aes_with : Option (DeCsaKey crypto) → Bool → List ℕ → Option (List ℕ)
  aes_with none odd input = none
  aes_with (some k) odd input = aes_decrypt crypto odd input k

  abbrev pub aes_decrypt_at : Keys crypto → ℕ → Bool → List ℕ → Option (List ℕ)
  aes_decrypt_at keys index = aes_with (get_elem? keys index)

  -- The loop of `DeCSA::Decrypt` for an adapter; none where it returns false.
  pub decrypt_loop : ℕ → ℕ → List (List ℕ) → Decsa → Option (Batch × List (List ℕ))
  decrypt_loop csnew adapter ts s =
      let loop =
        packets csnew (λ pid. search_pid pid (s.maps adapter))
          (λ index. get_algo crypto index s.keys) (λ index. get_aes crypto index s.keys)
          (des_at s.keys) (aes_decrypt_at s.keys) 0 ts new_batch in
      if ltb adapter max_adapter then loop else none
