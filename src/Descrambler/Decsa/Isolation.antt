-- ===== src/Descrambler/Decsa/Isolation.antt =====
-- Which calls of HandleMessage the descrambling of an adapter does not depend on.
use vdr_plugin_dvbapi.Prelude.{ℕ, ◌≡◌, ◌≢◌, Option, none, some, List, [], ◌∷◌, get_elem?}
use vdr_plugin_dvbapi.Socket.Messages.{Call}
use vdr_plugin_dvbapi.Descrambler.{AdapterPidMap, search_pid, set_ca_pid}
use vdr_plugin_dvbapi.Descrambler.Keys.{Crypto, DeCsaKey, Keys, get_algo, get_aes}
use vdr_plugin_dvbapi.Descrambler.Batch.{Batch, packets, new_batch}
use vdr_plugin_dvbapi.Descrambler.Decsa.{Decsa, Context, des_at, aes_decrypt_at}

-- The adapter whose pid map a call is to change, and the index of the key.
unfoldable pub call_adapter : Call → Option ℕ
call_adapter (Call.set_ca_pid adapter pid index) = some adapter
call_adapter _ = none

unfoldable pub call_index : Call → Option ℕ
call_index (Call.set_aes index aes) = some index
call_index (Call.set_descr adapter index parity cw) = some index
call_index (Call.set_descr_aes index parity cw) = some index
call_index (Call.set_algo index algo) = some index
call_index (Call.set_cipher_mode index mode) = some index
call_index (Call.set_data index parity data_type body) = some index
call_index _ = none

-- A call is neither about the pids of the adapter nor about a key that these have.
pub record Spares (adapter : ℕ) (m : AdapterPidMap) (c : Call) : Type 0 where
  pub other_adapter : call_adapter c ≢ some adapter
  pub other_key : (pid k : ℕ) → search_pid pid m ≡ some k → call_index c ≢ some k

module _ (crypto : Crypto) (adapter : ℕ) where
  unfoldable pub AllSpare : AdapterPidMap → List (Context crypto × Call) → Type 0
  AllSpare m [] = Unit
  AllSpare m ((env, c) ∷ cs) = Spares adapter m c × AllSpare m cs

  -- The pid map of the adapter and the keys in it are as they were.
  record Kept (s s' : Decsa crypto) : Type 0 where
    same_map : s'.maps adapter ≡ s.maps adapter
    same_keys :
        (pid k : ℕ)
        → search_pid pid (s.maps adapter) ≡ some k
        → get_elem? s'.keys k ≡ get_elem? s.keys k

  -- The loop over a pid map and the keys.
  abbrev loop : ℕ → List (List ℕ) → AdapterPidMap → Keys crypto → Option (Batch × List (List ℕ))
  loop csnew ts m keys =
      packets csnew (λ pid. search_pid pid m) (λ index. get_algo crypto index keys)
        (λ index. get_aes crypto index keys) (des_at crypto keys) (aes_decrypt_at crypto keys) 0 ts
        new_batch

  -- The whole key that a pid of the adapter has, the key struct of FFdecsa with it.
  abbrev key_at : Option ℕ → Keys crypto → Option (DeCsaKey crypto)
  key_at none keys = none
  key_at (some k) keys = get_elem? keys k

  abbrev pub pid_key : ℕ → Decsa crypto → Option (DeCsaKey crypto)
  pid_key pid s = key_at (search_pid pid (s.maps adapter)) s.keys
