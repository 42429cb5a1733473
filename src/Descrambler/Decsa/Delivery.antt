-- ===== src/Descrambler/Decsa/Delivery.antt =====
-- From the calls that give a service its key to the packets that Decrypt collects for it.
use vdr_plugin_dvbapi.Prelude.{
  ℕ, ◌≡◌, ◌<◌, ◌≤◌, refl, ap, ◌∙◌, true, false, some, List, [], ◌∷◌, ◌==◌, ==_refl, ltb, min,
  length, get_elem?, arith, nat_ord,
}
use vdr_plugin_dvbapi.Descrambler
use vdr_plugin_dvbapi.Filter.Control.{get_ecm}
use vdr_plugin_dvbapi.Socket.Messages.{Call}
use vdr_plugin_dvbapi.Descrambler.{
  AdapterPidMap, search_pid, max_adapter, max_csa_pid, max_csa_idx, is_index,
}
use vdr_plugin_dvbapi.Descrambler.Pids.{search_pid-set_ca_pid}
use vdr_plugin_dvbapi.Descrambler.Keys.{
  Crypto, DeCsaKey, Keys, algo_dvbcsa, describe, get_algo, get_aes,
}
use vdr_plugin_dvbapi.Descrambler.Keys.Own.{
  set_algo-Sets, set_cipher_mode-Sets, set_aes-Sets, set_descr-Sets, get_algo_found, get_aes_found,
  describe-key, describe_kept, struct_of, with_word,
}
use vdr_plugin_dvbapi.Descrambler.Batch.Service.{Fits, AllFit, packets-AllFit, gathered}
use vdr_plugin_dvbapi.Descrambler.Decsa.{
  Decsa, Context, signed, on_keys, perform_call, perform_calls, decrypt_loop, des_at,
  aes_decrypt_at,
}

perform_calls_step :
    (crypto : Crypto) (env : Context crypto) (c : Call) (cs : List (Context crypto × Call))
    (s s' : Decsa crypto)
    → perform_call crypto env c s ≡ some s'
    → perform_calls crypto ((env, c) ∷ cs) s ≡ perform_calls crypto cs s'
unfolding perform_calls
perform_calls_step crypto env c cs s s' e = rw (perform_calls, e) refl

module _ (crypto : Crypto) (env : Context crypto) (adapter pid index mode parity : ℕ)
    (cw : List ℕ) where
  abbrev descr_calls : List (Context crypto × Call)
  descr_calls = (env, Call.set_descr adapter index parity cw) ∷ []

  abbrev aes_calls : List (Context crypto × Call)
  aes_calls = (env, Call.set_aes index false) ∷ descr_calls

  abbrev mode_calls : List (Context crypto × Call)
  mode_calls = (env, Call.set_cipher_mode index mode) ∷ aes_calls

  abbrev algo_calls : List (Context crypto × Call)
  algo_calls = (env, Call.set_algo index algo_dvbcsa) ∷ mode_calls

  -- The calls for CA_SET_PID, CA_SET_DESCR_MODE with CSA, and CA_SET_DESCR.
  abbrev pub service_calls : List (Context crypto × Call)
  service_calls = (env, Call.set_ca_pid adapter pid index) ∷ algo_calls

  -- The key after them.
  abbrev pub service_key : DeCsaKey crypto → DeCsaKey crypto
  service_key k =
      describe crypto env.fresh_key (parity == 1) cw (get_ecm adapter index parity env.filters)
        (record k { algo = algo_dvbcsa; cipher_mode = mode; aes = false })

  calls_run :
      (s : Decsa crypto) (k : DeCsaKey crypto)
      → length s.keys ≡ max_csa_idx
      → index < max_csa_idx
      → parity ≤ 1
      → get_elem? s.keys index ≡ some k
      → (keys' : Keys crypto) × (perform_calls crypto service_calls s
          ≡ some (record {
            maps = Descrambler.set_ca_pid adapter pid (signed index) s.maps;
            keys = keys';
          }))
        × (length keys' ≡ max_csa_idx)
        × (get_elem? keys' index ≡ some (service_key k))
  unfolding perform_calls perform_call
  calls_run s k size small p found =
      let (k1, e1, z1, f1) = set_algo-Sets crypto index s.keys k size small found algo_dvbcsa in
      let (k2, e2, z2, f2) = set_cipher_mode-Sets crypto index k1 _ z1 small f1 mode in
      let (k3, e3, z3, f3) = set_aes-Sets crypto index k2 _ z2 small f2 false in
      let (k4, e4, z4, f4) =
        set_descr-Sets crypto index k3 _ z3 small f3 env.fresh_key parity cw
          (get_ecm adapter index parity env.filters) p in
      let s1 = record s { maps = Descrambler.set_ca_pid adapter pid (signed index) s.maps } in
      (
        k4,
        perform_calls_step crypto env (Call.set_ca_pid adapter pid index) algo_calls s s1 refl
            ∙ perform_calls_step crypto env (Call.set_algo index algo_dvbcsa) mode_calls s1
                (record s1 { keys = k1 }) (ap (on_keys crypto s1) e1)
            ∙ perform_calls_step crypto env (Call.set_cipher_mode index mode) aes_calls
                (record s1 { keys = k1 }) (record s1 { keys = k2 }) (ap (on_keys crypto s1) e2)
            ∙ perform_calls_step crypto env (Call.set_aes index false) descr_calls
                (record s1 { keys = k2 }) (record s1 { keys = k3 }) (ap (on_keys crypto s1) e3)
            ∙ perform_calls_step crypto env (Call.set_descr adapter index parity cw) []
                (record s1 { keys = k3 }) (record s1 { keys = k4 }) (ap (on_keys crypto s1) e4),
        z4,
        f4,
      )

  mapped_pid :
      (maps : ℕ → AdapterPidMap)
      → index < max_csa_idx
      → adapter < max_adapter
      → pid < max_csa_pid
      → search_pid pid (Descrambler.set_ca_pid adapter pid (signed index) maps adapter) ≡ some index
  mapped_pid maps small on_adapter in_pids =
      let positive : signed index ≡ some index = ground arith in
      let valid : is_index (some index) ≡ true = ground arith in
      rw positive (
        search_pid-set_ca_pid adapter pid adapter pid (some index) maps on_adapter in_pids valid
        ∙ rw (==_refl adapter) (ground arith))

  -- Where OSCam gives a pid of an adapter a key index, sets CSA for the index, and sends a control word
  -- of a parity for it, and the key struct is there or is allocated: then for a buffer of valid
  -- scrambled packets of the pid and the parity, the loop of Decrypt collects the packets, up to the size
  -- of a cluster, in one range for this index and this parity, and the key struct of the index has the
  -- control word.
  pub decrypt_loop-service_calls :
      (s : Decsa crypto) (k : DeCsaKey crypto) (fresh : crypto.CsaKey) (csnew : ℕ) (p : List ℕ)
      (ps : List (List ℕ))
      → length s.keys ≡ max_csa_idx
      → index < max_csa_idx
      → parity ≤ 1
      → get_elem? s.keys index ≡ some k
      → env.fresh_key ≡ some fresh
      → adapter < max_adapter
      → pid < max_csa_pid
      → Fits pid (parity == 1) p
      → AllFit pid (parity == 1) ps
      → 0 < csnew
      → (s' : Decsa crypto) × (k' : DeCsaKey crypto) × (perform_calls crypto service_calls s
          ≡ some s')
        × (decrypt_loop crypto csnew adapter (p ∷ ps) s'
            ≡ some (gathered pid index (parity == 1) (min csnew (length (p ∷ ps))), p ∷ ps))
        × (get_elem? s'.keys index ≡ some k')
        × (k'.key
            ≡ some (
                with_word crypto
                  (parity == 1)
                  cw
                  (get_ecm adapter index parity env.filters)
                  (struct_of crypto fresh k.key)))
  unfolding decrypt_loop
  decrypt_loop-service_calls s k fresh csnew p ps size small par found alloc on_adapter in_pids f fs
        room =
      let (keys', done, size', found') = calls_run s k size small par found in
      let s' : Decsa crypto = record {
        maps = Descrambler.set_ca_pid adapter pid (signed index) s.maps;
        keys = keys';
      } in
      let ecm = get_ecm adapter index parity env.filters in
      let (algo_kept, aes_kept) =
        describe_kept crypto env.fresh_key (parity == 1) cw ecm
          (record k { algo = algo_dvbcsa; cipher_mode = mode; aes = false }) in
      let mapped : search_pid pid (s'.maps adapter) ≡ some index =
        mapped_pid s.maps small on_adapter in_pids in
      let csa : get_algo crypto index keys' ≡ algo_dvbcsa =
        get_algo_found crypto index keys' (service_key k) size' small found' ∙ algo_kept in
      let not_aes : get_aes crypto index keys' ≡ false =
        get_aes_found crypto index keys' (service_key k) size' small found' ∙ aes_kept in
      let valid : ltb adapter max_adapter ≡ true = ground arith in
      (
        s',
        service_key k,
        done,
        rw valid (
            packets-AllFit csnew (λ q. search_pid q (s'.maps adapter))
              (λ i. get_algo crypto i keys') (λ i. get_aes crypto i keys') (des_at crypto keys')
              (aes_decrypt_at crypto keys') pid index (parity == 1) in_pids mapped csa not_aes p ps
              f fs room),
        found',
        rw alloc (
            describe-key crypto fresh (parity == 1) cw ecm
              (record k { algo = algo_dvbcsa; cipher_mode = mode; aes = false })),
      )
