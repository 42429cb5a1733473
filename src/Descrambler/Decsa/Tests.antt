-- ===== src/Descrambler/Decsa/Tests.antt =====
-- Two adapters with a key each, and the theorems about them there.
use vdr_plugin_dvbapi.Prelude.{
  ℕ, ◌≡◌, refl, true, false, none, some, List, [], ◌∷◌, replicate, nat_ord, get_elem?, min, ◌==◌,
  if◌then◌else◌, arith,
}
use vdr_plugin_dvbapi.Filter.Control.{get_ecm}
use vdr_plugin_dvbapi.Filter.Packets.{packet_pid}
use vdr_plugin_dvbapi.Descrambler.{ts_packet_get_payload_offset}
use vdr_plugin_dvbapi.Descrambler.Keys.{Crypto, DeCsaKey}
use vdr_plugin_dvbapi.Descrambler.Keys.Own.{with_word, struct_of}
use vdr_plugin_dvbapi.Descrambler.Batch.{is_scrambled}
use vdr_plugin_dvbapi.Descrambler.Batch.Service.{Fits, AllFit, gathered}
use vdr_plugin_dvbapi.Descrambler.Decsa.{Decsa, Context, perform_calls, decrypt_loop}
use vdr_plugin_dvbapi.Descrambler.Decsa.Delivery.{service_calls, decrypt_loop-service_calls}

-- A key struct of CSA holds its control words.
abbrev toy : Crypto
toy = record {
  CsaKey = List ℕ × List ℕ;
  AesCtx = List ℕ;
  DesKey = List ℕ;
  set_even_cw = λ cw ecm key. (cw, key.1);
  set_odd_cw = λ cw ecm key. (key.0, cw);
  aes_set_key = λ bits cw ctx. (cw, true);
  aes_update = λ ctx bytes. some bytes;
  des_set_key = λ cw. cw;
  des_block = λ key block. block;
}

abbrev fresh : List ℕ × List ℕ
fresh = ([], [])

abbrev blank : DeCsaKey toy
blank = record {
  aes = false;
  algo = 0;
  cipher_mode = 0;
  aes_iv = replicate 16 0;
  key = none;
  aes_keys = none;
  des_keys = ([], []);
}

-- The pid 100 of the adapter 0 has the key 3.
abbrev at_first : Decsa toy
at_first = record { maps = λ a. if a == 0 then (100, 3) ∷ [] else []; keys = replicate 32 blank }

abbrev env : Context toy
env = record { fresh_key = some fresh; fresh_aes_key = none; filters = [] }

abbrev odd_packet : List ℕ
odd_packet = 0x47 ∷ 0 ∷ 50 ∷ 0xD0 ∷ replicate 184 1

odd_packet-Fits : Fits 50 true odd_packet
unfolding is_scrambled ts_packet_get_payload_offset packet_pid
odd_packet-Fits = record {
  sync = refl;
  scrambled = refl;
  payload = ground arith;
  of_pid = refl;
  parity = refl;
}

-- The pid 50 of the adapter 1 gets the key 5.
decrypt_loop-service_calls_example :
    (s' : Decsa toy) × (k' : DeCsaKey toy) × (perform_calls toy
        (service_calls toy env 1 50 5 0 1 (7 ∷ []))
        at_first
      ≡ some s')
    × (decrypt_loop toy 32 1 (odd_packet ∷ odd_packet ∷ []) s'
        ≡ some (gathered 50 5 true (min 32 2), odd_packet ∷ odd_packet ∷ []))
    × (get_elem? s'.keys 5 ≡ some k')
    × (k'.key
        ≡ some (with_word toy true (7 ∷ []) (get_ecm 1 5 1 env.filters) (struct_of toy fresh none)))
unfolding AllFit
decrypt_loop-service_calls_example =
    decrypt_loop-service_calls toy env 1 50 5 0 1 (7 ∷ []) at_first blank fresh 32 odd_packet
      (odd_packet ∷ []) refl (omega arith) (omega arith) refl refl (omega arith) (omega arith)
      odd_packet-Fits (odd_packet-Fits, tt) (omega arith)
