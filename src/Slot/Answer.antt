-- ===== src/Slot/Answer.antt =====
-- `Process` on the TPDUs that VDR writes: what the slot answers and what it asks for.
use native.Mathlib.Nat.{le_refl}
use vdr_plugin_dvbapi.Prelude.{
  ℕ, suc, ◌+◌, ◌*◌, ◌/◌, ◌%◌, min, ◌<◌, ◌≡◌, refl, ap, ◌∙◌, Bool, false, ◌||◌, Option, some, List,
  [], ◌∷◌, ◌++◌, ltb, length, length-append, drop, take_all, arith, if◌then◌else◌,
}
use vdr_plugin_dvbapi.Slot.{
  Action, put_frame, length_size, set_size, ca_info, get_length, session, checked, process, tagged,
}
use vdr_plugin_dvbapi.Slot.Length.{get_length-set_size, length-set_size}

-- A TPDU with one tagged object, as VDR writes it.
pub session_bytes : ℕ → ℕ → ℕ → List ℕ → List ℕ
session_bytes tcid cid tag body =
    tcid
      ∷ 0x90
      ∷ 0x02
      ∷ (cid / 256)
      ∷ (cid % 256)
      ∷ (tag / 65536)
      ∷ (tag / 256 % 256)
      ∷ (tag % 256)
      ∷ set_size (length body)
    ++ body

pub tpdu : ℕ → ℕ → ℕ → ℕ → List ℕ → List ℕ
unfolding session_bytes
tpdu slot tcid cid tag body =
    let inner = session_bytes tcid cid tag body in
    slot ∷ tcid ∷ 0xA0 ∷ set_size (length inner) ++ inner

module _ (do_reply has_decsa : Bool) where
  session-session_bytes :
      (tcid cid tag : ℕ) (body : List ℕ)
      → length body < 65536
      → session do_reply has_decsa
          (length (session_bytes tcid cid tag body))
          (session_bytes tcid cid tag body)
        ≡ some (tagged do_reply has_decsa tcid cid tag body)
  unfolding session session_bytes
  session-session_bytes tcid cid tag body h =
      let whole_cid : cid / 256 * 256 + cid % 256 ≡ cid = omega arith in
      let whole_tag : tag / 65536 * 65536 + tag / 256 % 256 * 256 + tag % 256 ≡ tag = omega arith in
      rw
        (
          get_length-set_size (length body) body h,
          take_all (length body) body (le_refl _),
          whole_cid,
          whole_tag,
        )
        (enough (length (set_size (length body) ++ body)) (some [])
          (some (tagged do_reply has_decsa tcid cid tag body)))
    where
      enough :
          (k : ℕ) (x y : Option (List Action))
          → (if ltb (suc (suc (suc (suc (suc (suc (suc (suc k)))))))) 8 || false then x else y) ≡ y
      enough k x y = ground arith

  short :
      (tcid cid tag : ℕ) (body : List ℕ)
      → length body < 65525
      → length (session_bytes tcid cid tag body) < 65536
  unfolding session_bytes length_size
  short tcid cid tag body h =
      ground (arith, length-append (set_size (length body)) body, length-set_size (length body))

  behind :
      (updated : Bool) (tcid cid tag : ℕ) (body : List ℕ) {acts : List Action}
      → session do_reply has_decsa
          (length (session_bytes tcid cid tag body))
          (session_bytes tcid cid tag body)
        ≡ some acts
      → checked do_reply has_decsa updated
          (length (session_bytes tcid cid tag body))
          (session_bytes tcid cid tag body)
        ≡ some ((if updated then put_frame (ca_info tcid 0x01) ∷ [] else []) ++ acts)
  unfolding checked session_bytes
  behind updated tcid cid tag body e = rw (e, checked) refl

  process-get_length :
      (updated : Bool) (bytes : List ℕ) {n : ℕ} {p : List ℕ}
      → get_length (drop 3 bytes) ≡ some (n, p)
      → process do_reply has_decsa updated bytes
        ≡ checked do_reply has_decsa updated (min n (length p)) p
  unfolding process
  process-get_length updated bytes e = rw (e, process) refl

  pub process-tpdu :
      (updated : Bool) (slot tcid cid tag : ℕ) (body : List ℕ)
      → length body < 65525
      → process do_reply has_decsa updated (tpdu slot tcid cid tag body)
        ≡ some (
            (if updated then put_frame (ca_info tcid 0x01) ∷ [] else [])
            ++ tagged do_reply has_decsa tcid cid tag body)
  unfolding tpdu
  process-tpdu updated slot tcid cid tag body h =
      let inner = session_bytes tcid cid tag body in
      let read : get_length (set_size (length inner) ++ inner) ≡ some (length inner, inner) =
        get_length-set_size (length inner) inner (short tcid cid tag body h) in
      let whole : min (length inner) (length inner) ≡ length inner = omega arith in
      process-get_length updated (tpdu slot tcid cid tag body) read
      ∙ ap (λ k. checked do_reply has_decsa updated k inner) whole
      ∙ behind updated tcid cid tag body (session-session_bytes tcid cid tag body (omega arith))
