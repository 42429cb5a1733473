-- ===== src/CiAdapter/Answer.antt =====
-- The way of an answer from the ring buffer of a slot to VDR, through Write and Read.
use vdr_plugin_dvbapi.Prelude.{
  ℕ, ◌+◌, ◌≤◌, ◌<◌, ◌≡◌, refl, sym, ap, ap₂, ◌∙◌, Bool, false, Option, none, some, List, [], ◌∷◌,
  ◌++◌, map, concat, append-nil, length-append, ltb, ◌==◌, get_or, get_elem?, length, arith,
}
use vdr_plugin_dvbapi.Frame.{RingBuffer, Frame, get_frame, del_frame, send_frame}
use vdr_plugin_dvbapi.Frame.Encoding.{encode, length-encode, is_more}
use vdr_plugin_dvbapi.Frame.Queue.{
  Holds, IsSized, Allocates, send_frame-rb, get_frame-Holds, avail-Holds,
}
use vdr_plugin_dvbapi.CiAdapter.{
  ScciAdapter, SccamSlot, Query, write_tpdu, read_tpdu, receive_answer, deliver_answer, taken,
  sb_tag, t_rcv,
}

module _ (ring : RingBuffer) where
  open ring use {Rb, content, room, put, get, available, length-content, content-put}

  -- What `Write` makes of the adapter.
  received :
      (malloc : ℕ → Option (List ℕ)) (i : ℕ) (s : SccamSlot ring) (a : ScciAdapter ring)
      (d : List ℕ) (ds : List (List ℕ))
      → (get_frame ring s.answers).0 ≡ some d
      → Holds ring (del_frame ring (get_frame ring s.answers).1) ds
      → (receive_answer ring malloc i s a).frame
        ≡ send_frame ring malloc (i ∷ a.tcid ∷ d ++ sb_tag a.tcid (is_more ds)) a.frame
  unfolding receive_answer
  received malloc i s a d ds got held = by_pair (get_frame ring s.answers) got held
    where
      by_pair :
          (r : Option (List ℕ) × Frame ring)
          → r.0 ≡ some d
          → Holds ring (del_frame ring r.1) ds
          → (deliver_answer ring malloc i r s a).frame
            ≡ send_frame ring malloc (i ∷ a.tcid ∷ d ++ sb_tag a.tcid (is_more ds)) a.frame
      by_pair (none, f) got held = cc got
      by_pair (some x, f) got held =
          let same : x ≡ d = cc got in
          ap₂
            (λ (y : List ℕ) (more : Bool).
              send_frame ring malloc (i ∷ a.tcid ∷ y ++ sb_tag a.tcid more) a.frame)
            same (avail-Holds ring (del_frame ring f) ds held)

  taken_fits :
      (max_length : ℕ) (a : ScciAdapter ring) (d : List ℕ) (r : Option (List ℕ) × Frame ring)
      → r.0 ≡ some d
      → length d ≤ max_length
      → (taken ring max_length r a).0 ≡ some d
  taken_fits max_length a d (none, f) got fits = cc got
  taken_fits max_length a d (some x, f) got fits =
      let same : length x ≡ length d = ap length (cc got) in
      let whole : ltb max_length (length x) ≡ false = ground arith in rw whole got

  frame_sent :
      (malloc : ℕ → Option (List ℕ)) (a a' : ScciAdapter ring) (answer : List ℕ) (rb : Rb)
      (max_length : ℕ)
      → Allocates ring malloc
      → IsSized ring a.frame.mem a.frame.alen
      → a'.frame ≡ send_frame ring malloc answer a.frame
      → a.frame.rb ≡ some rb
      → content rb ≡ []
      → 0 < length answer
      → length answer < 65536
      → length answer ≤ max_length
      → length answer + 2 ≤ room rb
      → get (put (encode answer) rb) ≡ some (encode answer)
      → (read_tpdu ring max_length a').0 ≡ some answer
  unfolding read_tpdu
  frame_sent malloc a a' answer rb max_length allocates sized sent at empty some_byte small fits
        free whole =
      let rb' = put (encode answer) rb in
      let at' = send_frame-rb ring malloc a.frame answer rb allocates sized at in
      let held : content rb' ≡ encode answer ++ [] =
        content-put (encode answer) rb (omega (arith, length-encode answer))
        ∙ ap (λ l. l ++ encode answer) empty
        ∙ sym (append-nil (encode answer)) in
      let (got, rest) =
        get_frame-Holds ring (send_frame ring malloc answer a.frame) answer (encode answer) [] rb'
          at' held whole some_byte small (omega (arith, length-encode answer)) in
      let read : (get_frame ring a'.frame).0 ≡ some answer =
        ap (λ f. (get_frame ring f).0) sent ∙ got in
      let some_room : (max_length == 0) ≡ false = ground arith in
      rw some_room (taken_fits max_length a' answer (get_frame ring a'.frame) read fits)

  answer_length :
      (i tcid : ℕ) (d : List ℕ) (more : Bool)
      → length (i ∷ tcid ∷ d ++ sb_tag tcid more) ≡ length d + 6
  answer_length i tcid d more = let e = length-append d (sb_tag tcid more) in omega arith

  -- Where a slot holds an answer of up to 65529 bytes and the adapter holds none, VDR's T_RCV and its
  -- next Read give it this answer in a TPDU for its slot and connection, with a status byte of 0x80
  -- if the slot has another answer and 0 otherwise. The answer stands in one piece in the ring buffer
  -- of the slot, and its TPDU does so in that of the adapter once it is put there; there is room for it.
  pub read_tpdu-write_tpdu :
      (malloc : ℕ → Option (List ℕ)) (q : Query) (buff : List ℕ) (a : ScciAdapter ring)
      (s : SccamSlot ring) (d bytes : List ℕ) (ds : List (List ℕ)) (slot_rb rb : Rb)
      (max_length : ℕ)
      → Allocates ring malloc
      → IsSized ring a.frame.mem a.frame.alen
      → 5 ≤ length buff
      → get_elem? a.slots (get_or buff 0 0) ≡ some (some s)
      → get_or buff 2 0 ≡ t_rcv
      → s.answers.rb ≡ some slot_rb
      → content slot_rb ≡ concat (map encode (d ∷ ds))
      → get slot_rb ≡ some bytes
      → length d + 2 ≤ length bytes
      → 0 < length d
      → length d + 6 < 65536
      → a.frame.rb ≡ some rb
      → content rb ≡ []
      → length d + 8 ≤ room rb
      → let answer = encode (get_or buff 0 0 ∷ a.tcid ∷ d ++ sb_tag a.tcid (is_more ds)) in
        get (put answer rb) ≡ some answer
        → length d + 6 ≤ max_length
        → (a' : ScciAdapter ring) × (write_tpdu ring malloc q buff a ≡ some ([], a'))
          × ((read_tpdu ring max_length a').0
              ≡ some (get_or buff 0 0 ∷ a.tcid ∷ d ++ sb_tag a.tcid (is_more ds)))
  unfolding write_tpdu
  read_tpdu-write_tpdu malloc q buff a s d bytes ds slot_rb rb max_length allocates sized long slot
        tag slot_at held got one_piece some_byte small at empty free whole fits =
      let i = get_or buff 0 0 in
      let a' = receive_answer ring malloc i s a in
      let size = answer_length i a.tcid d (is_more ds) in
      let (first, others) =
        get_frame-Holds ring s.answers d bytes ds slot_rb slot_at held got some_byte (omega arith)
          one_piece in
      let long_enough : ltb (length buff) 5 ≡ false = ground arith in
      (
        a',
        rw (long_enough, slot, tag) refl,
        frame_sent malloc a a' (i ∷ a.tcid ∷ d ++ sb_tag a.tcid (is_more ds)) rb max_length
            allocates sized (received malloc i s a d ds first others) at empty (omega arith)
            (omega arith) (omega arith) (omega arith) whole,
      )
