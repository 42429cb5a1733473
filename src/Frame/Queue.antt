-- ===== src/Frame/Queue.antt =====
-- The frames in a ring buffer are a queue: Put appends one, Get and Del take the first.
use vdr_plugin_dvbapi.Prelude.{
  Bool-cases, inl, inr, ℕ, ◌+◌, ◌≤◌, ◌<◌, ◌≡◌, refl, sym, ap, ◌∙◌, true, false, Option, none, some,
  List, ◌∷◌, ◌++◌, map, concat, ltb, ◌==◌, length, drop, drop-append_length, arith,
}
use vdr_plugin_dvbapi.Frame.{
  RingBuffer, Frame, len_off, get_buff, get_mem, fill, put_frame, get_frame, del_frame, send_frame,
  buff_at, is_some, get_at, read_frame, del_at, avail,
}
use vdr_plugin_dvbapi.Frame.Encoding.{
  encode, append_split, length-encode, whole_prefix, length_field-encode, with_bytes, is_more,
  encoded_more, fits-encode, body-encode,
}

module _ (ring : RingBuffer) where
  open ring use {
    available, length-content, Rb, content, room, put, get, del, clear, content-put, content-get,
    content-del,
  }

  -- The frames that a buffer holds.
  abbrev pub Holds : Frame ring → List (List ℕ) → Type 0
  Holds f ds = (rb : Rb) × (f.rb ≡ some rb) × (content rb ≡ concat (map encode ds))

  -- The memory of a frame is as large as it notes.
  abbrev pub IsSized : Option (List ℕ) → ℕ → Type 0
  IsSized none n = Unit
  IsSized (some m) n = length m ≡ n + 2

  put_frame-rb :
      (f : Frame ring) (m d : List ℕ) (rb : Rb)
      → f.rb ≡ some rb
      → f.mem ≡ some m
      → f.len ≡ length d
      → length d + 2 ≤ length m
      → (put_frame ring (fill ring d f)).rb ≡ some (put (encode d) rb)
  unfolding put_frame fill
  put_frame-rb f m d rb at mem len size =
      rw (at, mem) (ap (λ (l : List ℕ). some (put l rb)) (rw len (with_bytes d m size)))

  get_frame-first :
      (f : Frame ring) (rb : Rb) (d bytes rest : List ℕ)
      → f.rb ≡ some rb
      → get rb ≡ some bytes
      → content rb ≡ encode d ++ rest
      → 0 < length d
      → length d < 65536
      → length d + 2 ≤ length bytes
      → get_frame ring f ≡ (some d, record f { glen = length d })
  unfolding get_frame
  get_frame-first f rb d bytes rest at got held some_byte small whole =
      let (later, e) = content-get rb bytes got in
      let (more, b) =
        append_split (encode d) rest bytes later (sym e ∙ held) (whole_prefix d bytes whole) in
      ap (λ r. get_at ring r f) at
      ∙ ap (λ r. read_frame ring r rb f) (got ∙ ap some b)
      ∙ (rw (length_field-encode d more small, fits-encode d more some_byte, body-encode d more)
          refl)

  del_frame-first :
      (f : Frame ring) (rb : Rb) (d bytes rest : List ℕ)
      → f.rb ≡ some rb
      → f.glen ≡ length d
      → get rb ≡ some bytes
      → content rb ≡ encode d ++ rest
      → 0 < length d
      → length d + 2 ≤ length bytes
      → (rb' : Rb) × ((del_frame ring f).rb ≡ some rb') × (content rb' ≡ rest)
  unfolding del_frame
  del_frame-first f rb d bytes rest at glen got held some_byte whole = (
    del (length d + 2) rb,
    ap (λ r. (del_at ring r f).rb) at
        ∙ (let some_frame : (f.glen == 0) ≡ false = ground arith in
            rw some_frame (ap (λ n. some (del (n + len_off) rb)) glen)),
    content-del (length d + 2) rb bytes got whole
        ∙ ap (λ l. drop (length d + 2) l) held
        ∙ drop-append_length (length d + 2) (encode d) rest (sym (length-encode d)),
  )

  -- What `send_frame` needs of `malloc`.
  abbrev pub Allocates : (ℕ → Option (List ℕ)) → Type 0
  Allocates malloc = (n : ℕ) → (m : List ℕ) × (malloc n ≡ some m) × (length m ≡ n)

  -- What `GetBuff` leaves for a number of bytes.
  abbrev HasBuffer : Frame ring → Frame ring → ℕ → Type 0
  HasBuffer f f' l =
      (m : List ℕ) × (f'.mem ≡ some m) × (f'.len ≡ l) × (f'.rb ≡ f.rb) × (l + 2 ≤ length m)

  fresh-HasBuffer :
      (malloc : ℕ → Option (List ℕ)) (l : ℕ) (f : Frame ring)
      → Allocates malloc
      → HasBuffer f (get_mem ring (malloc (l + len_off)) l f) l
  fresh-HasBuffer malloc l f allocates =
      let (m, e, size) = allocates (l + len_off) in
      (m, rw e refl, rw e refl, rw e refl, omega arith)

  buff_at-HasBuffer :
      (malloc : ℕ → Option (List ℕ)) (l : ℕ) (mem : Option (List ℕ)) (f : Frame ring)
      → Allocates malloc
      → f.mem ≡ mem
      → IsSized mem f.alen
      → HasBuffer f (buff_at ring malloc l mem f) l
  buff_at-HasBuffer malloc l none f allocates e sized = fresh-HasBuffer malloc l f allocates
  buff_at-HasBuffer malloc l (some m) f allocates e sized = elim (Bool-cases (ltb f.alen l)) [
    | inl t ↦ rw t (fresh-HasBuffer malloc l f allocates)
    | inr t ↦ rw t (m, e, refl, refl, ground arith)
  ]

  -- What the ring buffer then is.
  pub send_frame-rb :
      (malloc : ℕ → Option (List ℕ)) (f : Frame ring) (d : List ℕ) (rb : Rb)
      → Allocates malloc
      → IsSized f.mem f.alen
      → f.rb ≡ some rb
      → (send_frame ring malloc d f).rb ≡ some (put (encode d) rb)
  unfolding send_frame get_buff
  send_frame-rb malloc f d rb allocates sized at =
      let (m, mem, len, same, size) =
        buff_at-HasBuffer malloc (length d) f.mem f allocates refl sized in
      let f' = buff_at ring malloc (length d) f.mem f in
      let some_mem : is_some f'.mem ≡ true = ap is_some mem in
      rw some_mem (put_frame-rb f' m d rb (same ∙ at) mem len size)

  -- Where the ring buffer holds a first frame of 1 to 65535 bytes and gives it in one piece, Get
  -- returns it and Del then takes it away, and the others stay.
  pub get_frame-Holds :
      (f : Frame ring) (d bytes : List ℕ) (ds : List (List ℕ)) (rb : Rb)
      → f.rb ≡ some rb
      → content rb ≡ concat (map encode (d ∷ ds))
      → get rb ≡ some bytes
      → 0 < length d
      → length d < 65536
      → length d + 2 ≤ length bytes
      → ((get_frame ring f).0 ≡ some d) × Holds (del_frame ring (get_frame ring f).1) ds
  get_frame-Holds f d bytes ds rb at held got some_byte small whole =
      let e =
        get_frame-first f rb d bytes (concat (map encode ds)) at got held some_byte small whole in
      (
        ap (λ r. r.0) e,
        rw e (
            del_frame-first (record f { glen = length d }) rb d bytes (concat (map encode ds)) at
              refl got held some_byte whole),
      )

  pub avail-Holds :
      (f : Frame ring) (ds : List (List ℕ)) → Holds f ds → ltb 0 (avail ring f) ≡ is_more ds
  unfolding avail
  avail-Holds f ds (rb, at, held) =
      ap (λ r. ltb 0 (elim r as (λ _. ℕ) [ none ↦ 0 | some x ↦ available x ])) at
      ∙ ap (λ n. ltb 0 n) (length-content rb ∙ ap length held)
      ∙ encoded_more ds
