-- ===== src/Filter/Assembly.antt =====
-- Section assembly (`Collect`): what holds of a section between two packets, and that a section
-- which arrives in parts is delivered whole.
use vdr_plugin_dvbapi.Prelude.{
  ℕ, ◌-◌, ◌≤◌, ◌<◌, ◌≡◌, refl, sym, ap, ◌∙◌, ◌⊎◌, List, [], ◌∷◌, ◌++◌, min, arith, length, take,
  ltb, if◌then◌else◌, concat, take_all, take-min, take-append_ge, take-append_length, dec_lt,
  length-zero, dec_lt, length-zero, length-append, length-take, get_or-append_lt, get_or-take,
  append_assoc, append-nil,
}
use vdr_plugin_dvbapi.Filter.{
  PidFilters, Sent, Step, ◌then_do◌, then_do_lem, total_len, clear, deliver, gather, read_header,
  finish, collect,
}

-- A section that is still being assembled: either its header is not complete, or its length is
-- known from the header and not yet reached.
abbrev pub IsOpen : PidFilters → Type 0
IsOpen pf =
    ((pf.section_len ≡ 0) × (length pf.section < 3))
    ⊎ ((pf.section_len ≡ total_len pf.section)
        × (3 ≤ length pf.section)
        × (length pf.section < pf.section_len))

-- The state before `finish`: a complete section is allowed too.
abbrev IsGathered : PidFilters → Type 0
IsGathered pf =
    ((pf.section_len ≡ 0) × (length pf.section < 3))
    ⊎ ((pf.section_len ≡ total_len pf.section)
        × (3 ≤ length pf.section)
        × (length pf.section ≤ pf.section_len))

pub total_len-append : (s t : List ℕ) → 3 ≤ length s → total_len (s ++ t) ≡ total_len s
total_len-append s t h =
    rw (get_or-append_lt s t 1 0 (omega arith), get_or-append_lt s t 2 0 (omega arith))

total_len-take : (n : ℕ) (s : List ℕ) → 3 ≤ n → total_len (take n s) ≡ total_len s
total_len-take n s h = rw (get_or-take n s 1 0 (omega arith), get_or-take n s 2 0 (omega arith))

finish-IsOpen : (caid : ℕ) (pf : PidFilters) → IsGathered pf → IsOpen (finish caid pf).0
unfolding finish
finish-IsOpen caid pf g = ground arith

gather-read_header :
    (p : List ℕ) (pf : PidFilters) → IsOpen pf → IsGathered (read_header (gather p pf))
unfolding gather read_header
gather-read_header p pf h = ground (
  arith,
  length-append pf.section (take (length p) p),
  length-append pf.section (take (min (length p) (pf.section_len - length pf.section)) p),
  length-take (length p) p,
  length-take (min (length p) (pf.section_len - length pf.section)) p,
  total_len-append pf.section (take (min (length p) (pf.section_len - length pf.section)) p),
  total_len-take (total_len (pf.section ++ take (length p) p)) (pf.section ++ take (length p) p),
  length-take (total_len (pf.section ++ take (length p) p)) (pf.section ++ take (length p) p),
)

-- `Collect` leaves either a section that is still open, or none, whatever bytes it is given.
pub collect-IsOpen :
    (caid : ℕ) (p : List ℕ) (pf : PidFilters) → IsOpen pf → IsOpen (collect caid p pf).0
unfolding collect
collect-IsOpen caid p pf h =
    finish-IsOpen caid (read_header (gather p pf)) (gather-read_header p pf h)

-- A whole section: its header gives its length.
abbrev pub IsSection : List ℕ → Type 0
IsSection s = (3 ≤ length s) × (length s ≡ total_len s)

-- The state when the bytes `u` of the section `s` have arrived.
abbrev pub arrived : PidFilters → List ℕ → List ℕ → PidFilters
arrived pf s u = record pf { section = u; section_len = if ltb (length u) 3 then 0 else length s }

-- What a delivery leaves and sends.
abbrev pub delivered : ℕ → PidFilters → List ℕ → PidFilters × List Sent
delivered caid pf s = let (pf', sent) = deliver caid s pf in (clear pf', sent)

-- The state before `finish`, when the bytes `u` of a section are there and its length is known.
abbrev known : PidFilters → List ℕ → List ℕ → PidFilters
known pf s u = record pf { section = u; section_len = length s }

module _ (pf : PidFilters) (s : List ℕ) (whole : IsSection s) where
  gather_part :
      (u p : List ℕ)
      → length (u ++ p) < length s
      → gather p (arrived pf s u) ≡ record (arrived pf s u) { section = u ++ p }
  unfolding gather
  gather_part u p h = ground (
    arith,
    length-append u p,
    take_all (length p) p,
    take_all (min (length p) (length s - length u)) p,
  )

  header_part :
      (u p t : List ℕ)
      → (u ++ p) ++ t ≡ s
      → length (u ++ p) < length s
      → read_header (record (arrived pf s u) { section = u ++ p }) ≡ arrived pf s (u ++ p)
  unfolding read_header
  header_part u p t e h =
      ground (arith, length-append u p, total_len-append (u ++ p) t, ap total_len e)

  finish_part :
      (caid : ℕ) (u : List ℕ)
      → length u < length s
      → finish caid (arrived pf s u) ≡ (arrived pf s u, [])
  unfolding finish
  finish_part caid u h = ground arith

  -- A part that does not complete the section is kept.
  pub collect_part :
      (caid : ℕ) (u p t : List ℕ)
      → (u ++ p) ++ t ≡ s
      → length (u ++ p) < length s
      → collect caid p (arrived pf s u) ≡ (arrived pf s (u ++ p), [])
  unfolding collect
  collect_part caid u p t e h =
      rw (gather_part u p h, header_part u p t e h) (finish_part caid (u ++ p) h)

  -- Bytes that complete the section: the known length cuts off what follows it.
  pub take_section :
      (u p rest : List ℕ)
      → u ++ p ≡ s ++ rest
      → length u < length s
      → u ++ take (length s - length u) p ≡ s
  take_section u p rest e h =
      sym (take-append_ge (length s) (length s - length u) u p (omega arith))
      ∙ ap (take (length s)) e
      ∙ take-append_length (length s) s rest refl

  -- Without the header all bytes are taken, and the header then cuts off the rest.
  gather_headless :
      (u p rest : List ℕ)
      → u ++ p ≡ s ++ rest
      → length u < 3
      → gather p (arrived pf s u) ≡ record pf { section = s ++ rest; section_len = 0 }
  unfolding gather
  gather_headless u p rest e h = ground (arith, take_all (length p) p)

  header_last :
      (rest : List ℕ)
      → read_header (record pf { section = s ++ rest; section_len = 0 }) ≡ known pf s s
  unfolding read_header
  header_last rest = ground (
    arith,
    total_len-append s rest,
    take-append_length (length s) s rest,
    length-append s rest,
    append-nil s,
    length-zero rest,
  )

  -- With the header only the bytes that are missing are taken.
  gather_headed :
      (u p rest : List ℕ)
      → u ++ p ≡ s ++ rest
      → 3 ≤ length u
      → length u < length s
      → gather p (arrived pf s u) ≡ known pf s s
  unfolding gather
  gather_headed u p rest e h k =
      ground (arith, take-min (length s - length u) p, take_section u p rest e k)

  header_known : read_header (known pf s s) ≡ known pf s s
  unfolding read_header
  header_known = ground arith

  fill_section :
      (u p rest : List ℕ)
      → u ++ p ≡ s ++ rest
      → length u < length s
      → read_header (gather p (arrived pf s u)) ≡ known pf s s
  fill_section u p rest e h = elim (dec_lt (length u) 3) [
    | yes short ↦ ap read_header (gather_headless u p rest e short) ∙ header_last rest
    | no long ↦ ap read_header (gather_headed u p rest e (omega arith) h) ∙ header_known
  ]

  finish_whole : (caid : ℕ) → finish caid (known pf s s) ≡ delivered caid pf s
  unfolding finish deliver
  finish_whole caid = ground arith

  -- The part that completes it has it delivered, once; what follows the section is dropped.
  pub collect_last :
      (caid : ℕ) (u p rest : List ℕ)
      → u ++ p ≡ s ++ rest
      → length u < length s
      → collect caid p (arrived pf s u) ≡ delivered caid pf s
  unfolding collect
  collect_last caid u p rest e h = ap (finish caid) (fill_section u p rest e h) ∙ finish_whole caid

-- `Collect` of the parts of a section, one after the other.
pub feed : ℕ → List (List ℕ) → Step
feed caid [] pf = (pf, [])
feed caid (c ∷ cs) pf = (collect caid c then_do feed caid cs) pf

module _ (caid : ℕ) (pf : PidFilters) (s rest : List ℕ) (whole : IsSection s) where
  feed_from :
      (u : List ℕ) (cs : List (List ℕ)) (last : List ℕ)
      → u ++ (concat cs ++ last) ≡ s ++ rest
      → length (u ++ concat cs) < length s
      → feed caid (cs ++ last ∷ []) (arrived pf s u) ≡ delivered caid pf s
  unfolding feed
  feed_from u [] last e h =
      let below : length u < length s = rw (← append-nil u) h in
      then_do_lem (collect caid last) (λ q. (q, []))
        (collect_last pf s whole caid u last rest e below) refl
      ∙ ap (λ sent. ((delivered caid pf s).0, sent)) (append-nil (delivered caid pf s).1)
  feed_from u (c ∷ cs) last e h =
      let regroup : (u ++ c) ++ (concat cs ++ last) ≡ s ++ rest =
        simp append_assoc (simp append_assoc at e) in
      let total : length ((u ++ c) ++ concat cs) < length s = simp append_assoc h in
      let below : length (u ++ c) < length s = omega (arith, length-append (u ++ c) (concat cs)) in
      then_do_lem (collect caid c) (feed caid (cs ++ last ∷ []))
        (collect_part pf s whole caid u c _
          (take_section pf s whole (u ++ c) (concat cs ++ last) rest regroup below) below)
        (feed_from (u ++ c) cs last regroup total)

-- A section that arrives in any parts is delivered when its last byte arrives, whole and once; the
-- bytes behind it are dropped, nothing is sent before, and no section is left open.
pub feed-delivered :
    (caid : ℕ) (pf : PidFilters) (s rest last : List ℕ) (cs : List (List ℕ))
    → IsSection s
    → concat cs ++ last ≡ s ++ rest
    → length (concat cs) < length s
    → feed caid (cs ++ last ∷ []) (clear pf) ≡ delivered caid pf s
feed-delivered caid pf s rest last cs whole e h = feed_from caid pf s rest whole [] cs last e h
