-- ===== src/Filter/Packets/Stream.antt =====
-- `Analyze` over the packets of a pid: a section that is spread over packets.
use vdr_plugin_dvbapi.Prelude.{
  ℕ, ◌+◌, ◌%◌, ◌<◌, ◌≡◌, refl, sym, ap, ◌∙◌, inl, inr, true, false, not, ◌&&◌, List, [], some, ◌∷◌,
  ◌++◌, arith, length, concat, All, Option, take-append_length, drop-append_length, length-append,
  append_assoc, append-nil, ◌==◌, ltb, if◌then◌else◌, Bool-cases, pair_ord,
}
use vdr_plugin_dvbapi.Filter.{
  PidFilters, Step, deliver, ◌then_do◌, then_do_lem, clear, collect, gather, read_header, finish,
}
use vdr_plugin_dvbapi.Filter.Packets.{
  walk_payload, payload, analyze_pid, is_continuous, start_sections,
}
use vdr_plugin_dvbapi.Filter.Packets.Walk.{IsTable, walk_payload_start}
use vdr_plugin_dvbapi.Filter.Packets.Header.{packet, analyze_pid-packet, continue_packet}
use vdr_plugin_dvbapi.Filter.Assembly.{arrived, collect_part, collect_last, take_section, delivered}

-- `Analyze` of packets of one pid, one after the other.
pub analyze_each : ℕ → List (List ℕ) → Step
analyze_each caid [] pf = (pf, [])
analyze_each caid (p ∷ ps) pf = (analyze_pid caid p then_do analyze_each caid ps) pf

-- The packets that continue a section: their counters follow `k`.
pub rest_packets : ℕ → ℕ → List (List ℕ) → List (List ℕ)
rest_packets pid k [] = []
rest_packets pid k (body ∷ bodies) =
    packet false pid ((k + 1) % 16) body ∷ rest_packets pid (k + 1) bodies

-- All packets of a section: in the first, the pointer field counts the bytes `before`, which belong to
-- the section before it, and `first` stands behind these.
pub section_packets : ℕ → ℕ → List ℕ → List ℕ → List (List ℕ) → List (List ℕ)
section_packets pid k before first bodies =
    packet true pid (k % 16) (length before ∷ before ++ first) ∷ rest_packets pid k bodies

abbrev pub counted : ℕ → PidFilters → PidFilters
counted k pf = record pf { lastcc = some (k % 16) }

-- What the bytes up to the pointer do: they go to the section before, if it is open and the counter of
-- the packet follows the last.
pub ended : ℕ → ℕ → List ℕ → Step
unfolding is_continuous
ended caid k before pf =
    if is_continuous pf.lastcc (k % 16) && not (length pf.section == 0)
    then collect caid before (counted k pf)
    else (counted k pf, [])

collect-lastcc :
    (caid : ℕ) (p : List ℕ) (pf : PidFilters) → (collect caid p pf).0.lastcc ≡ pf.lastcc
unfolding collect gather read_header finish deliver
collect-lastcc caid p pf = ground arith

-- Behind the packet its counter is the last.
counted-ended :
    (caid k : ℕ) (before : List ℕ) (pf : PidFilters)
    → counted k (ended caid k before pf).0 ≡ (ended caid k before pf).0
unfolding ended
counted-ended caid k before pf =
    elim (Bool-cases (is_continuous pf.lastcc (k % 16) && not (length pf.section == 0))) [
      | inl e ↦ rw e (
          let q = (collect caid before (counted k pf)).0 in
          ap (λ (last : Option ℕ). record q { lastcc = last })
            (sym (collect-lastcc caid before (counted k pf))))
      | inr e ↦ rw e refl
    ]

-- The sections start behind the bytes that the pointer field counts.
payload_pointer :
    (caid k : ℕ) (before first : List ℕ) (pf : PidFilters)
    → payload caid true
        (is_continuous pf.lastcc (k % 16))
        (length before ∷ before ++ first)
        (counted k pf)
      ≡ (ended caid k before then_do (λ q. walk_payload caid first (clear q))) pf
unfolding payload start_sections ended
payload_pointer caid k before first pf =
    let enough : ltb (length (before ++ first)) (length before) ≡ false =
      ground (arith, length-append before first) in
    rw
      (
        enough,
        take-append_length (length before) before first refl,
        drop-append_length (length before) before first refl,
      )
      (elim (Bool-cases (is_continuous pf.lastcc (k % 16) && not (length pf.section == 0))) [
        | inl e ↦ rw e refl
        | inr e ↦ rw e refl
      ])

module _ (caid pid : ℕ) (pid_fits : pid < 0x2000) (pf : PidFilters) (s rest : List ℕ)
    (whole : IsTable s) where
  next_packets :
      (k : ℕ) (u : List ℕ) (bodies : List (List ℕ)) (last : List ℕ)
      → 0 < length u
      → All (λ b. length b ≡ 184) (bodies ++ last ∷ [])
      → u ++ (concat bodies ++ last) ≡ s ++ rest
      → length (u ++ concat bodies) < length s
      → analyze_each caid (rest_packets pid k (bodies ++ last ∷ [])) (arrived (counted k pf) s u)
        ≡ delivered caid (counted (k + length bodies + 1) pf) s
  unfolding analyze_each rest_packets
  next_packets k u [] last l sizes e h =
      let below : length u < length s = rw (← append-nil u) h in
      let result = delivered caid (counted (k + 1) pf) s in
      then_do_lem (analyze_pid caid (packet false pid ((k + 1) % 16) last)) (analyze_each caid [])
        (continue_packet caid pid pid_fits k last (arrived (counted k pf) s u) sizes.0 refl l
          ∙ collect_last (counted (k + 1) pf) s whole.0 caid u last rest e below)
        refl
      ∙ ap (λ sent. (result.0, sent)) (append-nil result.1)
      ∙ ap (λ n. delivered caid (counted n pf) s) (omega arith)
  next_packets k u (c ∷ bodies) last l sizes e h =
      let regroup : (u ++ c) ++ (concat bodies ++ last) ≡ s ++ rest =
        simp append_assoc (simp append_assoc at e) in
      let total : length ((u ++ c) ++ concat bodies) < length s = simp append_assoc h in
      let below : length (u ++ c) < length s =
        omega (arith, length-append (u ++ c) (concat bodies)) in
      then_do_lem (analyze_pid caid (packet false pid ((k + 1) % 16) c))
        (analyze_each caid (rest_packets pid (k + 1) (bodies ++ last ∷ [])))
        (continue_packet caid pid pid_fits k c (arrived (counted k pf) s u) sizes.0 refl l
          ∙ collect_part (counted (k + 1) pf) s whole.0 caid u c _
              (take_section (counted (k + 1) pf) s whole.0 (u ++ c) (concat bodies ++ last) rest
                regroup below)
              below)
        (next_packets (k + 1) (u ++ c) bodies last (omega (arith, length-append u c)) sizes.1
          regroup total)
      ∙ ap (λ n. delivered caid (counted n pf) s) (omega arith)

module _ (caid pid : ℕ) (pid_fits : pid < 0x2000) (pf : PidFilters) (s rest : List ℕ)
    (whole : IsTable s) where
  first_packet :
      (k : ℕ) (before first t : List ℕ)
      → length before + length first ≡ 183
      → 0 < length first
      → first ++ t ≡ s
      → length first < length s
      → analyze_pid caid (packet true pid (k % 16) (length before ∷ before ++ first)) pf
        ≡ (arrived (counted k (ended caid k before pf).0) s first, (ended caid k before pf).1 ++ [])
  first_packet k before first t l some_byte e h =
      let q = (ended caid k before pf).0 in
      analyze_pid-packet caid true pid (k % 16) (length before ∷ before ++ first) pf pid_fits
        (omega arith) (omega (arith, length-append before first))
      ∙ payload_pointer caid k before first pf
      ∙ then_do_lem (ended caid k before) (λ x. walk_payload caid first (clear x)) refl
          (walk_payload_start caid first t s q whole e (omega arith) (omega arith))
      ∙ ap (λ x. (arrived x s first, (ended caid k before pf).1 ++ []))
          (sym (counted-ended caid k before pf))

  -- A section that is spread over packets whose counters follow one another, from a packet with the
  -- start flag on, is delivered once, whole, by the last of them, whatever section was open before.
  -- The pointer field of the first packet counts the bytes in front of the section: these complete
  -- the open section, if the counter follows the last, and what they deliver is sent first. The bytes
  -- behind the section are dropped, and nothing else is sent. The packets have no adaptation field,
  -- and a byte of the section at least is in the first.
  pub analyze_each-section_packets :
      (k : ℕ) (before first last : List ℕ) (bodies : List (List ℕ))
      → length before + length first ≡ 183
      → 0 < length first
      → All (λ b. length b ≡ 184) (bodies ++ last ∷ [])
      → first ++ (concat bodies ++ last) ≡ s ++ rest
      → length (first ++ concat bodies) < length s
      → let previous = ended caid k before pf in
        let section = delivered caid (counted (k + length bodies + 1) previous.0) s in
        analyze_each caid (section_packets pid k before first (bodies ++ last ∷ [])) pf
        ≡ (section.0, previous.1 ++ section.1)
  unfolding analyze_each section_packets
  analyze_each-section_packets k before first last bodies l some_byte sizes e h =
      let below : length first < length s = omega (arith, length-append first (concat bodies)) in
      let q = (ended caid k before pf).0 in
      let sent = (ended caid k before pf).1 in
      then_do_lem (analyze_pid caid (packet true pid (k % 16) (length before ∷ before ++ first)))
        (analyze_each caid (rest_packets pid k (bodies ++ last ∷ [])))
        (first_packet k before first _ l some_byte
          (take_section q s whole.0 first (concat bodies ++ last) rest e below) below)
        (next_packets caid pid pid_fits q s rest whole k first bodies last (omega arith) sizes e h)
      ∙ ap
          (λ x. (
            (delivered caid (counted (k + length bodies + 1) q) s).0,
            x ++ (delivered caid (counted (k + length bodies + 1) q) s).1,
          ))
          (append-nil sent)
