-- ===== src/Filter/Packets/Invariant.antt =====
-- `Analyze` on any packet: what holds of every pid afterwards, and what a lost packet does.
use mathlib.Core.Option.{some-injective}
use vdr_plugin_dvbapi.Prelude.{
  subst, ℕ, zero, suc, ◌<◌, ◌≡◌, refl, sym, ◌∙◌, inl, inr, Bool, true, false, not, ◌&&◌, ◌||◌, List,
  [], some, ◌∷◌, arith, length, take, drop, if◌then◌else◌, ◌==◌, ltb, leb, length-take, length-drop,
  same, ltb_iff, ◌-◌, Bool-cases, Option-cases, bit_and, find, insert, pair_ord, find-insert,
}
use vdr_plugin_dvbapi.Filter.{
  ts_size, max_csa_pid, byte, PidFilters, PidMap, Step, total_len, clear, deliver, collect,
}
use vdr_plugin_dvbapi.Filter.Packets.{
  walk, walk_payload, payload, analyze_pid, analyze, packet_pid, is_continuous, has_payload,
  payload_offset, start_sections, continue_section,
}
use vdr_plugin_dvbapi.Filter.Assembly.{IsOpen, collect-IsOpen}

deliver-IsOpen :
    (caid : ℕ) (s : List ℕ) (pf : PidFilters) → IsOpen pf → IsOpen (deliver caid s pf).0
unfolding deliver
deliver-IsOpen caid s pf h = h

module _ (caid : ℕ) where
  walk-IsOpen : (n : ℕ) (p : List ℕ) (pf : PidFilters) → IsOpen pf → IsOpen (walk caid n p pf).0
  unfolding walk
  walk-IsOpen zero p pf h = h
  walk-IsOpen (suc n) [] pf h = h
  walk-IsOpen (suc n) (b ∷ p) pf h =
      let s = take (total_len (b ∷ p)) (b ∷ p) in
      elim (Bool-cases (b == 0xFF)) [
        | inl e ↦ rw e h
        | inr e ↦
            rw e
              (elim (Bool-cases
                (ltb (length (b ∷ p)) 3 || ltb (length (b ∷ p)) (total_len (b ∷ p)))) [
                  | inl f ↦ rw f (collect-IsOpen caid (b ∷ p) pf h)
                  | inr f ↦ rw f (
                      walk-IsOpen n (drop (total_len (b ∷ p)) (b ∷ p)) (deliver caid s pf).0
                        (deliver-IsOpen caid s pf h))
                ])
      ]

  clear-IsOpen : (pf : PidFilters) → IsOpen (clear pf)
  clear-IsOpen pf = inl (refl, omega arith)

  payload-IsOpen :
      (pusi continuous : Bool) (p : List ℕ) (pf : PidFilters)
      → IsOpen pf
      → IsOpen (payload caid pusi continuous p pf).0
  unfolding payload start_sections continue_section walk_payload
  payload-IsOpen pusi continuous [] pf h = h
  payload-IsOpen false continuous (b ∷ p) pf h =
      elim (Bool-cases (continuous && not (length pf.section == 0))) [
        | inl e ↦ rw e (collect-IsOpen caid (b ∷ p) pf h)
        | inr e ↦ rw e (clear-IsOpen pf)
      ]
  payload-IsOpen true continuous (b ∷ p) pf h =
      let previous : Step =
        if continuous && not (length pf.section == 0) then collect caid (take b p) else λ q.
        (q, []) in
      let q = clear (previous pf).0 in
      elim (Bool-cases (ltb (length p) b)) [
        | inl e ↦ rw e (clear-IsOpen pf)
        | inr e ↦ rw e (walk-IsOpen (length (drop b p)) (drop b p) q (clear-IsOpen (previous pf).0))
      ]

  -- Whatever packet arrives, the section that a pid has open afterwards is one that is not complete:
  -- its header is missing, or its length is the header's and not reached.
  pub analyze_pid-IsOpen :
      (buf : List ℕ) (pf : PidFilters) → IsOpen pf → IsOpen (analyze_pid caid buf pf).0
  unfolding analyze_pid
  analyze_pid-IsOpen buf pf h =
      elim (Bool-cases (has_payload buf && ltb (payload_offset buf) ts_size)) [
        | inl e ↦
            let n = payload_offset buf in
            let counter = bit_and (byte buf 3) 0x0F in
            rw e (
              payload-IsOpen (not (bit_and (byte buf 1) 0x40 == 0))
                (is_continuous pf.lastcc counter) (take (ts_size - n) (drop n buf))
                (record pf { lastcc = some counter }) h)
        | inr e ↦ rw e h
      ]

  payload_lost :
      (pusi : Bool) (p : List ℕ) (pf : PidFilters)
      → 0 < length p
      → payload caid pusi false p pf ≡ payload caid pusi false p (clear pf)
  unfolding payload start_sections continue_section
  payload_lost pusi [] pf h = absurd (omega arith)
  payload_lost true (b ∷ p) pf h = refl
  payload_lost false (b ∷ p) pf h = refl

  -- A whole packet with a payload that starts inside it, whose counter does not follow the last one, is
  -- taken as if no section were open: the bytes of a section from before the gap are never joined
  -- with those behind it.
  pub analyze_pid_lost :
      (buf : List ℕ) (pf : PidFilters)
      → length buf ≡ ts_size
      → has_payload buf ≡ true
      → payload_offset buf < ts_size
      → is_continuous pf.lastcc (bit_and (byte buf 3) 0x0F) ≡ false
      → analyze_pid caid buf pf ≡ analyze_pid caid buf (clear pf)
  unfolding analyze_pid
  analyze_pid_lost buf pf l h o e =
      let n = payload_offset buf in
      let room : 0 < length (take (ts_size - n) (drop n buf)) =
        omega (arith, length-take (ts_size - n) (drop n buf), length-drop n buf) in
      let starts = not (bit_and (byte buf 1) 0x40 == 0) in
      rw (h, (ltb_iff n ts_size).1 o, e) (payload_lost starts _ _ room)

-- What holds between two packets of every pid of the table.
abbrev pub AllOpen : PidMap → Type 0
AllOpen m = (adapter pid : ℕ) (pf : PidFilters) → find (adapter, pid) m ≡ some pf → IsOpen pf

insert-AllOpen :
    (adapter pid : ℕ) (pf : PidFilters) (m : PidMap)
    → IsOpen pf
    → AllOpen m
    → AllOpen (insert (adapter, pid) pf m)
insert-AllOpen adapter pid pf m h all a p pf' e =
    let key : ℕ × ℕ = (adapter, pid) in
    let law = sym (find-insert key (a, p) pf m) ∙ e in
    elim (Bool-cases (same {K = ℕ × ℕ} (a, p) key)) [
      | inl hit ↦ subst IsOpen {x = pf} {y = pf'} (some-injective pf pf' (rw hit at law)) h
      | inr miss ↦ all a p pf' (rw miss at law)
    ]

-- `Analyze` keeps the table as it should be, whatever packet of whatever pid it is given.
pub analyze-AllOpen :
    (caid_of_pid : ℕ → ℕ → ℕ) (adapter : ℕ) (buf : List ℕ) (m : PidMap)
    → AllOpen m
    → AllOpen (analyze caid_of_pid adapter buf m).0
unfolding analyze
analyze-AllOpen caid_of_pid adapter buf m all =
    let pid = packet_pid buf in
    elim (Bool-cases (leb max_csa_pid pid || pid == 0)) [
      | inl e ↦ rw e all
      | inr e ↦ rw e (elim (Option-cases (find (adapter, pid) m)) [
        | inl f ↦ rw f all
        | inr (pf, f) ↦ rw f (
            insert-AllOpen adapter pid (analyze_pid (caid_of_pid adapter pid) buf pf).0 m
              (analyze_pid-IsOpen (caid_of_pid adapter pid) buf pf (all adapter pid pf f)) all)
      ])
    ]
