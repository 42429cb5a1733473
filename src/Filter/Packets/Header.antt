-- ===== src/Filter/Packets/Header.antt =====
-- What `Analyze` reads in the header of a packet that has a payload and no adaptation field.
use vdr_plugin_dvbapi.Prelude.{
  ℕ, ◌+◌, ◌/◌, ◌%◌, ◌<◌, ◌≡◌, refl, ◌∙◌, Bool, true, false, not, ◌&&◌, List, [], some, ◌∷◌, arith,
  length, take, drop, take_all, if◌then◌else◌, ◌==◌, bit_and, each_below, each_below_sound,
  pair_ord, bit_and_mask,
}
use vdr_plugin_dvbapi.Filter.{byte, PidFilters, collect}
use vdr_plugin_dvbapi.Filter.Packets.{
  payload, analyze_pid, is_continuous, has_payload, payload_offset,
}

-- A packet of a pid with a payload and no adaptation field.
pub packet : Bool → ℕ → ℕ → List ℕ → List ℕ
packet pusi pid counter body =
    0x47 ∷ ((if pusi then 0x40 else 0) + pid / 256) ∷ (pid % 256) ∷ (0x10 + counter) ∷ body

-- What `Analyze` reads in the header of such a packet.
pusi_table :
    each_below (λ h. bit_and (0x40 + h) 0x40 == 0x40 && bit_and (0 + h) 0x40 == 0) 32 ≡ true
unfolding each_below
pusi_table = refl

control_table :
    each_below
      (λ c.
        has_payload (0 ∷ 0 ∷ 0 ∷ (0x10 + c) ∷ [])
        && (payload_offset (0 ∷ 0 ∷ 0 ∷ (0x10 + c) ∷ []) == 4 && bit_and (0x10 + c) 0x0F == c))
      16
    ≡ true
unfolding each_below has_payload payload_offset
control_table = refl

module _ (pusi : Bool) (pid counter : ℕ) (body : List ℕ) where
  packet_pusi :
      pid < 0x2000 → not (bit_and (byte (packet pusi pid counter body) 1) 0x40 == 0) ≡ pusi
  unfolding packet
  packet_pusi h = flags pusi
    where
      entry : (bit_and (0x40 + pid / 256) 0x40 == 0x40 && bit_and (0 + pid / 256) 0x40 == 0) ≡ true
      entry = each_below_sound _ _ (pid / 256) pusi_table (omega arith)

      set_bit : bit_and (0x40 + pid / 256) 0x40 ≡ 0x40
      set_bit = ground (arith, entry)

      clear_bit : bit_and (0 + pid / 256) 0x40 ≡ 0
      clear_bit = ground (arith, entry)

      flags : (b : Bool) → not (bit_and ((if b then 0x40 else 0) + pid / 256) 0x40 == 0) ≡ b
      flags true = rw set_bit refl
      flags false = rw clear_bit refl

  packet_control :
      counter < 16
      → (has_payload (packet pusi pid counter body) ≡ true)
        × (payload_offset (packet pusi pid counter body) ≡ 4)
        × (bit_and (byte (packet pusi pid counter body) 3) 0x0F ≡ counter)
  unfolding packet has_payload payload_offset
  packet_control h = ground (arith, each_below_sound _ _ counter control_table)

module _ (caid : ℕ) where
  -- `Analyze` takes such a packet for what it is.
  pub analyze_pid-packet :
      (pusi : Bool) (pid counter : ℕ) (body : List ℕ) (pf : PidFilters)
      → pid < 0x2000
      → counter < 16
      → length body ≡ 184
      → analyze_pid caid (packet pusi pid counter body) pf
        ≡ payload caid pusi
            (is_continuous pf.lastcc counter)
            body
            (record pf { lastcc = some counter })
  unfolding analyze_pid
  analyze_pid-packet pusi pid counter body pf h k l =
      let control = packet_control pusi pid counter body k in
      rw (packet_pusi pusi pid counter body h, control.0, control.1, control.2)
        (rw (body_of_packet) refl)
    where
      body_of_packet : take 184 (drop 4 (packet pusi pid counter body)) ≡ body
      body_of_packet = unfold packet in take_all 184 body (omega arith)

module _ (caid pid : ℕ) (pid_fits : pid < 0x2000) where
  pub next_counter : (k : ℕ) → is_continuous (some (k % 16)) ((k + 1) % 16) ≡ true
  unfolding is_continuous
  next_counter k = ground (arith, bit_and_mask 4 (k % 16 + 1))

  -- A packet that goes on with a section.
  pub continue_packet :
      (k : ℕ) (body : List ℕ) (pf : PidFilters)
      → length body ≡ 184
      → pf.lastcc ≡ some (k % 16)
      → 0 < length pf.section
      → analyze_pid caid (packet false pid ((k + 1) % 16) body) pf
        ≡ collect caid body (record pf { lastcc = some ((k + 1) % 16) })
  continue_packet k [] pf h e l = absurd (omega arith)
  continue_packet k (b ∷ body) pf h e l =
      analyze_pid-packet caid false pid ((k + 1) % 16) (b ∷ body) pf pid_fits (omega arith) h
      ∙ rw (e, next_counter k) (unfold payload in ground arith)
