-- ===== src/Capmt/Message.antt =====
-- The CA_PMT message (`CAPMT::send`) as its receiver reads it.
use mathlib.Core.Option
use vdr_plugin_dvbapi.Prelude.{
  ℕ, ◌+◌, ◌-◌, ◌*◌, ◌/◌, ◌%◌, ◌<◌, ◌≡◌, refl, ap, ◌∙◌, ◌^◌, bit_and, bit_or, true, ◌&&◌, Option,
  none, some, List, [], ◌∷◌, ◌==◌, if◌then◌else◌, length, arith, bit_and_mask, ◌++◌, drop,
  length-append, ==_iff, bit_or_shifted, each_below, each_below_sound,
}
use vdr_plugin_dvbapi.Capmt.{PmtObj, send, new_pmt, program_info_length, no_ecm_info}

-- A CA_PMT of EN 50221 with the descriptors by which OSCam knows adapter and demux, as its fields.
pub record CaPmt : Type 0 where
  pub list_management : ℕ
  pub program_number : ℕ
  pub version : ℕ
  pub reserved : ℕ
  pub info_length : ℕ
  pub cmd_id : ℕ
  pub adapter : ℕ
  pub demux : ℕ
  pub ca : ℕ
  pub rest : List ℕ

-- The reader: the tag, a length of two bytes that is the number of the bytes behind it, the header,
-- and the three descriptors.
pub parse : List ℕ → Option CaPmt
parse
      (t₀ ∷ t₁ ∷ t₂ ∷ l₀ ∷ l₁ ∷ l₂ ∷ lm ∷ n₁ ∷ n₂ ∷ v ∷ i₁ ∷ i₂ ∷ cmd ∷ d₁ ∷ d₂ ∷ a ∷ d₃ ∷ d₄ ∷ x
        ∷ d₅ ∷ d₆ ∷ ca ∷ rest) =
    if t₀ == 0x9F
      && (t₁ == 0x80
          && (t₂ == 0x32
              && (l₀ == 0x82
                  && (l₁ * 256 + l₂ == 16 + length rest
                      && (d₁ == 0x83
                          && (d₂ == 1 && (d₃ == 0x86 && (d₄ == 1 && (d₅ == 0x87 && d₆ == 1)))))))))
    then some (record {
      list_management = lm;
      program_number = n₁ * 256 + n₂;
      version = v;
      reserved = i₁ / 16;
      info_length = i₁ % 16 * 256 + i₂;
      cmd_id = cmd;
      adapter = a;
      demux = x;
      ca = ca;
      rest = rest;
    })
    else none
parse _ = none

-- The bounds under which each field fits the bits that it has in the message.
pub record Fits (adapter_offset ca_lm : ℕ) (p : PmtObj) : Type 0 where
  pub lm_fits : ca_lm < 256
  pub sid_fits : p.sid < 2 ^ 16
  pub adapter_fits : p.adapter + adapter_offset < 256
  pub reserved_fits : p.pireserved < 256
  pub reserved_high : p.pireserved % 16 ≡ 0
  pub pilen_fits : p.pilen + 10 < 2 ^ 12
  pub body_fits : 16 + length p.body < 2 ^ 16

-- The byte that holds the reserved bits and the high bits of the length.
info_byte :
    (r n : ℕ)
    → r < 256
    → r % 16 ≡ 0
    → n < 2 ^ 12
    → bit_or r (bit_and (n / 256) 0x0F) ≡ r / 16 * 16 + n / 256
info_byte r n h e k =
    let high : r ≡ r / 16 * 2 ^ 4 = omega arith in
    let low : bit_and (n / 256) 0x0F ≡ n / 256 = omega (arith, bit_and_mask 4 (n / 256)) in
    rw low (ap (λ t. bit_or t (n / 256)) high ∙ bit_or_shifted 4 (r / 16) (n / 256) (omega arith))

-- A reader of the message finds in it what it was built from: the list management, the service, the
-- device (as adapter and as CA device, the demux being 0), the descramble command, a program info
-- length that counts the command and the three descriptors, and VDR's bytes behind them. The byte of
-- the version is 0.
pub parse-send :
    (adapter_offset ca_lm : ℕ) (p : PmtObj)
    → Fits adapter_offset ca_lm p
    → parse (send adapter_offset ca_lm p)
      ≡ some (record {
        list_management = ca_lm;
        program_number = p.sid;
        version = 0;
        reserved = p.pireserved / 16;
        info_length = p.pilen + 10;
        cmd_id = 1;
        adapter = p.adapter + adapter_offset;
        demux = 0;
        ca = p.adapter + adapter_offset;
        rest = p.body;
      })
unfolding parse send
parse-send adapter_offset ca_lm p h = ground (
  arith,
  info_byte p.pireserved (p.pilen + 1 + 3 + 3 + 3) h.reserved_fits h.reserved_high,
  bit_and_mask 8 (22 + length p.body - 6),
  bit_and_mask 8 p.sid,
  bit_and_mask 8 (p.pilen + 1 + 3 + 3 + 3),
)

reserved_table : each_below (λ i. bit_and i 0xF0 == i / 16 * 16) 256 ≡ true
unfolding each_below
reserved_table = refl

-- A CA_PMT of VDR: the six bytes of the header, the program info, and the elementary streams.
abbrev pub vdr_capmt : ℕ → ℕ → ℕ → ℕ → ℕ → ℕ → List ℕ → List ℕ → List ℕ
vdr_capmt lm n₁ n₂ v i₁ i₂ info streams = lm ∷ n₁ ∷ n₂ ∷ v ∷ i₁ ∷ i₂ ∷ (info ++ streams)

module _ (adapter sid lm n₁ n₂ v i₁ i₂ : ℕ) (info streams : List ℕ)
    (header : i₁ % 16 * 256 + i₂ ≡ length info) where
  abbrev entry : PmtObj
  entry = record {
    sid = sid;
    adapter = adapter;
    pireserved = bit_and i₁ 0xF0;
    pilen = length (drop 1 info);
    body = drop 1 info ++ streams;
    ecm = no_ecm_info;
  }

  new_pmt_info : new_pmt adapter sid (vdr_capmt lm n₁ n₂ v i₁ i₂ info streams) ≡ some entry
  unfolding new_pmt program_info_length
  new_pmt_info = split info header
    where
      split :
          (l : List ℕ)
          → i₁ % 16 * 256 + i₂ ≡ length l
          → new_pmt adapter sid (vdr_capmt lm n₁ n₂ v i₁ i₂ l streams)
            ≡ some (record entry { pilen = length (drop 1 l); body = drop 1 l ++ streams })
      split [] h = ground (arith, bit_and_mask 4 i₁)
      split (c ∷ l) h = ground (arith, bit_and_mask 4 i₁, length-append l streams)

  -- What VDR says of a service reaches OSCam, but for the version, which is sent as 0: of a CA_PMT whose header gives the length of its
  -- program info, the message has the reserved bits, all descriptors of the program info but not
  -- VDR's command in front of them, and the streams; its own program info length counts the
  -- descramble command, the three device descriptors and VDR's descriptors.
  pub parse-send-new_pmt :
      (adapter_offset ca_lm : ℕ)
      → i₁ < 256
      → ca_lm < 256
      → sid < 2 ^ 16
      → adapter + adapter_offset < 256
      → length (drop 1 info) + 10 < 2 ^ 12
      → 16 + length (drop 1 info ++ streams) < 2 ^ 16
      → Option.map
          (λ p. parse (send adapter_offset ca_lm p))
          (new_pmt adapter sid (vdr_capmt lm n₁ n₂ v i₁ i₂ info streams))
        ≡ some (
            some (record {
              list_management = ca_lm;
              program_number = sid;
              version = 0;
              reserved = i₁ / 16;
              info_length = length (drop 1 info) + 10;
              cmd_id = 1;
              adapter = adapter + adapter_offset;
              demux = 0;
              ca = adapter + adapter_offset;
              rest = drop 1 info ++ streams;
            }))
  parse-send-new_pmt adapter_offset ca_lm h₁ h₂ h₃ h₄ h₅ h₆ =
      let reserved : bit_and i₁ 0xF0 ≡ i₁ / 16 * 16 =
        (==_iff _ _).0 (each_below_sound _ _ i₁ reserved_table h₁) in
      let fits : Fits adapter_offset ca_lm entry = record {
        lm_fits = h₂;
        sid_fits = h₃;
        adapter_fits = h₄;
        reserved_fits = rw reserved (omega arith);
        reserved_high = rw reserved (omega arith);
        pilen_fits = h₅;
        body_fits = h₆;
      } in
      let high : bit_and i₁ 0xF0 / 16 ≡ i₁ / 16 = rw reserved (omega arith) in
      rw new_pmt_info (ap some (parse-send adapter_offset ca_lm entry fits ∙ rw high refl))
