-- ===== src/Slot/Length.antt =====
-- `SetSize`, `LengthSize` and `GetLength`: the length fields of TPDUs and tagged objects.
use vdr_plugin_dvbapi.Prelude.{
  ℕ, ◌+◌, ◌*◌, ◌/◌, ◌%◌, ◌<◌, ◌≡◌, refl, Bool-cases, inl, inr, bit_and, bit_and_mask, true, some,
  List, ◌∷◌, ◌++◌, ltb, ltb_iff, ◌==◌, ==_iff, each_below, each_below_sound, length, arith,
}
use vdr_plugin_dvbapi.Slot.{get_length, length_bytes, set_size, length_size}

low_table : each_below (λ b. bit_and b 0x80 == 0) 128 ≡ true
unfolding each_below
low_table = refl

-- A byte below 128 is a length.
pub get_length-low : (b : ℕ) (p : List ℕ) → b < 128 → get_length (b ∷ p) ≡ some (b, p)
unfolding get_length
get_length-low b p h =
    let clear : bit_and b 0x80 ≡ 0 = (==_iff _ _).0 (each_below_sound _ _ b low_table h) in
    rw clear refl

-- Two bytes behind the indicator are a length.
pub get_length-two :
    (high low : ℕ) (p : List ℕ)
    → high < 256
    → low < 256
    → get_length (0x82 ∷ high ∷ low ∷ p) ≡ some (high * 256 + low, p)
unfolding get_length length_bytes
get_length-two high low p hh hl = ground arith

-- GetLength reads what SetSize wrote, for any length below 65536, and stops behind it.
pub get_length-set_size :
    (n : ℕ) (rest : List ℕ) → n < 65536 → get_length (set_size n ++ rest) ≡ some (n, rest)
unfolding set_size
get_length-set_size n rest h = elim (Bool-cases (ltb n 0x80)) [
  | inl e ↦ rw e (get_length-low n rest ((ltb_iff n 0x80).0 e))
  | inr e ↦
      let low : bit_and n 0xFF ≡ n % 256 = bit_and_mask 8 n in
      let whole : (n / 256 % 256) * 256 + n % 256 ≡ n = omega arith in
      rw (e, low, get_length-two (n / 256 % 256) (n % 256) rest (omega arith) (omega arith), whole)
        refl
]

pub length-set_size : (n : ℕ) → length (set_size n) ≡ length_size n
unfolding set_size length_size
length-set_size n = ground arith
