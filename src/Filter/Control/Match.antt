-- ===== src/Filter/Control/Match.antt =====
-- Which sections a filter gets (`Deliver`), in terms of what `SetFilter` was given.
use vdr_plugin_dvbapi.Prelude.{
  ℕ_discrete, ap₂, ◌∙◌, ℕ, zero, suc, ◌+◌, ◌≤◌, ◌<◌, ◌≡◌, refl, ◌↔◌, true, List, [], ◌∷◌, arith,
  length, take, bit_and, ==_iff, get_or-take, length-take,
}
use vdr_plugin_dvbapi.Filter.{byte, dmx_filter_size, DmxFilter, filter_pos, matches_from, matches}
use vdr_plugin_dvbapi.Filter.Control.{and_bytes, store}

-- The section has the filter's bytes, under its mask.
abbrev pub Accepts : DmxFilter → List ℕ → Type 0
Accepts f s =
    (i : ℕ)
    → i < dmx_filter_size
    → bit_and (byte s (filter_pos i)) (byte f.mask i) ≡ byte f.filter i

matches_from_sound :
    (s : List ℕ) (f : DmxFilter) (n i j : ℕ)
    → matches_from s f i n ≡ true
    → i ≤ j
    → j < i + n
    → bit_and (byte s (filter_pos j)) (byte f.mask j) ≡ byte f.filter j
unfolding matches_from
matches_from_sound s f zero i j h p q = absurd (omega arith)
matches_from_sound s f (suc n) i j h p q = elim (ℕ_discrete i j) [
  | yes e ↦ rw (← e) (ground arith)
  | no ne ↦ ground (arith, matches_from_sound s f n (i + 1) j)
]

matches_from_complete :
    (s : List ℕ) (f : DmxFilter) (n i : ℕ)
    → ((j : ℕ)
        → i ≤ j
        → j < i + n
        → bit_and (byte s (filter_pos j)) (byte f.mask j) ≡ byte f.filter j)
    → matches_from s f i n ≡ true
unfolding matches_from
matches_from_complete s f zero i h = refl
matches_from_complete s f (suc n) i h =
    rw ((==_iff _ _).1 (h i (omega arith) (omega arith)))
      (matches_from_complete s f n (i + 1) (λ j p q. h j (omega arith) (omega arith)))

pub matches-iff-Accepts : (s : List ℕ) (f : DmxFilter) → (matches s f ≡ true) ↔ Accepts f s
unfolding matches
matches-iff-Accepts s f = (
  λ h i k. matches_from_sound s f dmx_filter_size 0 i h (omega arith) (omega arith),
  λ h. matches_from_complete s f dmx_filter_size 0 (λ j p q. h j (omega arith)),
)

byte-and_bytes :
    (xs ys : List ℕ) (i : ℕ)
    → i < length xs
    → i < length ys
    → byte (and_bytes xs ys) i ≡ bit_and (byte xs i) (byte ys i)
unfolding and_bytes
byte-and_bytes [] ys i h k = absurd (omega arith)
byte-and_bytes (x ∷ xs) [] i h k = absurd (omega arith)
byte-and_bytes (x ∷ xs) (y ∷ ys) zero h k = refl
byte-and_bytes (x ∷ xs) (y ∷ ys) (suc i) h k = byte-and_bytes xs ys i (omega arith) (omega arith)

module _ (demux num : ℕ) (flt mask : List ℕ) (flt_size : length flt ≡ 16)
    (mask_size : length mask ≡ 16) where
  stored_byte :
      (f : DmxFilter) (i : ℕ)
      → i < 16
      → (byte (store demux num flt mask f).filter i ≡ bit_and (byte flt i) (byte mask i))
        × (byte (store demux num flt mask f).mask i ≡ byte mask i)
  unfolding store
  stored_byte f i h = (
    byte-and_bytes (take 16 flt) (take 16 mask) i (omega (arith, length-take 16 flt))
          (omega (arith, length-take 16 mask))
        ∙ ap₂ bit_and (get_or-take 16 flt i 0 h) (get_or-take 16 mask i 0 h),
    get_or-take 16 mask i 0 h,
  )

  -- A filter that was set with 16 bytes and 16 mask bytes gets exactly the sections that agree with
  -- these bytes under the mask: byte 0 with the table id, byte `i` with byte `i + 2` of the section.
  matches-store :
      (f : DmxFilter) (s : List ℕ)
      → (matches s (store demux num flt mask f) ≡ true) ↔ (
          (i : ℕ)
          → i < 16
          → bit_and (byte s (filter_pos i)) (byte mask i) ≡ bit_and (byte flt i) (byte mask i))
  matches-store f s =
      let g = store demux num flt mask f in
      let accepts = matches-iff-Accepts s g in
      (
        λ h i k. let b = stored_byte f i k in (rw (b.1, b.0) at (accepts.0 h i k)),
        λ h. accepts.1 (λ i k. let b = stored_byte f i k in rw (b.1, b.0) (h i k)),
      )
