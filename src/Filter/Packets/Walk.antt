-- ===== src/Filter/Packets/Walk.antt =====
-- The sections of one packet (`walk`, the loop at the end of `Analyze`).
use native.Mathlib.Nat.{le_refl}
use vdr_plugin_dvbapi.Prelude.{
  ℕ, zero, suc, ◌≤◌, ◌<◌, ◌≡◌, ◌≢◌, refl, sym, ap, ◌∙◌, ◌⊎◌, List, [], ◌∷◌, ◌++◌, arith, length,
  take, drop, concat, All, length-append, length-drop, append_assoc, append-nil, take-append_length,
  drop-append_length,
}
use vdr_plugin_dvbapi.Filter.{
  byte, PidFilters, Step, ◌then_do◌, then_do_lem, total_len, clear, deliver,
}
use vdr_plugin_dvbapi.Filter.Packets.{walk, walk_payload}
use vdr_plugin_dvbapi.Filter.Assembly.{IsSection, total_len-append, arrived, collect_part}

-- A section that a packet can start with: its table id is no stuffing byte.
abbrev pub IsTable : List ℕ → Type 0
IsTable s = IsSection s × (byte s 0 ≢ 0xFF)

-- The deliveries of the sections, one after the other.
pub deliver_each : ℕ → List (List ℕ) → Step
deliver_each caid [] pf = (pf, [])
deliver_each caid (s ∷ ss) pf = (deliver caid s then_do deliver_each caid ss) pf

module _ (caid : ℕ) where
  -- One round of the loop at a whole section.
  walk_section :
      (fuel : ℕ) (s rest : List ℕ) (pf : PidFilters)
      → IsTable s
      → walk caid (suc fuel) (s ++ rest) pf ≡ (deliver caid s then_do walk caid fuel rest) pf
  unfolding walk
  walk_section fuel [] rest pf h = absurd (omega arith)
  walk_section fuel (b ∷ s) rest pf h = ground (
    arith,
    total_len-append (b ∷ s) rest,
    length-append (b ∷ s) rest,
    take-append_length (length (b ∷ s)) (b ∷ s) rest,
    drop-append_length (length (b ∷ s)) (b ∷ s) rest,
  )

  -- The loop does not stop for want of rounds: with as many as there are bytes left, or more, the
  -- number makes no difference.
  walk_rounds :
      (n m : ℕ) (p : List ℕ) (pf : PidFilters)
      → length p ≤ n
      → length p ≤ m
      → walk caid n p pf ≡ walk caid m p pf
  unfolding walk
  walk_rounds zero zero p pf h k = refl
  walk_rounds zero (suc m) [] pf h k = refl
  walk_rounds zero (suc m) (b ∷ p) pf h k = absurd (omega arith)
  walk_rounds (suc n) zero [] pf h k = refl
  walk_rounds (suc n) zero (b ∷ p) pf h k = absurd (omega arith)
  walk_rounds (suc n) (suc m) [] pf h k = refl
  walk_rounds (suc n) (suc m) (b ∷ p) pf h k =
      let seclen = total_len (b ∷ p) in
      let pf' = (deliver caid (take seclen (b ∷ p)) pf).0 in
      ground (arith, walk_rounds n m (drop seclen (b ∷ p)) pf', length-drop seclen (b ∷ p))

then_do_assoc :
    (a b c : Step) (pf : PidFilters) → (a then_do (b then_do c)) pf ≡ ((a then_do b) then_do c) pf
then_do_assoc a b c pf =
    ap (λ sent. ((c (b (a pf).0).0).0, sent)) (sym (append_assoc (a pf).1 (b (a pf).0).1 _))

module _ (caid : ℕ) where
  -- Sections that stand whole at the start of the bytes are delivered in their order; the loop goes
  -- on with what follows them.
  walk-concat :
      (ss : List (List ℕ)) (n : ℕ) (tail : List ℕ) (pf : PidFilters)
      → All IsTable ss
      → length (concat ss ++ tail) ≤ n
      → walk caid n (concat ss ++ tail) pf
        ≡ (deliver_each caid ss then_do walk_payload caid tail) pf
  unfolding deliver_each walk_payload
  walk-concat [] n tail pf h k = walk_rounds caid n (length tail) tail pf k (le_refl _)
  walk-concat (s ∷ ss) zero tail pf h k =
      absurd (omega (arith, length-append (s ++ concat ss) tail, length-append s (concat ss)))
  walk-concat (s ∷ ss) (suc n) tail pf h k =
      let pf' = (deliver caid s pf).0 in
      let rest : walk caid n (concat ss ++ tail) pf'
          ≡ (deliver_each caid ss then_do walk_payload caid tail) pf' =
        walk-concat ss n tail pf' h.1 (
          omega (
            arith,
            ap length (append_assoc s (concat ss) tail),
            length-append s (concat ss ++ tail),
          )) in
      rw append_assoc (
        walk_section caid n s (concat ss ++ tail) pf h.0
        ∙ then_do_lem (deliver caid s) (walk caid n (concat ss ++ tail)) refl rest
        ∙ then_do_assoc (deliver caid s) (deliver_each caid ss) (walk_payload caid tail) pf)

  -- The bytes at which the loop ends: none, or stuffing.
  pub walk_payload_stuffing :
      (tail : List ℕ) (pf : PidFilters)
      → (tail ≡ []) ⊎ (byte tail 0 ≡ 0xFF)
      → walk_payload caid tail pf ≡ (pf, [])
  unfolding walk_payload walk
  walk_payload_stuffing [] pf h = refl
  walk_payload_stuffing (b ∷ tail) pf h = ground arith

  -- The first bytes of a section that does not end in the packet are kept.
  pub walk_payload_start :
      (u t s : List ℕ) (pf : PidFilters)
      → IsTable s
      → u ++ t ≡ s
      → 0 < length u
      → length u < length s
      → walk_payload caid u (clear pf) ≡ (arrived pf s u, [])
  unfolding walk_payload walk
  walk_payload_start [] t s pf h e k l = absurd (omega arith)
  walk_payload_start (b ∷ u) t s pf h e k l = ground (
    arith,
    total_len-append (b ∷ u) t,
    ap total_len e,
    ap (λ s. byte s 0) e,
    collect_part pf s h.0 caid [] (b ∷ u) t e l,
  )

  -- The sections that stand whole in the new part of a packet are all delivered, in their order,
  -- and the loop then does what it does with the bytes behind them.
  walk_payload-concat :
      (ss : List (List ℕ)) (tail : List ℕ) (pf : PidFilters) {q : PidFilters}
      → All IsTable ss
      → walk_payload caid tail (deliver_each caid ss pf).0 ≡ (q, [])
      → walk_payload caid (concat ss ++ tail) pf ≡ (q, (deliver_each caid ss pf).1)
  unfolding walk_payload
  walk_payload-concat ss tail pf {q} h e =
      walk-concat ss (length (concat ss ++ tail)) tail pf h (le_refl _)
      ∙ then_do_lem (deliver_each caid ss) (walk_payload caid tail) refl e
      ∙ ap (λ sent. (q, sent)) (append-nil (deliver_each caid ss pf).1)
