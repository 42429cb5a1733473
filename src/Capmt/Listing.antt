-- ===== src/Capmt/Listing.antt =====
-- The list management of the messages that `CAPMT::SendAll` sends.
use mathlib.Core.Option
use vdr_plugin_dvbapi.Prelude.{
  ℕ, zero, suc, ◌+◌, ◌<◌, ◌≡◌, refl, ◌∙◌, Option, none, some, List, [], ◌∷◌, ◌==◌, if◌then◌else◌,
  length, get_elem?, arith,
}
use vdr_plugin_dvbapi.Capmt.{
  PmtObj, send, send_from, send_all, list_more, list_first, stop_descrambling,
}

-- EN 50221: bit 0 marks the first message of a list, bit 1 the last.
abbrev pub list_management : ℕ → ℕ → ℕ
list_management i n = (if i == 0 then 1 else 0) + (if i + 1 == n then 2 else 0)

-- The message of the `i`-th service of a list that starts with the list management `lm`.
abbrev nth_message : ℕ → ℕ → ℕ → ℕ → Option PmtObj → Option (List ℕ)
nth_message adapter_offset lm i n none = none
nth_message adapter_offset lm i n (some p) =
    some (send adapter_offset ((if i == 0 then lm else 0) + (if i + 1 == n then 2 else 0)) p)

module _ (adapter_offset : ℕ) where
  nth-send_from :
      (lm : ℕ) (ps : List PmtObj) (i : ℕ)
      → lm < 2
      → get_elem? (send_from adapter_offset lm ps) i
        ≡ nth_message adapter_offset lm i (length ps) (get_elem? ps i)
  unfolding send_from
  nth-send_from lm [] i h = refl
  nth-send_from zero (p ∷ []) zero h = refl
  nth-send_from (suc zero) (p ∷ []) zero h = refl
  nth-send_from (suc (suc lm)) (p ∷ []) zero h = absurd (omega arith)
  nth-send_from lm (p ∷ []) (suc i) h = refl
  nth-send_from lm (p ∷ q ∷ ps) zero h = ground arith
  nth-send_from lm (p ∷ q ∷ ps) (suc i) h =
      nth-send_from list_more (q ∷ ps) i (omega arith) ∙ shift (get_elem? (q ∷ ps) i)
    where
      shift :
          (o : Option PmtObj)
          → nth_message adapter_offset list_more i (length (q ∷ ps)) o
            ≡ nth_message adapter_offset lm (suc i) (length (p ∷ q ∷ ps)) o
      shift none = refl
      shift (some r) = ground arith

  -- With services to descramble, `SendAll` sends one message for each, in the order of the list; the
  -- first is marked as the first, the last as the last, a single one as both, and no other is marked.
  -- Without, it sends the one message that stops descrambling.
  pub nth-send_all :
      (p : PmtObj) (ps : List PmtObj) (i : ℕ)
      → (send_all adapter_offset [] ≡ stop_descrambling ∷ [])
        × (get_elem? (send_all adapter_offset (p ∷ ps)) i
            ≡ Option.map
                (send adapter_offset (list_management i (length (p ∷ ps))))
                (get_elem? (p ∷ ps) i))
  unfolding send_all
  nth-send_all p ps i =
      (refl, nth-send_from list_first (p ∷ ps) i (omega arith) ∙ as_map (get_elem? (p ∷ ps) i))
    where
      as_map :
          (o : Option PmtObj)
          → nth_message adapter_offset list_first i (length (p ∷ ps)) o
            ≡ Option.map (send adapter_offset (list_management i (length (p ∷ ps)))) o
      as_map none = refl
      as_map (some r) = refl
