-- ===== src/Prelude/Maps.antt =====
-- `std::map` as an association list in the order of its keys, over any ordered key.
use Prim.Native.Nat.{ℕ, compare, Ordering, lt, eq, gt}
use mathlib.Core.Path.{◌≡◌, refl}
use mathlib.Core.Logic.{◌↔◌}
use mathlib.Core.Bool.{Bool, true, false}
use mathlib.Core.Option.{Option, none, some}
use mathlib.Core.List.{List, [], ◌∷◌}
use native.Mathlib.Omega.{arith}
use vdr_plugin_dvbapi.Prelude.Tests.{if◌then◌else◌}

-- `std::less` of a key type, as a comparison in three ways.
pub record Ord (K : Type 0) : Type 0 where
  pub cmp : K → K → Ordering
  pub cmp_eq : (a b : K) → (cmp a b ≡ eq) ↔ (a ≡ b)

pub compare-eq : (a b : ℕ) → (compare a b ≡ eq) ↔ (a ≡ b)
compare-eq a b = ground arith

instance abbrev pub nat_ord : Ord ℕ
nat_ord = record { cmp = compare; cmp_eq = compare-eq }

-- `std::pair` compares its first parts first.
abbrev pub pair_cmp : ℕ × ℕ → ℕ × ℕ → Ordering
pair_cmp (a, b) (c, d) = elim (compare a c) [ eq ↦ compare b d | lt ↦ lt | gt ↦ gt ]

pub pair_cmp-eq : (p q : ℕ × ℕ) → (pair_cmp p q ≡ eq) ↔ (p ≡ q)
pair_cmp-eq (a, b) (c, d) = ground arith

instance abbrev pub pair_ord : Ord (ℕ × ℕ)
pair_ord = record { cmp = pair_cmp; cmp_eq = pair_cmp-eq }

abbrev pub same : {K : Type 0} ⦃o : Ord K⦄ → K → K → Bool
same ⦃o⦄ a b = elim (o.cmp a b) [ eq ↦ true | _ ↦ false ]

pub same_iff : {K : Type 0} ⦃o : Ord K⦄ (a b : K) → (same a b ≡ true) ↔ (a ≡ b)
same_iff ⦃o⦄ a b = ground (arith, o.cmp_eq a b)

module _ {ℓ} {K : Type 0} {V : Type ℓ} ⦃o : Ord K⦄ where
  -- `m.find(k)`.
  unfoldable pub find : K → List (K × V) → Option V
  find k [] = none
  find k ((j, v) ∷ m) = if same k j then some v else find k m

  -- `m[k] = v`.
  unfoldable pub insert : K → V → List (K × V) → List (K × V)
  insert k v [] = (k, v) ∷ []
  insert k v ((j, w) ∷ m) = elim (o.cmp k j) [
    | lt ↦ (k, v) ∷ (j, w) ∷ m
    | eq ↦ (k, v) ∷ m
    | gt ↦ (j, w) ∷ insert k v m
  ]

  -- `m.erase(k)`.
  unfoldable pub erase : K → List (K × V) → List (K × V)
  erase k [] = []
  erase k ((j, w) ∷ m) = if same k j then erase k m else (j, w) ∷ erase k m

  pub find-insert :
      (k j : K) (v : V) (m : List (K × V))
      → find j (insert k v m) ≡ (if same j k then some v else find j m)
  unfolding find insert
  find-insert k j v [] = refl
  find-insert k j v ((i, w) ∷ m) =
      ground (arith, o.cmp_eq k i, o.cmp_eq j i, o.cmp_eq j k, find-insert k j v m)

  pub find-erase :
      (k j : K) (m : List (K × V)) → find j (erase k m) ≡ (if same j k then none else find j m)
  unfolding find erase
  find-erase k j [] = ground arith
  find-erase k j ((i, w) ∷ m) =
      ground (arith, o.cmp_eq k i, o.cmp_eq j i, o.cmp_eq j k, find-erase k j m)
