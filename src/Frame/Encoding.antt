-- ===== src/Frame/Encoding.antt =====
-- The bytes of a frame behind its length.
use vdr_plugin_dvbapi.Prelude.{
  ℕ, ◌+◌, ◌/◌, ◌%◌, ◌≤◌, ◌<◌, ◌≡◌, refl, sym, ap, ap₂, ◌∙◌, Bool, true, false, ◌&&◌, List, [], ◌∷◌,
  ◌++◌, map, concat, append_assoc, append-nil, ltb, leb, length, take, drop, length-append,
  take-append_length, arith,
}
use vdr_plugin_dvbapi.Frame.{len_off, over, with_length, length_field}

-- A frame behind its length.
unfoldable pub encode : List ℕ → List ℕ
encode d = (length d % 256) ∷ (length d / 256 % 256) ∷ d

-- The beginning of a list that reaches behind `xs`.
pub append_split :
    (xs ys bytes later : List ℕ)
    → bytes ++ later ≡ xs ++ ys
    → length xs ≤ length bytes
    → (more : List ℕ) × (bytes ≡ xs ++ more)
append_split [] ys bytes later e h = (bytes, refl)
append_split (x ∷ xs) ys [] later e h = absurd (omega arith)
append_split (x ∷ xs) ys (b ∷ bytes) later e h =
    let (more, m) = append_split xs ys bytes later (cc e) (omega arith) in
    (more, ap₂ (λ (z : ℕ) (zs : List ℕ). z ∷ zs) (cc e) m)

pub length-encode : (d : List ℕ) → length (encode d) ≡ length d + 2
unfolding encode
length-encode d = omega arith

pub whole_prefix :
    (d bytes : List ℕ) → length d + 2 ≤ length bytes → length (encode d) ≤ length bytes
unfolding encode
whole_prefix d bytes h = omega arith

pub length_field-encode :
    (d more : List ℕ) → length d < 65536 → length_field (encode d ++ more) ≡ length d
unfolding encode
length_field-encode d more h = omega arith

pub with_bytes :
    (d m : List ℕ)
    → length d + 2 ≤ length m
    → take (length d + 2) (with_length (length d) (over d m)) ≡ encode d
unfolding encode
with_bytes d [] h = absurd (omega arith)
with_bytes d (a ∷ []) h = absurd (omega arith)
with_bytes d (a ∷ b ∷ m) h =
    take-append_length (length d + 2) ((length d % 256) ∷ (length d / 256 % 256) ∷ d)
      (drop (2 + length d) (a ∷ b ∷ m)) (omega arith)

pub concat-encode_last :
    (ds : List (List ℕ)) (d : List ℕ)
    → concat (map encode (ds ++ d ∷ [])) ≡ concat (map encode ds) ++ encode d
concat-encode_last [] d = append-nil (encode d)
concat-encode_last (x ∷ ds) d =
    ap (λ l. encode x ++ l) (concat-encode_last ds d)
    ∙ sym (append_assoc (encode x) (concat (map encode ds)) (encode d))

-- Whether frames are left.
abbrev pub is_more : List (List ℕ) → Bool
is_more [] = false
is_more (d ∷ ds) = true

pub encoded_more : (ds : List (List ℕ)) → ltb 0 (length (concat (map encode ds))) ≡ is_more ds
encoded_more [] = refl
encoded_more (d ∷ ds) =
    let e = length-append (encode d) (concat (map encode ds)) in
    let e' = length-encode d in ground arith

pub fits-encode :
    (d more : List ℕ)
    → 0 < length d
    → ltb len_off (length (encode d ++ more))
        && leb (length d + len_off) (length (encode d ++ more))
      ≡ true
fits-encode d more h =
    let e = length-append (encode d) more ∙ ap (λ n. n + length more) (length-encode d) in
    ground arith

pub body-encode : (d more : List ℕ) → take (length d) (drop len_off (encode d ++ more)) ≡ d
unfolding encode
body-encode d more = take-append_length (length d) d more refl
