-- ===== src/Socket/Writing.antt =====
-- `Write` of SocketHandler.cpp: what goes out of a message that `send` takes in parts.
use vdr_plugin_dvbapi.Prelude.{
  ℕ, zero, suc, ◌≤◌, ◌≡◌, refl, ap, ◌∙◌, List, [], ◌∷◌, ◌++◌, append_assoc, length, length-drop,
  take, drop, arith,
}
use vdr_plugin_dvbapi.Socket.{SendEvent, accepted, send_interrupted, refused, complete, write}

take-drop : (n : ℕ) (xs : List ℕ) → take n xs ++ drop n xs ≡ xs
take-drop zero xs = refl
take-drop (suc n) [] = refl
take-drop (suc n) (x ∷ xs) = ap (λ l. x ∷ l) (take-drop n xs)

-- What Write has sent is the beginning of the message, however it ends.
write-prefix :
    (bytes : List ℕ) (es : List SendEvent) → (rest : List ℕ) × ((write bytes es).0 ++ rest ≡ bytes)
unfolding write
write-prefix [] es = ([], refl)
write-prefix (b ∷ bytes) [] = (b ∷ bytes, refl)
write-prefix (b ∷ bytes) (send_interrupted ∷ es) = write-prefix (b ∷ bytes) es
write-prefix (b ∷ bytes) (refused ∷ es) = (b ∷ bytes, refl)
write-prefix (b ∷ bytes) (accepted k ∷ es) =
    let (rest, e) = write-prefix (drop k bytes) es in
    (
      rest,
      ap (λ l. b ∷ l)
          (append_assoc (take k bytes) (write (drop k bytes) es).0 rest
            ∙ ap (λ l. take k bytes ++ l) e
            ∙ take-drop k bytes),
    )

-- The calls that take bytes, where none of the calls fails.
abbrev pub taken : List SendEvent → ℕ
taken [] = 0
taken (accepted k ∷ es) = suc (taken es)
taken (_ ∷ es) = taken es

abbrev pub IsUnbroken : List SendEvent → Type 0
IsUnbroken [] = Unit
IsUnbroken (refused ∷ es) = ⊥
IsUnbroken (_ ∷ es) = IsUnbroken es

-- If no call fails and as many calls take bytes as the message has bytes, Write sends the message
-- whole.
pub write-whole :
    (bytes : List ℕ) (es : List SendEvent)
    → IsUnbroken es
    → length bytes ≤ taken es
    → write bytes es ≡ (bytes, complete)
unfolding write
write-whole [] es u h = refl
write-whole (b ∷ bytes) [] u h = absurd (omega arith)
write-whole (b ∷ bytes) (send_interrupted ∷ es) u h = write-whole (b ∷ bytes) es u h
write-whole (b ∷ bytes) (refused ∷ es) u h = absurd u
write-whole (b ∷ bytes) (accepted k ∷ es) u h =
    let rest = write-whole (drop k bytes) es u (omega (arith, length-drop k bytes)) in
    rw (rest, take-drop k bytes) refl
