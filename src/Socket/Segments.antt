-- ===== src/Socket/Segments.antt =====
-- `Receive` of SocketHandler.cpp and the segments that TCP cuts the stream into.
use vdr_plugin_dvbapi.Prelude.{
  ℕ, zero, suc, ◌-◌, ◌≤◌, ◌<◌, ◌≡◌, refl, sym, ap, ◌∙◌, inl, inr, Bool-cases, true, false, some,
  List, [], ◌∷◌, ◌++◌, length, length-append, take, drop, leb, take-append_le, take-append_ge,
  arith,
}
use vdr_plugin_dvbapi.Socket.{RecvEvent, arrived, again, over, leftover, receive}

-- The bytes of a script, up to where it is over.
unfoldable pub content : List RecvEvent → List ℕ
content [] = []
content (arrived b bytes ∷ es) = b ∷ bytes ++ content es
content (again ∷ es) = content es
content (over ∷ es) = []

content-leftover :
    (bytes : List ℕ) (es : List RecvEvent) → content (leftover bytes es) ≡ bytes ++ content es
unfolding content leftover
content-leftover [] es = refl
content-leftover (b ∷ bytes) es = refl

drop-append_ge :
    (n : ℕ) (xs ys : List ℕ) → length xs ≤ n → drop n (xs ++ ys) ≡ drop (n - length xs) ys
drop-append_ge n [] ys h = ap (λ m. drop m ys) (omega arith)
drop-append_ge zero (x ∷ xs) ys h = absurd (omega arith)
drop-append_ge (suc n) (x ∷ xs) ys h =
    drop-append_ge n xs ys (omega arith) ∙ ap (λ m. drop m ys) (omega arith)

drop-append_le : (n : ℕ) (xs ys : List ℕ) → n ≤ length xs → drop n (xs ++ ys) ≡ drop n xs ++ ys
drop-append_le zero xs ys h = refl
drop-append_le (suc n) [] ys h = absurd (omega arith)
drop-append_le (suc n) (x ∷ xs) ys h = drop-append_le n xs ys (omega arith)

-- Receive returns the first `n` bytes of the stream and leaves the others.
abbrev Receives : ℕ → List RecvEvent → Type 0
Receives n es =
    (es' : List RecvEvent) × (receive n es ≡ some (take n (content es), es'))
    × (content es' ≡ drop n (content es))

receive-long :
    (n b : ℕ) (bytes : List ℕ) (es : List RecvEvent)
    → n < length bytes
    → Receives (suc n) (arrived b bytes ∷ es)
unfolding receive content
receive-long n b bytes es h =
    let longer : leb (length bytes) n ≡ false = ground arith in
    let e1 = take-append_le n bytes (content es) (omega arith) in
    let e2 = drop-append_le n bytes (content es) (omega arith) in
    (
      leftover (drop n bytes) es,
      rw longer (rw e1 refl),
      content-leftover (drop n bytes) es ∙ sym e2,
    )

receive-short :
    (n b : ℕ) (bytes : List ℕ) (es : List RecvEvent)
    → length bytes ≤ n
    → Receives (n - length bytes) es
    → Receives (suc n) (arrived b bytes ∷ es)
unfolding receive content
receive-short n b bytes es h (es', got, left) =
    let shorter : leb (length bytes) n ≡ true = ground arith in
    let e1 = take-append_ge n (n - length bytes) bytes (content es) (omega arith) in
    let e2 = drop-append_ge n bytes (content es) h in
    (es', rw shorter (rw (got, e1) refl), left ∙ sym e2)

-- If the stream has as many bytes as are asked for, Receive returns the first of them and leaves the
-- others, however they are cut into segments.
pub receive-content :
    (n : ℕ) (es : List RecvEvent)
    → n ≤ length (content es)
    → (es' : List RecvEvent) × (receive n es ≡ some (take n (content es), es'))
      × (content es' ≡ drop n (content es))
unfolding receive content
receive-content zero es h = (es, refl, refl)
receive-content (suc n) [] h = absurd (omega arith)
receive-content (suc n) (again ∷ es) h = receive-content (suc n) es h
receive-content (suc n) (over ∷ es) h = absurd (omega arith)
receive-content (suc n) (arrived b bytes ∷ es) h = elim (Bool-cases (leb (length bytes) n)) [
  | inl shorter ↦
      receive-short n b bytes es (ground arith)
        (receive-content (n - length bytes) es (omega (arith, length-append bytes (content es))))
  | inr longer ↦ receive-long n b bytes es (ground arith)
]
