-- ===== src/Socket/Messages/Stream.antt =====
-- `HandleMessage` of SocketHandler.cpp: reading a message from the socket and from plain bytes.
use mathlib.Core.Option.{some-injective}
use vdr_plugin_dvbapi.Prelude.{
  ℕ, ◌≡◌, refl, ◌∙◌, sym, ap, inl, inr, Bool-cases, true, false, List, Option, none, some, leb,
  length, take, drop, arith, if◌then◌else◌,
}
use vdr_plugin_dvbapi.Socket.{RecvEvent, receive}
use vdr_plugin_dvbapi.Socket.Segments.{content, receive-content}
use vdr_plugin_dvbapi.Socket.Messages.{Reading, fail, done, get, run, Call, Codes, read_message}

module _ {A : Type 0} where
  -- A reader over bytes that are all there.
  unfoldable pub run_bytes : Reading A → List ℕ → Option (A × List ℕ)
  run_bytes fail bytes = none
  run_bytes (done a) bytes = some (a, bytes)
  run_bytes (get n k) bytes =
      let rest = run_bytes (k (take n bytes)) (drop n bytes) in
      if leb n (length bytes) then rest else none

  pub run_bytes-done : (a : A) (bytes : List ℕ) → run_bytes (done a) bytes ≡ some (a, bytes)
  unfolding run_bytes
  run_bytes-done a bytes = refl

  run-got :
      (n : ℕ) (k : List ℕ → Reading A) (es es' : List RecvEvent) {bytes : List ℕ}
      → receive n es ≡ some (bytes, es')
      → run (get n k) es ≡ run (k bytes) es'
  unfolding run
  run-got n k es es' e = rw (e, run) refl

  pub run_bytes-there :
      (n : ℕ) (k : List ℕ → Reading A) (bytes : List ℕ)
      → leb n (length bytes) ≡ true
      → run_bytes (get n k) bytes ≡ run_bytes (k (take n bytes)) (drop n bytes)
  unfolding run_bytes
  run_bytes-there n k bytes e = rw e refl

  run_bytes-short :
      (n : ℕ) (k : List ℕ → Reading A) (bytes : List ℕ)
      → leb n (length bytes) ≡ false
      → run_bytes (get n k) bytes ≡ none
  unfolding run_bytes
  run_bytes-short n k bytes e = rw e refl

  run-content :
      (p : Reading A) (es : List RecvEvent) (a : A) (rest : List ℕ)
      → run_bytes p (content es) ≡ some (a, rest)
      → (es' : List RecvEvent) × (run p es ≡ some (a, es')) × (content es' ≡ rest)
  unfolding run run_bytes
  run-content fail es a rest h = absurd (cc h)
  run-content (done b) es a rest h =
      let same_pair = some-injective (b, content es) (a, rest) h in
      (es, ap (λ r. some (r.0, es)) same_pair, ap (λ r. r.1) same_pair)
  run-content (get n k) es a rest h = elim (Bool-cases (leb n (length (content es)))) [
    | inl there ↦
        let (es', got, left) = receive-content n es (ground arith) in
        let (es'', e, f) =
          run-content (k (take n (content es))) es' a rest
            (rw left (sym (run_bytes-there n k (content es) there) ∙ h)) in
        (es'', run-got n k es es' got ∙ e, f)
    | inr short ↦ absurd (cc (sym (run_bytes-short n k (content es) short) ∙ h))
  ]

-- What a message makes the plugin do does not depend on how TCP cuts the stream into segments: where
-- the bytes hold a message that HandleMessage accepts, reading it from the socket makes the same
-- calls and leaves the bytes behind it.
pub read_message-content :
    (codes : Codes) (offset : ℕ) (es : List RecvEvent) (calls : List Call) (rest : List ℕ)
    → run_bytes (read_message codes offset) (content es) ≡ some (calls, rest)
    → (es' : List RecvEvent) × (run (read_message codes offset) es ≡ some (calls, es'))
      × (content es' ≡ rest)
read_message-content codes offset = run-content (read_message codes offset)
