-- ===== src/Socket.antt =====
-- SocketHandler.cpp: the TCP connection to OSCam. What `send` and `recv` of the system do is a script
-- of events, one for each call.
mod Tests
pub mod Writing
pub mod Segments
pub mod Messages
pub mod Connection
use vdr_plugin_dvbapi.Prelude.{
  ℕ, zero, suc, ◌+◌, ◌-◌, ◌*◌, List, [], ◌∷◌, ◌++◌, Option, none, some, leb, length, take, drop,
  if◌then◌else◌,
}

-- What one call of `send` does: it takes as many bytes as there are up to `1 + k`, is interrupted, or
-- fails (or makes no progress).
pub data SendEvent : Type 0 where
  accepted : ℕ → SendEvent
  send_interrupted : SendEvent
  refused : SendEvent

-- How `Write` ends: all is sent, or the socket is shut down, or the script ends before.
pub data Outcome : Type 0 where
  complete broken blocked : Outcome

-- `Write`, on an open socket: the bytes that went out, and how it ends.
pub write : List ℕ → List SendEvent → List ℕ × Outcome
write [] es = ([], complete)
write (b ∷ bytes) [] = ([], blocked)
write (b ∷ bytes) (send_interrupted ∷ es) = write (b ∷ bytes) es
write (b ∷ bytes) (refused ∷ es) = ([], broken)
write (b ∷ bytes) (accepted k ∷ es) =
    let (sent, outcome) = write (drop k bytes) es in (b ∷ take k bytes ++ sent, outcome)

-- What one call of `recv` does, with the `poll` behind it: bytes arrive (a first one and more), it
-- is to be tried again (EINTR, or EAGAIN and the poll finds data), or it is over (OSCam closed, an
-- error, or the poll timed out). A segment that is longer than what is asked for stays in part.
pub data RecvEvent : Type 0 where
  arrived : ℕ → List ℕ → RecvEvent
  again : RecvEvent
  over : RecvEvent

pub leftover : List ℕ → List RecvEvent → List RecvEvent
leftover [] es = es
leftover (b ∷ bytes) es = arrived b bytes ∷ es

-- `Receive`: `len` bytes, or none where it returns false. A script that ends is a poll that times
-- out.
pub receive : ℕ → List RecvEvent → Option (List ℕ × List RecvEvent)
receive zero es = some ([], es)
receive (suc n) [] = none
receive (suc n) (again ∷ es) = receive (suc n) es
receive (suc n) (over ∷ es) = none
receive (suc n) (arrived b bytes ∷ es) =
    let later = elim (receive (n - length bytes) es) as (λ _. Option (List ℕ × List RecvEvent)) [
      | none ↦ none
      | some (more, rest) ↦ some (b ∷ bytes ++ more, rest)
    ] in
    if leb (length bytes) n then later else some (b ∷ take n bytes, leftover (drop n bytes) es)
