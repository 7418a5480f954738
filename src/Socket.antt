-- ===== src/Socket.antt =====
-- A TCP stream as a task sees it: what the peer will send, piece by piece, whether the writes to
-- come succeed, and what was written. The network is not part of the repository: every statement is
-- for all that a peer may send.
use ferro_vela.Prelude.{
  ℕ, ◌-◌, Bool, true, false, List, [], ◌∷◌, ◌++◌, length, take, drop, leb, if◌then◌else◌,
}
use ferro_vela.Text.Utf8.{Bytes}
use ferro_vela.Effect.{Io, done, fail, pending, read_error, write_error, closed_early}

-- A segment holds at least one byte, its first.
pub data Event : Type 0 where
  segment : ℕ → Bytes → Event
  closed : Event
  broken : Event

pub record Stream : Type 0 where
  pub incoming : List Event
  pub accepts : List Bool
  pub sent : List Bytes

abbrev pub rest_of : Bytes → List Event → List Event
rest_of [] events = events
rest_of (c ∷ s) events = segment c s ∷ events

-- `stream.read(&mut buf)` with room for `room` bytes: what came, nothing at the end of the stream.
-- With no event left the read waits for ever.
abbrev pub read_events : ℕ → List Event → Io (Bytes × List Event)
read_events room [] = pending
read_events room (closed ∷ events) = done ([], closed ∷ events)
read_events room (broken ∷ events) = fail read_error
read_events room (segment c s ∷ events) =
    done (take room (c ∷ s), rest_of (drop room (c ∷ s)) events)

-- `read_exact`: `n` bytes more, over as many reads as it takes.
unfoldable pub read_exact_events : ℕ → List Event → Io (List Event)
read_exact_events n [] = if leb n 0 then done [] else pending
read_exact_events n (closed ∷ events) =
    if leb n 0 then done (closed ∷ events) else fail closed_early
read_exact_events n (broken ∷ events) = if leb n 0 then done (broken ∷ events) else fail read_error
read_exact_events n (segment c s ∷ events) =
    let more = read_exact_events (n - length (c ∷ s)) events in
    if leb n (length s) then done (rest_of (drop n (c ∷ s)) events) else more

-- `read_to_end`: every byte up to the end or an error, which the callers ignore.
unfoldable pub read_to_end : List Event → Io Bytes
read_to_end [] = pending
read_to_end (closed ∷ events) = done []
read_to_end (broken ∷ events) = done []
read_to_end (segment c s ∷ events) = elim (read_to_end events) [
  | done more ↦ done ((c ∷ s) ++ more)
  | fail e ↦ fail e
  | _ ↦ pending
]

-- `stream.write_all(bytes)`; a write with nothing said of it succeeds.
abbrev pub write_accepted : List Bool → Bytes → Stream → Io Stream
write_accepted [] bytes s = done (record s { sent = s.sent ++ (bytes ∷ []) })
write_accepted (true ∷ more) bytes s =
    done (record s { accepts = more; sent = s.sent ++ (bytes ∷ []) })
write_accepted (false ∷ more) bytes s = fail write_error

abbrev pub write_all : Bytes → Stream → Io Stream
write_all bytes s = write_accepted s.accepts bytes s
