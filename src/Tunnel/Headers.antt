-- ===== src/Tunnel/Headers.antt =====
-- The loop that collects the headers: it ends, and its buffer is bounded.
use ferro_vela.Prelude.{
  ℕ, zero, suc, ◌+◌, ◌≤◌, ◌≡◌, ◌≢◌, refl, Bool, true, false, List, [], ◌∷◌, ◌++◌, arith, ltb,
  is_some, length, length-append, take,
}
use ferro_vela.Text.Utf8.{Bytes}
use ferro_vela.Effect.{Io, done, fail, pending, panicked, out_of_fuel}
use ferro_vela.Socket.{Event, segment, closed, broken, read_events}
use ferro_vela.Http.{Memmem}
use ferro_vela.Tunnel.{judge, collect, max_header_bytes, header_end, header_fuel, read_loop}

length-take-le {ℓ} : {A : Type ℓ} (n : ℕ) (xs : List A) → length (take n xs) ≤ n
length-take-le zero xs = omega arith
length-take-le (suc n) [] = omega arith
length-take-le (suc n) (x ∷ xs) = omega (arith, length-take-le n xs)

-- A chunk holds at most 4096 bytes.
abbrev IsChunk : Io (Bytes × List Event) → Type 0
IsChunk (done (chunk, events)) = length chunk ≤ 4096
IsChunk (fail e) = e ≢ out_of_fuel
IsChunk _ = Unit

read_events-IsChunk : (events : List Event) → IsChunk (read_events 4096 events)
read_events-IsChunk [] = tt
read_events-IsChunk (closed ∷ events) = omega arith
read_events-IsChunk (broken ∷ events) = λ e. cc
read_events-IsChunk (segment c s ∷ events) = length-take-le 4096 (c ∷ s)

-- What the loop promises: it does not run out of fuel, and a buffer that it returns holds the end of
-- the headers and is at most one chunk over the limit.
abbrev pub IsCollected : Memmem → Io (Bytes × List Event) → Type 0
IsCollected mem (done (buf, events)) =
    (is_some (mem.find buf header_end) ≡ true) × (length buf ≤ max_header_bytes + 4096)
IsCollected mem (fail e) = e ≢ out_of_fuel
IsCollected mem _ = Unit

module _ (mem : Memmem) where
  -- The rounds to come keep the promise for every buffer within the limit that leaves them fuel.
  abbrev KeepsOn : ℕ → (Bytes → List Event → Io (Bytes × List Event)) → Type 0
  KeepsOn f again =
      (next : Bytes) (after : List Event)
      → length next ≤ max_header_bytes
      → max_header_bytes + 2 ≤ f + length next
      → IsCollected mem (again next after)

  judge-IsCollected :
      (f : ℕ) (again : Bytes → List Event → Io (Bytes × List Event)) (next : Bytes)
      (after : List Event) (found over : Bool)
      → KeepsOn f again
      → is_some (mem.find next header_end) ≡ found
      → ltb max_header_bytes (length next) ≡ over
      → length next ≤ max_header_bytes + 4096
      → max_header_bytes + 2 ≤ f + length next
      → IsCollected mem (judge again next after found over)
  judge-IsCollected f again next after true over ih e o fits fuel = (e, fits)
  judge-IsCollected f again next after false true ih e o fits fuel = λ q. cc
  judge-IsCollected f again next after false false ih e o fits fuel =
      ih next after (ground arith) fuel

  collect-IsCollected :
      (f : ℕ) (again : Bytes → List Event → Io (Bytes × List Event)) (buf : Bytes)
      (r : Io (Bytes × List Event))
      → KeepsOn f again
      → IsChunk r
      → length buf ≤ max_header_bytes
      → max_header_bytes + 2 ≤ suc f + length buf
      → IsCollected mem (collect mem again buf r)
  collect-IsCollected f again buf (done ([], after)) ih k small fuel = λ q. cc
  collect-IsCollected f again buf (done (c ∷ s, after)) ih k small fuel =
      judge-IsCollected f again (buf ++ (c ∷ s)) after _ _ ih refl refl
        (omega (arith, length-append buf (c ∷ s))) (omega (arith, length-append buf (c ∷ s)))
  collect-IsCollected f again buf (fail e) ih k small fuel = k
  collect-IsCollected f again buf pending ih k small fuel = tt
  collect-IsCollected f again buf panicked ih k small fuel = tt

  read_loop-IsCollected :
      (f : ℕ) (buf : Bytes) (events : List Event)
      → length buf ≤ max_header_bytes
      → max_header_bytes + 2 ≤ f + length buf
      → IsCollected mem (read_loop mem f buf events)
  unfolding read_loop
  read_loop-IsCollected zero buf events small fuel = absurd (omega arith)
  read_loop-IsCollected (suc f) buf events small fuel =
      collect-IsCollected f (read_loop mem f) buf (read_events 4096 events)
        (read_loop-IsCollected f) (read_events-IsChunk events) small fuel

  -- The loop of `read_http_headers` never runs out of fuel; a buffer that it returns holds the blank
  -- line at the end of the headers, and has at most 64 KiB and one chunk of 4 KiB.
  pub read_loop_bounded :
      (events : List Event) → IsCollected mem (read_loop mem header_fuel [] events)
  read_loop_bounded events = read_loop-IsCollected header_fuel [] events (omega arith) (omega arith)
