-- ===== src/Proxy/Wire.antt =====
-- The response that a plain request gets: `parse_raw_response`.
use ferro_vela.Prelude.{
  unwrap_or, length-append, inl, inr, append_assoc, drop, ◌⊎◌, ◌+◌, refl, false, ap, none, ◌<◌, ◌∙◌,
  [], ◌≡◌, Option, ◌++◌, true, some, drop-append, length, arith, sym, ◌≤◌, ℕ,
}
use ferro_vela.Tunnel.{parse_status, header_end}
use ferro_vela.Http.{Memmem, occurs_at}
use ferro_vela.Proxy.Format.{status_code, body_start, parse_raw_response}
use ferro_vela.Text.Match.{starts_with-append, starts_with}
use ferro_vela.Text.Utf8.{from_utf8_lossy, Bytes}

occurs-append :
    (front needle rest : Bytes) → occurs_at (front ++ (needle ++ rest)) needle (length front) ≡ true
occurs-append front needle rest =
    ap (λ t. starts_with t needle) (drop-append front (needle ++ rest))
    ∙ starts_with-append needle rest

trichotomy : (i k : ℕ) → (i < k) ⊎ ((i ≡ k) ⊎ (k < i))
trichotomy i k = omega arith

-- The first end of the headers is found where it stands.
find-first :
    (mem : Memmem) (front needle rest : Bytes)
    → ((j : ℕ) → j < length front → occurs_at (front ++ (needle ++ rest)) needle j ≡ false)
    → mem.find (front ++ (needle ++ rest)) needle ≡ some (length front)
find-first mem front needle rest first = go (mem.find (front ++ (needle ++ rest)) needle) refl
  where
    go :
        (o : Option ℕ)
        → mem.find (front ++ (needle ++ rest)) needle ≡ o
        → mem.find (front ++ (needle ++ rest)) needle ≡ some (length front)
    go none e = cc (
        sym (occurs-append front needle rest)
        ∙ mem.find_none _ needle e (length front)
            (omega (arith, length-append front (needle ++ rest))))
    go (some i) e = elim (trichotomy i (length front)) [
      | inl earlier ↦ cc (sym (mem.find_some _ needle e).1 ∙ first i earlier)
      | inr (inl same) ↦ e ∙ ap (λ k. some k) same
      | inr (inr later) ↦ cc (
          sym (occurs-append front needle rest) ∙ (mem.find_some _ needle e).2 (length front) later)
    ]

drop-headers : (front body : Bytes) → drop (length front + 4) (front ++ (header_end ++ body)) ≡ body
drop-headers front body =
    ap (λ k. drop k (front ++ (header_end ++ body))) (sym (length-append front header_end))
    ∙ ap (drop (length (front ++ header_end))) (sym (append_assoc front header_end body))
    ∙ drop-append (front ++ header_end) body

status_code_bounded : (n : ℕ) → (100 ≤ status_code n) × (status_code n ≤ 999)
status_code_bounded n = ground arith

-- The answer to a plain request has the body that stands behind the first blank line of the upstream's
-- bytes, and none of the headers.
pub parse_raw_response-body :
    (mem : Memmem) (front body : Bytes)
    → ((j : ℕ) → j < length front → occurs_at (front ++ (header_end ++ body)) header_end j ≡ false)
    → ((parse_raw_response mem (front ++ (header_end ++ body))).body ≡ body)
      × ((parse_raw_response mem (front ++ (header_end ++ body))).headers ≡ [])
unfolding parse_raw_response
parse_raw_response-body mem front body first = (
  ap
        (λ o.
          drop (body_start o (length (front ++ (header_end ++ body))))
            (front ++ (header_end ++ body)))
        (find-first mem front header_end body first)
      ∙ drop-headers front body,
  refl,
)

-- The status of the answer to a plain request is 100 to 999, whatever the upstream sent.
pub parse_raw_response-status :
    (mem : Memmem) (buf : Bytes)
    → (100 ≤ (parse_raw_response mem buf).status) × ((parse_raw_response mem buf).status ≤ 999)
unfolding parse_raw_response
parse_raw_response-status mem buf =
    status_code_bounded (unwrap_or (parse_status (from_utf8_lossy buf)) 502)
