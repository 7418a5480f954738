-- ===== src/Proxy/Guard.antt =====
-- The guard against private targets in the CONNECT services and the plain HTTP handler of
-- proxy/mod.rs.
use ferro_vela.Prelude.{
  Bool, not, false, ◌≡◌, refl, ap, sym, [], if◌then◌else◌, none, ◌∷◌, ◌∙◌, inl, subst, true, some,
  inr, unwrap_or, Option, ◌&&◌, Bool-cases, ℕ,
}
use ferro_vela.Proxy.{
  authority_reply, routed, ConnectRouting, connect_respond, upgrade, forbidden, reject, Request,
  Proxy,
}
use ferro_vela.Proxy.Handlers.{
  plain_to, dropped, request_target_of, connect_direct, request_port, connect_handle, Connect,
  spliced, plain_http_handler,
}
use ferro_vela.Effect.{panics, done, returns, Outcome}
use ferro_vela.Socket.{Stream}
use ferro_vela.Auth.{Services}
use ferro_vela.Text.{is_empty, Str}
use ferro_vela.Ssrf.{is_private_target}
use ferro_vela.Http.{Memmem}
use ferro_vela.Route.{resolve_proxy}
use ferro_vela.Text.Match.{contains_char}

-- The routing is the one of `resolve_proxy`; a direct one has a target that is allowed.
abbrev pub IsGuarded : Proxy → ConnectRouting → Type 0
IsGuarded p r =
    (resolve_proxy r.target p.config p.pac ≡ returns r.proxy_addr)
    × (r.proxy_addr ≡ none
        → p.config.proxy.allow_private_ips ≡ false
        → is_private_target r.target ≡ false)

upgrade_injective : (a b : ConnectRouting) → returns (upgrade a) ≡ returns (upgrade b) → a ≡ b
upgrade_injective a b e = cc

routed_direct :
    (target : Str) (private allowed : Bool) (r : ConnectRouting)
    → (if true && not allowed && private
        then returns (reject forbidden)
        else returns (upgrade (record { target = target; proxy_addr = none })))
      ≡ returns (upgrade r)
    → (record { target = target; proxy_addr = none } ≡ r) × (allowed ≡ false → private ≡ false)
routed_direct target true true r h = (upgrade_injective _ _ h, λ e. cc)
routed_direct target true false r h = cc
routed_direct target false true r h = (upgrade_injective _ _ h, λ e. refl)
routed_direct target false false r h = (upgrade_injective _ _ h, λ e. refl)

routed-IsGuarded :
    (p : Proxy) (target : Str) (o : Outcome (Option Str)) (r : ConnectRouting)
    → resolve_proxy target p.config p.pac ≡ o
    → routed p target o ≡ returns (upgrade r)
    → IsGuarded p r × (r.target ≡ target)
routed-IsGuarded p target panics r e h = cc
routed-IsGuarded p target (returns (some a)) r e h =
    subst (λ x. IsGuarded p x × (x.target ≡ target)) (upgrade_injective _ _ h) ((e, λ q. cc), refl)
routed-IsGuarded p target (returns none) r e h =
    let (same, guard) = routed_direct target _ _ r h in
    subst (λ x. IsGuarded p x × (x.target ≡ target)) same ((e, λ q. guard), refl)

authority-IsGuarded :
    (p : Proxy) (authority : Option Str) (r : ConnectRouting)
    → authority_reply p authority ≡ returns (upgrade r)
    → (authority ≡ some r.target) × IsGuarded p r
authority-IsGuarded p none r h = cc
authority-IsGuarded p (some target) r h =
    let (g, e) = routed-IsGuarded p target _ r refl h in (ap (λ t. some t) (sym e), g)

-- A CONNECT request that is let through has the routing that `resolve_proxy` gives for its authority,
-- and if it goes direct where private addresses are not allowed, its target is not a private one.
pub connect_respond-IsGuarded :
    (p : Proxy) (req : Request) (r : ConnectRouting)
    → connect_respond p req ≡ returns (upgrade r)
    → (req.uri.authority ≡ some r.target) × IsGuarded p r
unfolding connect_respond
connect_respond-IsGuarded p req r h = authority-IsGuarded p req.uri.authority r h

request_target_of-is_empty :
    (host : Str) (port : ℕ) → is_empty host ≡ false → is_empty (request_target_of host port) ≡ false
unfolding request_target_of
request_target_of-is_empty [] port h = cc
request_target_of-is_empty (c ∷ rest) port h = elim (Bool-cases (contains_char (c ∷ rest) b':')) [
  | inl colon ↦ rw colon
  | inr plain ↦ rw plain
]

module _ (mem : Memmem) (connect : Connect) (sv : Services) where
  connect_direct-spliced :
      (target address : Str) (s : Stream)
      → connect_direct mem connect sv target ≡ done (spliced address s)
      → address ≡ target
  connect_direct-spliced target address s h = go (connect target) h
    where
      go :
          (o : Option Stream)
          → elim o [ none ↦ done dropped | some t ↦ done (spliced target t) ]
            ≡ done (spliced address s)
          → address ≡ target
      go none e = cc
      go (some t) e = cc

  -- Where private addresses are not allowed and a CONNECT request is let through with no proxy in its
  -- routing, a tunnel that is opened for it leads to the authority of the request, and this is not a
  -- private target.
  pub connect_handle-not_private :
      (p : Proxy) (req : Request) (r : ConnectRouting) (address : Str) (s : Stream)
      → connect_respond p req ≡ returns (upgrade r)
      → r.proxy_addr ≡ none
      → p.config.proxy.allow_private_ips ≡ false
      → connect_handle mem connect sv p (some r) ≡ done (spliced address s)
      → (req.uri.authority ≡ some address) × (is_private_target address ≡ false)
  unfolding connect_handle
  connect_handle-not_private p req r address s ok direct deny h =
      let (named, g) = connect_respond-IsGuarded p req r ok in
      let reached = connect_direct-spliced r.target address s (rw direct at h) in
      (named ∙ ap (λ t. some t) (sym reached), ap is_private_target reached ∙ g.1 direct deny)

  plain_to-forbidden :
      (p : Proxy) (req : Request) (host target : Str)
      → is_empty host ≡ false
      → is_empty target ≡ false
      → resolve_proxy target p.config p.pac ≡ returns none
      → p.config.proxy.allow_private_ips ≡ false
      → is_private_target target ≡ true
      → plain_to mem connect sv p req host target ≡ done forbidden
  plain_to-forbidden p req host target full full_target direct deny private =
      rw (full_target, full, direct, deny, private) refl

  -- Where private addresses are not allowed, a plain request with a host, whose target is private and
  -- that the routing sends direct, is answered with 403.
  pub plain_http_handler-forbidden :
      (p : Proxy) (req : Request) (host : Str)
      → req.uri.host ≡ some host
      → is_empty host ≡ false
      → resolve_proxy (request_target_of host (request_port req.uri)) p.config p.pac ≡ returns none
      → p.config.proxy.allow_private_ips ≡ false
      → is_private_target (request_target_of host (request_port req.uri)) ≡ true
      → plain_http_handler mem connect sv p req ≡ done forbidden
  unfolding plain_http_handler
  plain_http_handler-forbidden p req host named full direct deny private =
      ap
        (λ o.
          plain_to mem connect sv p req (unwrap_or o [])
            (request_target_of (unwrap_or o []) (request_port req.uri)))
        named
      ∙ plain_to-forbidden p req host (request_target_of host (request_port req.uri)) full
          (request_target_of-is_empty host (request_port req.uri) full) direct deny private
