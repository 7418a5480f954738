-- ===== src/Ui/Locked.antt =====
-- Which widgets of the main window can change what the Advanced tab guards.
use ferro_vela.Prelude.{
  ◌≡◌, refl, sym, subst, ◌⊎◌, inl, inr, Bool, true, false, not, ◌&&◌, Option, none, some, List, [],
  ◌∷◌, ◌++◌, Bool-cases, All,
}
use ferro_vela.Text.{Str, codes, is_empty}
use ferro_vela.Ui.{
  advanced_unlock_result, ConfigEditor, WindowId, Message, AuthType, Tab, proxy_tab, upstream_tab,
  exceptions_tab, advanced_tab, no_auth, kerberos_auth, basic_auth, ntlm_auth, running, stopped,
  ServiceStatus, allow_private_ips_toggled, proxy_listen_ip_changed,
}
use ferro_vela.Ui.View.{
  log_lines, view_logs, view, main_view, is_hidden, view_proxy_config, view_upstream_config,
  view_exceptions_config, view_advanced_config, tab_content, auth_rows, credential_rows,
  domain_rows, url_row, service_control, status_row, banner, listen_hint,
}
use ferro_vela.Ui.Widgets.{Widget, caption, press, input, check, toggle, choice, error_row, handler}
use ferro_vela.Ui.Windows.{same_id}
use ferro_vela.Ui.Update.{is_running_status}

-- Whether a widget can send a message.
abbrev pub CanSend : Widget → Message → Type 0
CanSend (caption s c) m = ⊥
CanSend (press s style sent) m = m ≡ sent
CanSend (input hint value none) m = ⊥
CanSend (input hint value (some f)) m = (s : Str) × (m ≡ f s)
CanSend (check b none) m = ⊥
CanSend (check b (some f)) m = (b' : Bool) × (m ≡ f b')
CanSend (toggle b f) m = (b' : Bool) × (m ≡ f b')
CanSend (choice a f) m = (a' : AuthType) × (m ≡ f a')

abbrev pub SomeSends : List Widget → Message → Type 0
SomeSends [] m = ⊥
SomeSends (w ∷ ws) m = CanSend w m ⊎ SomeSends ws m

-- A message that changes a guarded field needs the lock to be open, and for the listen address also that
-- private addresses are allowed; the result of an unlock is not a widget's to send.
abbrev pub Permitted : Bool → Bool → Message → Type 0
Permitted unlocked private (allow_private_ips_toggled b) = unlocked ≡ true
Permitted unlocked private (proxy_listen_ip_changed s) = (unlocked ≡ true) × (private ≡ true)
Permitted unlocked private (advanced_unlock_result b) = ⊥
Permitted unlocked private _ = Unit

module _ (unlocked private : Bool) where
  abbrev OnlyPermitted : Widget → Type 0
  OnlyPermitted (caption s c) = Unit
  OnlyPermitted (press s style sent) = Permitted unlocked private sent
  OnlyPermitted (input hint value none) = Unit
  OnlyPermitted (input hint value (some f)) = (s : Str) → Permitted unlocked private (f s)
  OnlyPermitted (check b none) = Unit
  OnlyPermitted (check b (some f)) = (b' : Bool) → Permitted unlocked private (f b')
  OnlyPermitted (toggle b f) = (b' : Bool) → Permitted unlocked private (f b')
  OnlyPermitted (choice a f) = (a' : AuthType) → Permitted unlocked private (f a')

  sends : (w : Widget) (m : Message) → OnlyPermitted w → CanSend w m → Permitted unlocked private m
  sends (caption s c) m h e = absurd e
  sends (press s style sent) m h e = subst (Permitted unlocked private) (sym e) h
  sends (input hint value none) m h e = absurd e
  sends (input hint value (some f)) m h (s, e) = subst (Permitted unlocked private) (sym e) (h s)
  sends (check b none) m h e = absurd e
  sends (check b (some f)) m h (b', e) = subst (Permitted unlocked private) (sym e) (h b')
  sends (toggle b f) m h (b', e) = subst (Permitted unlocked private) (sym e) (h b')
  sends (choice a f) m h (a', e) = subst (Permitted unlocked private) (sym e) (h a')

  some_sends :
      (ws : List Widget) (m : Message)
      → All OnlyPermitted ws
      → SomeSends ws m
      → Permitted unlocked private m
  some_sends [] m h e = absurd e
  some_sends (w ∷ ws) m (h, hs) (inl e) = sends w m h e
  some_sends (w ∷ ws) m (h, hs) (inr e) = some_sends ws m hs e

  both :
      (a b : List Widget) → All OnlyPermitted a → All OnlyPermitted b → All OnlyPermitted (a ++ b)
  both [] b h k = k
  both (w ∷ a) b (h, hs) k = (h, both a b hs k)

  error_permitted : (o : Option Str) → All OnlyPermitted (error_row o)
  error_permitted none = tt
  error_permitted (some err) = (tt, tt)

  check_permitted :
      (u b : Bool) → u ≡ unlocked → OnlyPermitted (check b (handler u allow_private_ips_toggled))
  check_permitted true b e = λ b'. sym e
  check_permitted false b e = tt

  input_permitted :
      (u p : Bool) (hint value : Str)
      → u ≡ unlocked
      → p ≡ private
      → OnlyPermitted (input hint value (handler (u && p) proxy_listen_ip_changed))
  input_permitted true true hint value e q = λ s. (sym e, sym q)
  input_permitted true false hint value e q = tt
  input_permitted false p hint value e q = tt

  hint_permitted : (b : Bool) → All OnlyPermitted (listen_hint b)
  hint_permitted true = (tt, tt)
  hint_permitted false = tt

  url_permitted : (e : ConfigEditor) → All OnlyPermitted (url_row e)
  url_permitted e = (tt, ((λ s. tt), error_permitted e.upstream_proxy_url_error))

  credentials_permitted : (e : ConfigEditor) → All OnlyPermitted (credential_rows e)
  credentials_permitted e = (tt, ((λ s. tt), (tt, ((λ s. tt), (tt, ((λ b. tt), tt))))))

  auth_permitted : (a : AuthType) (e : ConfigEditor) → All OnlyPermitted (auth_rows a e)
  auth_permitted no_auth e = tt
  auth_permitted kerberos_auth e = (tt, ((λ s. tt), url_permitted e))
  auth_permitted basic_auth e =
      both (credential_rows e) (url_row e) (credentials_permitted e) (url_permitted e)
  auth_permitted ntlm_auth e =
      both (credential_rows e) (domain_rows e ++ url_row e) (credentials_permitted e)
        (tt, ((λ s. tt), (tt, ((λ s. tt), url_permitted e))))

  content_permitted :
      (tab : Tab) (e : ConfigEditor)
      → e.advanced_unlocked ≡ unlocked
      → e.allow_private_ips ≡ private
      → All OnlyPermitted (tab_content tab e)
  unfolding view_proxy_config view_upstream_config view_exceptions_config view_advanced_config
  content_permitted proxy_tab e u p = (
    tt,
    (
      tt,
      (
        (λ s. tt),
        both (error_row e.proxy_port_error) _ (error_permitted e.proxy_port_error)
            (tt, ((λ s. tt), error_permitted e.pac_file_error)),
      ),
    ),
  )
  content_permitted upstream_tab e u p =
      (tt, (tt, ((λ a. tt), auth_permitted e.upstream_auth_type e)))
  content_permitted exceptions_tab e u p = (tt, (tt, ((λ s. tt), tt)))
  content_permitted advanced_tab e u p = (
    tt,
    (
      tt,
      (
        tt,
        (
          check_permitted e.advanced_unlocked e.allow_private_ips u,
          (
            tt,
            (
              input_permitted e.advanced_unlocked e.allow_private_ips (codes "127.0.0.1")
                  e.proxy_listen_ip u p,
              both (error_row e.proxy_listen_ip_error) _ (error_permitted e.proxy_listen_ip_error) (
                  both (listen_hint (e.advanced_unlocked && not e.allow_private_ips)) _
                    (hint_permitted _) (tt, tt)),
            ),
          ),
        ),
      ),
    ),
  )

  service_permitted : (s : ServiceStatus) → All OnlyPermitted (service_control s)
  service_permitted running = (tt, (tt, ((λ b. tt), tt)))
  service_permitted stopped = (tt, (tt, ((λ b. tt), tt)))

  status_permitted : (b : Bool) (e : ConfigEditor) → All OnlyPermitted (status_row b e)
  status_permitted true e = tt
  status_permitted false e = (tt, tt)

  banner_permitted : (b : Bool) → All OnlyPermitted (banner b)
  banner_permitted true = (tt, (tt, tt))
  banner_permitted false = tt

  main_permitted :
      (e : ConfigEditor)
      → e.advanced_unlocked ≡ unlocked
      → e.allow_private_ips ≡ private
      → All OnlyPermitted (main_view e)
  unfolding main_view
  main_permitted e u p = (
    tt,
    (
      tt,
      (
        tt,
        (
          tt,
          (
            tt,
            both (service_control e.service_status) _ (service_permitted e.service_status) (
                both (status_row (is_empty e.status) e) _ (status_permitted _ e) (
                  both (banner (e.restart_needed && is_running_status e.service_status)) _
                    (banner_permitted _) (content_permitted e.active_tab e u p))),
          ),
        ),
      ),
    ),
  )

  lines_permitted :
      (lower : Str → Str) (query : Str) (dark_mode : Bool) (ls : List Str)
      → All OnlyPermitted (log_lines lower query dark_mode ls)
  unfolding log_lines
  lines_permitted lower query dark_mode [] = tt
  lines_permitted lower query dark_mode (line ∷ rest) =
      elim (Bool-cases (is_hidden lower query line)) [
        | inl hidden ↦ rw hidden (lines_permitted lower query dark_mode rest)
        | inr shown ↦ rw shown (tt, lines_permitted lower query dark_mode rest)
      ]

-- Whatever widget of whatever window the user touches, it can change whether private addresses are
-- allowed only where the Advanced tab is unlocked, and the listen address only where private addresses
-- are allowed as well. No widget sends the result of an unlock.
pub view-Permitted :
    (lower : Str → Str) (e : ConfigEditor) (id : WindowId) (m : Message)
    → SomeSends (view lower e id) m
    → Permitted e.advanced_unlocked e.allow_private_ips m
unfolding view view_logs
view-Permitted lower e id m h = elim (Bool-cases (same_id e.log_window_id id)) [
  | inl logs ↦
      some_sends e.advanced_unlocked e.allow_private_ips (view_logs lower e) m
        (tt, ((λ s. tt), lines_permitted e.advanced_unlocked e.allow_private_ips lower _ _ _))
        (rw logs at h)
  | inr main ↦
      some_sends e.advanced_unlocked e.allow_private_ips (main_view e) m
        (main_permitted e.advanced_unlocked e.allow_private_ips e refl refl) (rw main at h)
]
