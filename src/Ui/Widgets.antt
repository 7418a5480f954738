-- ===== src/Ui/Widgets.antt =====
-- The widgets of crates/ferrovela-ui/src/ui/view.rs, each with the message that it sends, and the rows
-- that are built of them. A colour is given in hundredths.
use ferro_vela.Prelude.{
  ℕ, Bool, true, false, ◌||◌, Option, none, some, List, [], ◌∷◌, ◌++◌, if◌then◌else◌,
}
use ferro_vela.Text.{Str, codes}
use Prim.Native.String.{String}
use ferro_vela.Ui.{
  Message, AuthType, Tab, Theme, light, dark, proxy_tab, upstream_tab, exceptions_tab, advanced_tab,
  tab_selected,
}
use ferro_vela.Text.Match.{contains}

pub record Color : Type 0 where
  pub red : ℕ
  pub green : ℕ
  pub blue : ℕ

pub data Style : Type 0 where
  primary secondary danger : Style

-- A widget without a handler sends nothing.
pub data Widget : Type 0 where
  caption : Str → Option Color → Widget
  press : Str → Style → Message → Widget
  input : Str → Str → Option (Str → Message) → Widget
  check : Bool → Option (Bool → Message) → Widget
  toggle : Bool → (Bool → Message) → Widget
  choice : AuthType → (AuthType → Message) → Widget

abbrev pub rgb : ℕ → ℕ → ℕ → Color
rgb r g b = record { red = r; green = g; blue = b }

abbrev pub plain : String → Widget
plain s = caption (codes s) none

abbrev pub style_if : Bool → Style
style_if true = primary
style_if false = secondary

abbrev pub same_tab : Tab → Tab → Bool
same_tab proxy_tab proxy_tab = true
same_tab upstream_tab upstream_tab = true
same_tab exceptions_tab exceptions_tab = true
same_tab advanced_tab advanced_tab = true
same_tab _ _ = false

abbrev pub sidebar_button : Str → Tab → Tab → Widget
sidebar_button label tab active_tab =
    press label (style_if (same_tab tab active_tab)) (tab_selected tab)

abbrev pub field_row : Str → Widget → List Widget
field_row label widget = caption label none ∷ widget ∷ []

abbrev pub error_row : Option Str → List Widget
error_row none = []
error_row (some err) = caption err (some (rgb 75 10 10)) ∷ []

abbrev pub validated_field_row : Str → Widget → Option Str → List Widget
validated_field_row label widget error = field_row label widget ++ error_row error

unfoldable pub log_line_color : Str → Bool → Option Color
unfolding contains
log_line_color line is_dark =
    if contains line (codes "ERROR")
    then some (rgb 85 20 20)
    else if contains line (codes "WARN")
    then some (if is_dark then rgb 95 75 25 else rgb 70 45 0)
    else if contains line (codes "DEBUG") || contains line (codes "TRACE")
    then some (rgb 55 55 55)
    else none

abbrev pub is_dark : Theme → Bool
is_dark dark = true
is_dark light = false

-- `on_toggle` and `on_input` are only called where the field may be edited.
abbrev pub handler {ℓ} : {A : Type ℓ} → Bool → A → Option A
handler true f = some f
handler false f = none
