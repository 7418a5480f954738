-- ===== src/Launchd.antt =====
-- crates/ferrovela-lib/src/launchd.rs: the plist of the launch agent, and how it is started and stopped
-- through the program launchctl.
pub mod Control
pub mod Escape
pub mod Steps
pub mod Registration
pub mod Looks
pub mod Phases
pub mod Stops
pub mod Tests
use ferro_vela.Prelude.{
  ℕ, zero, suc, ◌+◌, ◌-◌, ◌*◌, ◌/◌, ◌%◌, ◌^◌, ◌≤◌, ◌<◌, ◌≡◌, refl, sym, ap, ◌∙◌, subst, ◌≢◌, ◌↔◌,
  ◌⊎◌, inl, inr, Bool, true, false, not, ◌&&◌, ◌||◌, Option, none, some, List, [], ◌∷◌, ◌++◌, map,
  append-nil, append_assoc, arith, ltb, leb, ◌==◌, if◌then◌else◌, Bool-cases, Option-cases, length,
  take, drop, get_elem?, any, all, All, unwrap_or, map_option, is_some, is_none, length-append, min,
  ==_iff, ltb→lt, lt→ltb, leb→le, ◌>>=◌ as ◌>>=?◌,
}
use ferro_vela.Text.{Str, codes, str_eq, str_eq_iff, is_empty, str_len}
use ferro_vela.Text.Match.{ends_with, contains, strip_prefix}
use ferro_vela.Text.Split.{trim, lines, rsplit_once}
use ferro_vela.Text.Number.{parse_uint, max_u32, to_string}
use ferro_vela.Text.Utf8.{Bytes, from_utf8_lossy}

-- `PathBuf::join` with a name that has no slash at its front.
abbrev pub join : Str → Str → Str
join dir name =
    if ends_with dir (codes "/") || is_empty dir then dir ++ name else dir ++ (b'/' ∷ name)

-- What is done outside the process, in order.
pub data Action : Type 0 where
  make_dir : Str → Action
  write_file : Str → Str → Action
  launchctl : List Str → Action
  sleep : ℕ → Action

abbrev pub History : Type 0
History = List Action

pub record Output : Type 0 where
  pub success : Bool
  pub stdout : Bytes
  pub stderr : Bytes

-- The system: the environment, the path of the running program, which files exist, the user. What an
-- action comes to may depend on all that was done before it: `outcome` on an action of the file system,
-- `output` on launchctl, none where it cannot be run.
pub record Os : Type 0 where
  pub home_var : Option Str
  pub tmpdir : Option Str
  pub current_exe : Option Str
  pub exists : Str → Bool
  pub uid : ℕ
  pub outcome : History → Bool
  pub output : History → Option Output

-- The errors, by the place that makes them.
pub data LaunchError : Type 0 where
  no_proxy_binary no_directory no_plist not_run exited_immediately : LaunchError
  bootstrap_failed rebootstrap_failed kickstart_failed bootout_failed : Str → LaunchError
  stale_kept : LaunchError → LaunchError

pub data Launched {ℓ} (A : Type ℓ) : Type ℓ where
  ok : A → Launched A
  err : LaunchError → Launched A

unfoldable pub service_label : Str
service_label = codes "com.ictcloud.ferrovela"

-- `s.replace(c, text)`.
unfoldable pub replace : ℕ → Str → Str → Str
replace c text [] = []
replace c text (d ∷ s) = if d == c then text ++ replace c text s else d ∷ replace c text s

unfoldable pub xml_escape : Str → Str
unfolding replace
xml_escape s =
    replace b'"' (codes "&quot;")
      (replace b'>' (codes "&gt;") (replace b'<' (codes "&lt;") (replace b'&' (codes "&amp;") s)))

-- The text of the plist around the label, the program and the log.
unfoldable pub plist_text : Str → Str → Str
unfolding xml_escape service_label
plist_text exe log =
    codes "<?xml version=\"1.0\" encoding=\"UTF-8\"?>\n"
    ++ (codes "<!DOCTYPE plist PUBLIC \"-//Apple//DTD PLIST 1.0//EN\" "
        ++ (codes "\"http://www.apple.com/DTDs/PropertyList-1.0.dtd\">\n"
            ++ (codes "<plist version=\"1.0\">\n<dict>\n\t<key>Label</key>\n\t<string>"
                ++ (service_label
                    ++ (codes "</string>\n\t<key>ProgramArguments</key>\n\t<array>\n\t\t<string>"
                        ++ (xml_escape exe
                            ++ (codes "</string>\n\t</array>\n\t<key>RunAtLoad</key>\n\t<false/>\n"
                                ++ (codes
                                      "\t<key>KeepAlive</key>\n\t<false/>\n\t<key>StandardOutPath</key>\n\t<string>"
                                    ++ (xml_escape log
                                        ++ (codes
                                              "</string>\n\t<key>StandardErrorPath</key>\n\t<string>"
                                            ++ (xml_escape log
                                                ++ codes "</string>\n</dict>\n</plist>\n")))))))))))

module _ (os : Os) where
  unfoldable pub home : Str
  home = unwrap_or os.home_var (codes "/tmp")

  abbrev support_dir : Str
  support_dir =
      join (join (join home (codes "Library")) (codes "Application Support")) service_label

  -- The path, and what is done on the way.
  unfoldable ui_socket_path : History → Str × History
  unfolding home service_label
  ui_socket_path h = elim os.tmpdir [
    | some dir ↦ (join dir (service_label ++ codes ".sock"), h)
    | none ↦ (join support_dir (service_label ++ codes ".sock"), h ++ (make_dir support_dir ∷ []))
  ]

  abbrev pub launch_agents : Str
  launch_agents = join (join home (codes "Library")) (codes "LaunchAgents")

  unfoldable pub plist_path : Str
  unfolding home service_label
  plist_path = join launch_agents (service_label ++ codes ".plist")

  unfoldable pub log_path : Str
  unfolding home
  log_path = join (join (join home (codes "Library")) (codes "Logs")) (codes "ferrovela.log")

  -- The parent of an absolute path without a slash at its end.
  abbrev parent_dir : Option (Str × Str) → Option Str
  parent_dir none = none
  parent_dir (some (dir, name)) = some (if is_empty dir then codes "/" else dir)

  unfoldable pub proxy_exe : Launched Str
  unfolding rsplit_once
  proxy_exe = elim (os.current_exe >>=? λ p. parent_dir (rsplit_once b'/' p)) [
    | none ↦ err no_proxy_binary
    | some dir ↦
        if os.exists (join dir (codes "ferrovela"))
        then ok (join dir (codes "ferrovela"))
        else err no_proxy_binary
  ]

  unfoldable pub generate_plist : Launched Str
  generate_plist = elim proxy_exe [ err e ↦ err e | ok exe ↦ ok (plist_text exe log_path) ]
