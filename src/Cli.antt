-- ===== src/Cli.antt =====
-- cmd/cc-mysub: the command line. main.go picks the subcommand and serves when there is none;
-- genconfig.go and helper.go are two of the subcommands (device-init is `DeviceInit`, add-device
-- `Enroll.Run`). Parsing of flags is the flag package's: the models take its result.
pub mod Startup
pub mod GenConfig
pub mod Helper
use cc_mysub.Base.{Bytes, codes, Bool, true, false, equal, is_empty, List, [], ◌∷◌, if◌then◌else◌}

pub data Invocation : Type 0 where
  add_device helper device_init gen_config : List Bytes → Invocation
  serve : List Bytes → Invocation

-- os.Args[1:], which the first word takes apart.
unfoldable pub dispatch : List Bytes → Invocation
unfolding equal
dispatch [] = serve []
dispatch (word ∷ args) =
    if equal word (codes "add-device")
    then add_device args
    else if equal word (codes "helper")
    then helper args
    else if equal word (codes "device-init")
    then device_init args
    else if equal word (codes "gen-config")
    then gen_config args
    else serve (word ∷ args)

-- defaultConfigDir; `join` is filepath.Join, and the arguments are $XDG_CONFIG_HOME and the home.
unfoldable pub default_config_dir : (List Bytes → Bytes) → Bytes → Bytes → Bytes
unfolding is_empty
default_config_dir join xdg home =
    if is_empty xdg
    then join (home ∷ codes ".config" ∷ codes "cc-mysub" ∷ [])
    else join (xdg ∷ codes "cc-mysub" ∷ [])
