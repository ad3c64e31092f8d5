-- ===== src/IntruderConfig.antt =====
-- internal/store/intruder.go: the one row of the intruder's settings; `none` is a table without it.
use shiv.Prelude.{if◌then◌else◌, ◌≡◌, refl, Bool, true, false, Option, none, some, []}
use shiv.Prelude.Int.{ℤ, pos}
use shiv.Text.{Bytes, codes}

pub record IntruderConfig : Type 0 where
  pub delay_ms : ℤ
  pub stop_on_status : ℤ
  pub max_redirects : ℤ
  pub follow_redirects : Bytes
  pub timeout_ms : ℤ
  pub raw_request : Bytes
  pub payloads : Bytes

unfoldable pub default_intruder_config : IntruderConfig
default_intruder_config = record {
  delay_ms = pos 0;
  stop_on_status = pos 0;
  max_redirects = pos 10;
  follow_redirects = codes "never";
  timeout_ms = pos 30000;
  raw_request = [];
  payloads = [];
}

-- `fails` is an error of the database.
unfoldable pub load_intruder_config : Bool → Option IntruderConfig → IntruderConfig
unfolding default_intruder_config
load_intruder_config fails none = default_intruder_config
load_intruder_config fails (some config) = if fails then default_intruder_config else config

unfoldable pub save_intruder_config :
    Bool → IntruderConfig → Option IntruderConfig → Option IntruderConfig
save_intruder_config fails config row = if fails then row else some config

-- What is saved is loaded, and a save that fails leaves what was there.
load_intruder_config-save_intruder_config :
    (fails : Bool) (config : IntruderConfig) (row : Option IntruderConfig)
    → load_intruder_config false (save_intruder_config fails config row)
      ≡ (if fails then load_intruder_config false row else config)
unfolding load_intruder_config save_intruder_config
load_intruder_config-save_intruder_config true config row = refl
load_intruder_config-save_intruder_config false config row = refl
