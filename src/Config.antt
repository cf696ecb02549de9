-- ===== src/Config.antt =====
-- internal/config: the configuration, its defaults and its check. `time.ParseDuration` is a parameter, as is
-- the loading from the environment.
mod Laws
pub mod Load
pub mod LoadLaws
use gopbx.Prelude.{
  ℕ, ◌*◌, ℤ, pos, List, [], ◌∷◌, Option, none, some, Text, codes, is_empty, or_else, if◌then◌else◌,
}

-- The fields of `Config` and of the structs in it that are texts; `ice_servers` counts the others.
pub record Config : Type 0 where
  pub address : Text
  pub shutdown_timeout : Text
  pub llm_endpoint : Text
  pub llm_api_key : Text
  pub ice_endpoint : Text
  pub ice_api_key : Text
  pub ice_timeout : Text
  pub callrecord_type : Text
  pub callrecord_endpoint : Text
  pub callrecord_bucket : Text
  pub callrecord_prefix : Text
  pub callrecord_api_key : Text
  pub callrecord_timeout : Text
  pub recorder_path : Text
  pub ice_servers : ℕ

-- `Default`
unfoldable pub default_config : Config
default_config = record {
  address = codes ":8080";
  shutdown_timeout = codes "10s";
  llm_endpoint = codes "https://api.openai.com/v1";
  llm_api_key = [];
  ice_endpoint = [];
  ice_api_key = [];
  ice_timeout = codes "3s";
  callrecord_type = codes "local";
  callrecord_endpoint = [];
  callrecord_bucket = [];
  callrecord_prefix = [];
  callrecord_api_key = [];
  callrecord_timeout = codes "5s";
  recorder_path = codes "./tmp/recordings";
  ice_servers = 0;
}

-- What `Validate` fills in.
unfoldable pub fill_in : Config → Config
fill_in c = record c {
  address = or_else c.address (codes ":8080");
  shutdown_timeout = or_else c.shutdown_timeout (codes "10s");
  llm_endpoint = or_else c.llm_endpoint (codes "https://api.openai.com/v1");
  ice_timeout = or_else c.ice_timeout (codes "3s");
  callrecord_type = or_else c.callrecord_type (codes "local");
  callrecord_timeout = or_else c.callrecord_timeout (codes "5s");
  recorder_path = or_else c.recorder_path (codes "./tmp/recordings");
}

-- An error where there is no duration, or else what comes later.
abbrev unless_duration : Option ℤ → Text → Option Text → Option Text
unless_duration none message later = some message
unless_duration (some d) message later = later

module _ (parse_duration : Text → Option ℤ) where
  -- The first timeout that is no duration.
  unfoldable pub timeout_error : Config → Option Text
  timeout_error c =
      unless_duration (parse_duration c.ice_timeout)
        (codes "ice_provider.timeout must be a valid duration")
        (unless_duration (parse_duration c.callrecord_timeout)
          (codes "callrecord.timeout must be a valid duration")
          (unless_duration (parse_duration c.shutdown_timeout)
            (codes "server.shutdown_timeout must be a valid duration") none))

  -- `Validate`, with the configuration that it leaves.
  unfoldable pub validate : Config → Config × Option Text
  unfolding fill_in timeout_error
  validate c = let filled = fill_in c in (filled, timeout_error filled)

  -- `ShutdownTimeoutDuration`, in nanoseconds.
  unfoldable pub shutdown_timeout_duration : Config → ℤ
  shutdown_timeout_duration c =
      if is_empty c.shutdown_timeout
      then pos 10000000000
      else elim (parse_duration c.shutdown_timeout) [ none ↦ pos 10000000000 | some d ↦ d ]
