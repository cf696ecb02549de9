-- ===== src/Config/Load.antt =====
-- internal/config/config.go: the loading of the configuration. koanf and JSON are parameters.
use gopbx.Prelude.{
  ℕ, ℤ, [], ◌∷◌, Option, none, some, Text, codes, is_empty, after_prefix, to_lower, if◌then◌else◌,
  ◌&&◌, ◌==◌, Fallible, ok, failure,
}
use gopbx.Config.{Config, default_config, validate}

-- `rawConfig`: the fields of a configuration, with its servers as a text.
pub record RawConfig : Type 0 where
  pub fields : Config
  pub ice_servers_text : Text

-- `strings.ReplaceAll(key, "__", ".")`
unfoldable pub dotted : Text → Text
dotted [] = []
dotted (c ∷ []) = c ∷ []
dotted (c ∷ d ∷ rest) =
    let kept = c ∷ dotted (d ∷ rest) in
    let replaced = 46 ∷ dotted rest in if c == 95 && d == 95 then replaced else kept

abbrev trimmed : Text → Option Text → Text
trimmed s none = s
trimmed s (some rest) = rest

-- The key of the configuration for a variable of the environment.
unfoldable pub env_key : Text → Text
unfolding dotted
env_key s = dotted (to_lower (trimmed s (after_prefix (codes "GOPBX_") s)))

-- What `Load` returns: an error, or a configuration with the error of its check.
pub data Loaded : Type 0 where
  not_loaded : Text → Loaded
  loaded : Config → Option Text → Loaded

-- `marshal` encodes the default servers, `unmarshal` puts the environment into a raw configuration, and
-- `decode_servers` reads servers and counts them.
module _ (parse_duration : Text → Option ℤ) (env_error : Option Text) (marshal : ℕ → Fallible Text)
    (unmarshal : RawConfig → Fallible RawConfig) (decode_servers : Text → Fallible ℕ) where
  abbrev pub checked : Config × Option Text → Loaded
  checked (c, err) = loaded c err

  abbrev pub with_servers : Config → Fallible ℕ → Loaded
  with_servers c (failure e) = not_loaded e
  with_servers c (ok n) = checked (validate parse_duration (record c { ice_servers = n }))

  abbrev pub from_raw : Fallible RawConfig → Loaded
  from_raw (failure e) = not_loaded e
  from_raw (ok raw) =
      if is_empty raw.ice_servers_text
      then with_servers raw.fields (ok 0)
      else with_servers raw.fields (decode_servers raw.ice_servers_text)

  -- The servers of the defaults as a text, empty where there are none.
  abbrev pub default_servers : ℕ → Fallible Text
  default_servers n = if n == 0 then ok [] else marshal n

  abbrev pub from_defaults : Fallible Text → Loaded
  from_defaults (failure e) = not_loaded e
  from_defaults (ok servers) =
      from_raw (unmarshal (record { fields = default_config; ice_servers_text = servers }))

  abbrev pub from_env : Option Text → Loaded
  from_env (some e) = not_loaded e
  from_env none = from_defaults (default_servers default_config.ice_servers)

  -- `Load`
  unfoldable pub load : Loaded
  unfolding default_config validate
  load = from_env env_error
