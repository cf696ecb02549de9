-- ===== src/Config/LoadLaws.antt =====
-- internal/config: what a configuration has that was loaded without an error.
use gopbx.Prelude.{
  ℕ, ℤ, ◌≡◌, refl, false, [], ◌∷◌, Option, none, some, Text, codes, is_empty, or_else, if_intro,
  Fallible, ok, failure,
}
use gopbx.Config.{Config, fill_in, timeout_error, validate, default_config, unless_duration}
use gopbx.Config.Load.{
  RawConfig, Loaded, not_loaded, loaded, with_servers, from_raw, default_servers, from_defaults,
  from_env, load,
}

abbrev IsDuration : (Text → Option ℤ) → Text → Type 0
IsDuration parse_duration t = (d : ℤ) × (parse_duration t ≡ some d)

-- The three timeouts are durations, and nothing that has a default is empty.
pub record Usable (parse_duration : Text → Option ℤ) (c : Config) : Type 0 where
  pub ice_timeout : IsDuration parse_duration c.ice_timeout
  pub callrecord_timeout : IsDuration parse_duration c.callrecord_timeout
  pub shutdown_timeout : IsDuration parse_duration c.shutdown_timeout
  pub address : is_empty c.address ≡ false
  pub llm_endpoint : is_empty c.llm_endpoint ≡ false
  pub callrecord_type : is_empty c.callrecord_type ≡ false
  pub recorder_path : is_empty c.recorder_path ≡ false

or_else-full : (a b : Text) → is_empty b ≡ false → is_empty (or_else a b) ≡ false
unfolding or_else
or_else-full [] b e = e
or_else-full (c ∷ a) b e = refl

-- A check that finds nothing found a duration, and nothing later.
unless_duration-none :
    (o : Option ℤ) (message : Text) (later : Option Text)
    → unless_duration o message later ≡ none
    → ((d : ℤ) × (o ≡ some d)) × (later ≡ none)
unless_duration-none none message later h = cc
unless_duration-none (some d) message later h = ((d, refl), h)

module _ (parse_duration : Text → Option ℤ) where
  filled-Usable :
      (c : Config)
      → timeout_error parse_duration (fill_in c) ≡ none
      → Usable parse_duration (fill_in c)
  unfolding timeout_error fill_in
  filled-Usable c h =
      let (ice, h1) = unless_duration-none _ _ _ h in
      let (callrecord, h2) = unless_duration-none _ _ _ h1 in
      let (shutdown, h3) = unless_duration-none _ _ _ h2 in
      record {
        ice_timeout = ice;
        callrecord_timeout = callrecord;
        shutdown_timeout = shutdown;
        address = or_else-full c.address (codes ":8080") refl;
        llm_endpoint = or_else-full c.llm_endpoint (codes "https://api.openai.com/v1") refl;
        callrecord_type = or_else-full c.callrecord_type (codes "local") refl;
        recorder_path = or_else-full c.recorder_path (codes "./tmp/recordings") refl;
      }

  module _ (env_error : Option Text) (marshal : ℕ → Fallible Text)
      (unmarshal : RawConfig → Fallible RawConfig) (decode_servers : Text → Fallible ℕ) where
    -- What holds of a result of `Load`: a configuration without an error is usable.
    abbrev pub Sound : Loaded → Type 0
    Sound (not_loaded e) = Unit
    Sound (loaded c (some e)) = Unit
    Sound (loaded c none) = Usable parse_duration c

    checked-Sound :
        (c : Config) (err : Option Text)
        → timeout_error parse_duration (fill_in c) ≡ err
        → Sound (loaded (fill_in c) err)
    checked-Sound c none e = filled-Usable c e
    checked-Sound c (some m) e = tt

    with_servers-Sound :
        (c : Config) (n : Fallible ℕ)
        → Sound (with_servers parse_duration env_error marshal unmarshal decode_servers c n)
    unfolding validate
    with_servers-Sound c (failure e) = tt
    with_servers-Sound c (ok n) = checked-Sound (record c { ice_servers = n }) _ refl

    from_raw-Sound :
        (raw : Fallible RawConfig)
        → Sound (from_raw parse_duration env_error marshal unmarshal decode_servers raw)
    from_raw-Sound (failure e) = tt
    from_raw-Sound (ok raw) =
        if_intro Sound (is_empty raw.ice_servers_text) (λ e. with_servers-Sound raw.fields (ok 0))
          (λ e. with_servers-Sound raw.fields (decode_servers raw.ice_servers_text))

    from_defaults-Sound :
        (servers : Fallible Text)
        → Sound (from_defaults parse_duration env_error marshal unmarshal decode_servers servers)
    from_defaults-Sound (failure e) = tt
    from_defaults-Sound (ok servers) = from_raw-Sound (unmarshal _)

    from_env-Sound :
        (e : Option Text)
        → Sound (from_env parse_duration env_error marshal unmarshal decode_servers e)
    from_env-Sound (some e) = tt
    from_env-Sound none = from_defaults-Sound (
        default_servers parse_duration env_error marshal unmarshal decode_servers
          default_config.ice_servers)

    -- Whatever the environment and the decoders give: where `Load` returns a configuration and no error, its
    -- three timeouts are durations, and its address, its endpoint of the language model, its type of call
    -- records and its directory of recordings are not empty.
    pub load-Sound : Sound (load parse_duration env_error marshal unmarshal decode_servers)
    unfolding load
    load-Sound = from_env-Sound env_error
