-- ===== src/Provider/MockAsr.antt =====
-- internal/adapter/outbound/asr/mock.go, and the choice that `NewSession` of asr/aliyun.go makes.
use gopbx.Prelude.{
  ℕ, ◌+◌, ◌%◌, ◌^◌, Bool, true, false, ◌||◌, List, [], ◌∷◌, ◌++◌, Option, none, some, Text, codes,
  is_empty, pos, if◌then◌else◌, ltb, length,
}
use gopbx.Media.Asr.{Recognition}
use gopbx.Session.Track.{format_track_seq}
use gopbx.Provider.AliyunAsr.{Channel}
use gopbx.Provider.AliyunConfig.{Credentials}

pub record MockSession : Type 0 where
  pub provider : Text
  pub index : ℕ
  pub closed : Bool
  pub results : Channel Recognition
  pub errs : Channel Text

-- `NewSession` of the mock provider, under either provider's name.
unfoldable pub new_mock_session : Text → MockSession
new_mock_session provider = record {
  provider = provider;
  index = 0;
  closed = false;
  results = record { is_open = true; items = [] };
  errs = record { is_open = true; items = [] };
}

-- The result with a number.
unfoldable pub numbered_result : Text → ℕ → Recognition
unfolding format_track_seq
numbered_result provider n = record {
  final = true;
  message = provider ++ codes " asr final " ++ format_track_seq n;
  start_time = pos 0;
  end_time = pos 0;
}

-- `WriteAudio`, none where it waits for room in the channel, which it does with the mutex held.
unfoldable pub write_mock : MockSession → List ℕ → Option MockSession
unfolding numbered_result
write_mock s payload =
    let n = (s.index + 1) % 2 ^ 32 in
    if s.closed || is_empty payload
    then some s
    else if ltb (length s.results.items) 16
    then some (record s {
      index = n;
      results = record {
        is_open = s.results.is_open;
        items = s.results.items ++ numbered_result s.provider n ∷ [];
      };
    })
    else none

-- `Close`
unfoldable pub close_mock : MockSession → MockSession
close_mock s = if s.closed then s else record s {
  closed = true;
  results = record { is_open = false; items = s.results.items };
  errs = record { is_open = false; items = s.errs.items };
}

-- What `NewSession` of the Aliyun provider comes to: a mock session where there are no credentials, or one on
-- the client.
pub data AsrSession : Type 0 where
  mock_session : MockSession → AsrSession
  client_session : Credentials → AsrSession

unfoldable pub new_asr_session : Option Credentials → AsrSession
unfolding new_mock_session
new_asr_session none = mock_session (new_mock_session (codes "aliyun"))
new_asr_session (some c) = client_session c
