-- ===== src/Tests/Talk.antt =====
-- Calls with their audio, at concrete inputs.
use mathlib.Core.List.{Sublist}
use gopbx.Prelude.{
  ◌≡◌, refl, pos, true, false, List, [], ◌∷◌, none, some, codes, ok, to_lower, trim_space, text_eq,
  replicate, if◌then◌else◌,
}
use gopbx.Session.State.{CallType, websocket, webrtc, new_session}
use gopbx.Codec.MuLaw.{mu_decode, mu_law_to_linear}
use gopbx.Codec.Pcm.{pcm_samples_to_bytes, pcm_bytes_to_samples, int16, le_uint16}
use gopbx.Media.Chain.{denoise_process, recorder_process}
use gopbx.Media.Vad.Process.{process}
use gopbx.Media.Asr.{asr_process}
use gopbx.Media.AsrLaws.{walk}
use gopbx.Media.AsrSends.{sends}
use gopbx.Media.WebRtc.{rtp}
use gopbx.Call.Handler.{is_webrtc}
use gopbx.Call.Audio.{AudioLine, Surroundings, new_line}
use gopbx.Session.State.{finalize}
use gopbx.Call.Serve.{build_call_record}
use gopbx.Call.KillLaws.{killed-Recorded}
use gopbx.Call.Talk.{Setting, killed, Arrival, broken, binary, command, remote, talk, call_audio}
use gopbx.Call.TalkLaws.{arrived}
use gopbx.Call.EndLaws.{call_audio-ordered, call_audio-Ended}
use gopbx.Tests.Call.{outside, begun, goodbye}
use gopbx.Tests.Media.{fixed, energy}
use gopbx.Tests.Sdk.{environment}

-- Nothing is heard by the scorer, and the provider answers well.
abbrev calm : Surroundings fixed
calm = record {
  outside = record { now = pos 1000; score = λ pcm rate. none };
  answers = λ p. record { open_error = none; write_error = none; close_error = none };
  at_close = record { open_error = none; write_error = none; close_error = none };
  scorer_close = none;
  now = pos 1000;
}

abbrev setting : CallType → Setting
setting call_type = record {
  out = outside;
  decode = λ raw. ok goodbye;
  has_track = is_webrtc call_type;
  call_type = call_type;
  id = codes "s1";
  mime = codes "audio/PCMU";
  clock_rate = 8000;
}

abbrev quiet : Setting
quiet = setting websocket

abbrev line : AudioLine fixed
line = new_line fixed environment (λ s. true) (codes "s1") none energy

abbrev told : List (Arrival fixed)
told =
    binary calm (1 ∷ 2 ∷ []) none
    ∷ binary calm (3 ∷ 4 ∷ []) none
    ∷ command (codes "bye") none none (pos 1) (pos 2)
    ∷ broken
    ∷ []

call_audio-ordered_example :
    Sublist (sends (call_audio fixed quiet calm begun line told).actions) (arrived fixed quiet told)
unfolding new_line to_lower trim_space text_eq
call_audio-ordered_example =
    call_audio-ordered fixed quiet environment (λ s. true) none energy calm begun told refl

-- A WebRTC call with one loud packet of μ-law.
abbrev loud_call : List (Arrival fixed)
loud_call = remote calm (rtp (replicate 4 0x80) none) ∷ broken ∷ []

abbrev after : CallType → List (Arrival fixed) → AudioLine fixed
after call_type messages =
    call_audio fixed (setting call_type) calm begun
      (new_line fixed environment (λ s. true) (codes "s1") none none) messages

call_audio-Ended_example :
    let end = after webrtc loud_call in
    walk (some (0, none)) end.actions
    ≡ some (end.asr.opened, if is_webrtc webrtc then end.asr.session else none)
call_audio-Ended_example =
    call_audio-Ended fixed (setting webrtc) environment (λ s. true) none none calm begun loud_call

-- Its recognition session stays open after the call; that of a WebSocket call is closed.
leaked : (after webrtc loud_call).asr.session ≡ some 0
unfolding call_audio new_line to_lower trim_space text_eq mu_decode pcm_samples_to_bytes
    pcm_bytes_to_samples denoise_process recorder_process process asr_process mu_law_to_linear
leaked = refl

not_leaked : (after websocket (binary calm (0 ∷ 100 ∷ []) none ∷ broken ∷ [])).asr.session ≡ none
unfolding call_audio new_line to_lower trim_space text_eq new_session denoise_process
    recorder_process process asr_process int16 le_uint16
not_leaked = refl

killed-Recorded_example :
    let last =
      (talk fixed quiet
        (record { handling = begun; line = line; listening = false })
        (killed ∷ told)).handling in
    let rec = build_call_record (finalize last.session last.close_info 9).0 last.close_info [] in
    (rec.hangup_reason ≡ codes "killed") × (rec.hangup_initiator ≡ codes "system")
unfolding new_session
killed-Recorded_example =
    killed-Recorded fixed quiet (record { handling = begun; line = line; listening = false }) told 9
      [] refl
