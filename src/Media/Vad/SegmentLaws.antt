-- ===== src/Media/Vad/SegmentLaws.antt =====
-- What the voice detector keeps of the audio of a segment.
use gopbx.Prelude.{◌≡◌, ap, ◌∙◌, Bool, true, false, List, [], ◌∷◌, ◌++◌, Option}
use gopbx.Protocol.Command.{VadOption}
use gopbx.Media.Floats.{Floats}
use gopbx.Media.Packet.{Packet, resolved_kind}
use gopbx.Media.BufferLaws.{IsFrame}
use gopbx.Media.Vad.State.{VadConfig, Vad, Outside, pcm_duration_ms}
use gopbx.Media.Vad.Process.{process, is_audio, run}
use gopbx.Media.Vad.New.{new_vad}
use gopbx.Media.Vad.Events.{in_segment}
use gopbx.Media.Vad.Conservation.{audio_of, IsSound, pending}
use gopbx.Media.Vad.Audio.{process_ordered, process_lossless, new-IsSound, AllAudio}

module _ (fl : Floats) where
  run-IsSound :
      (v : Vad fl) (ps : List (Outside fl × Packet))
      → IsSound fl v
      → v.bypass ≡ false
      → AllAudio fl ps
      → IsSound fl (run fl v ps).0 × ((run fl v ps).0.bypass ≡ false)
  unfolding run
  run-IsSound v [] s b a = (s, b)
  run-IsSound v ((o, p) ∷ rest) s b a =
      let r = process_ordered fl v o p s b a.0 in
      run-IsSound (process fl v o p).0 rest r.0 (ap (λ (c : VadConfig fl). c.bypass) r.1 ∙ b) a.1

  -- Where a new detector that is not a mere passthrough has got a run of audio packets and is in a
  -- segment, and a further packet of audio leaves it in a segment, and is not empty and has a duration
  -- that is not 0 (it is 0 for less than one whole sample): what it then passes on and what it still holds
  -- back are exactly, in order, the frames that it held back before and that packet's own.
  pub segment_lossless :
      (cfg : Option (VadOption fl.Float32)) (scorer : Bool) (ps : List (Outside fl × Packet))
      (o : Outside fl) (p : Packet)
      → let v = (run fl (new_vad fl cfg scorer) ps).0 in
        (new_vad fl cfg scorer).bypass ≡ false
        → AllAudio fl ps
        → is_audio (resolved_kind p) ≡ true
        → IsFrame p.payload (pcm_duration_ms p.payload v.sample_rate)
        → in_segment v.state ≡ true
        → in_segment (process fl v o p).0.state ≡ true
        → audio_of (process fl v o p).1.packets ++ pending fl (process fl v o p).0
          ≡ pending fl v ++ p.payload ∷ []
  unfolding new_vad
  segment_lossless cfg scorer ps o p b a k f before after =
      let start = new_vad fl cfg scorer in
      let (s, open_to) = run-IsSound start ps (new-IsSound fl cfg scorer) b a in
      process_lossless fl (run fl start ps).0 o p s open_to k f before after
