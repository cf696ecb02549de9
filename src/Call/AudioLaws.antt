-- ===== src/Call/AudioLaws.antt =====
-- call_handler.go, `buildAudioStream`: what reaches the recognition provider of the audio of a call.
use mathlib.Core.List.{Sublist}
use mathlib.Core.List.Sublist
use gopbx.Prelude.{
  ℕ, ◌≡◌, refl, sym, subst, ap, ◌∙◌, Bool, false, List, [], ◌∷◌, ◌++◌, Option, some, Text, codes,
  append-nil, append_assoc,
}
use gopbx.Protocol.Command.{CallOption, VadOption}
use gopbx.Media.Floats.{Floats}
use gopbx.Media.Packet.{Packet, audio, resolved_kind, passthrough}
use gopbx.Media.Vad.State.{Vad, Outside}
use gopbx.Media.Vad.Process.{process, run}
use gopbx.Media.Vad.New.{new_vad}
use gopbx.Media.Vad.Conservation.{Frames, audio_of, audio_of-append}
use gopbx.Media.Vad.Definite.{Definite, Definite-append, process-Definite}
use gopbx.Media.Vad.Audio.{payloads, AllAudio, run_ordered}
use gopbx.Media.Asr.{asr_process}
use gopbx.Media.Chain.{Processor, chain_process, recorder_process, denoise_process}
use gopbx.Media.ChainLaws.{apply, chain_process-pass}
use gopbx.Provider.VadScorer.{Environment, Scorer, new_scorer}
use gopbx.Call.Audio.{
  AudioLine, Surroundings, line_processors, recognize, close_recognizer, new_line, handle_binary,
  run_line, has_scorer,
}
use gopbx.Media.AsrSends.{sends, sends-append, asr_process-sends}

-- One more step: what was sent before, then what the step sends.
extend :
    (before sent : Frames) (now : Frames) (rest : Frames) (all : Frames)
    → Sublist sent now
    → Sublist all ((before ++ sent) ++ rest)
    → Sublist all (before ++ (now ++ rest))
extend before sent now rest all h k = Sublist.trans k (
    subst (Sublist ((before ++ sent) ++ rest)) (append_assoc before now rest)
      (Sublist.append (Sublist.append (Sublist.refl before) h) (Sublist.refl rest)))

module _ (fl : Floats) where
  -- The last processor of a line.
  abbrev pub recognizer : Surroundings fl → Processor (AudioLine fl)
  recognizer w = record {
    name = codes "asr";
    process = recognize fl w;
    close = some (close_recognizer fl w);
  }

  recognizer-vad :
      (w : Surroundings fl) (ps : List Packet) (s : AudioLine fl)
      → (apply (recognizer w) ps s).0.vad ≡ s.vad
  recognizer-vad w [] s = refl
  recognizer-vad w (p ∷ ps) s = recognizer-vad w ps (recognize fl w p s).0

  recognizer-sends :
      (w : Surroundings fl) (ps : List Packet) (s : AudioLine fl)
      → Definite ps
      → Sublist (sends (apply (recognizer w) ps s).0.actions) (sends s.actions ++ audio_of ps)
  recognizer-sends w [] s h =
      subst (Sublist (sends s.actions)) (sym (append-nil (sends s.actions)))
        (Sublist.refl (sends s.actions))
  recognizer-sends w (p ∷ ps) s (e, h) =
      let (a, result, actions) = asr_process s.asr p (w.answers p) w.now in
      let ih = recognizer-sends w ps (recognize fl w p s).0 h in
      let all = sends (apply (recognizer w) (p ∷ ps) s).0.actions in
      subst (λ fs. Sublist all (sends s.actions ++ fs)) (sym (audio_of-append (p ∷ []) ps))
        (extend (sends s.actions) (sends actions) (audio_of (p ∷ [])) (audio_of ps) all
          (asr_process-sends s.asr p (w.answers p) w.now e)
          (subst (λ fs. Sublist all (fs ++ audio_of ps)) (sends-append s.actions actions) ih))

  -- The packet that a payload comes as.
  abbrev pub packet_of : Text → List ℕ → Packet
  packet_of id payload = record { track_id = id; payload = payload; kind = audio }

  -- What a line does with one payload: the detector processes it, and what it passes on is recognized.
  push-vad :
      (id : Text) (w : Surroundings fl) (s : AudioLine fl) (payload : List ℕ)
      → (handle_binary fl id w s payload).0.vad
        ≡ (process fl s.vad w.outside (packet_of id payload)).0
  unfolding handle_binary chain_process denoise_process recorder_process passthrough
  push-vad id w s payload =
      let p = packet_of id payload in
      let heard = process fl s.vad w.outside p in
      let t : AudioLine fl = record s {
        recorded = (recorder_process p s.recorded).0;
        vad = heard.0;
      } in
      ap (λ r. r.0.vad) (chain_process-pass (line_processors fl w) p s)
      ∙ recognizer-vad w (heard.1.packets ++ []) t

  push-sends :
      (id : Text) (w : Surroundings fl) (s : AudioLine fl) (payload : List ℕ)
      → Sublist (sends (handle_binary fl id w s payload).0.actions) (
          sends s.actions ++ audio_of (process fl s.vad w.outside (packet_of id payload)).1.packets)
  unfolding handle_binary chain_process denoise_process recorder_process passthrough
  push-sends id w s payload =
      let p = packet_of id payload in
      let heard = process fl s.vad w.outside p in
      let t : AudioLine fl = record s {
        recorded = (recorder_process p s.recorded).0;
        vad = heard.0;
      } in
      let whole = append-nil heard.1.packets in
      subst (λ r. Sublist (sends r.0.actions) (sends s.actions ++ audio_of heard.1.packets))
        (sym (chain_process-pass (line_processors fl w) p s))
        (subst
          (λ ps.
            Sublist (sends (apply (recognizer w) (heard.1.packets ++ []) t).0.actions)
              (sends s.actions ++ audio_of ps))
          whole
          (recognizer-sends w (heard.1.packets ++ []) t
            (Definite-append heard.1.packets [] (process-Definite fl s.vad w.outside p) tt)))

  -- The packets of a run with what the detector reads from outside at each.
  abbrev pub heard_by : Text → List (Surroundings fl × List ℕ) → List (Outside fl × Packet)
  heard_by id [] = []
  heard_by id ((w, payload) ∷ rest) = (w.outside, packet_of id payload) ∷ heard_by id rest

  abbrev pub received : List (Surroundings fl × List ℕ) → Frames
  received [] = []
  received ((w, payload) ∷ rest) = payload ∷ received rest

  heard_by-audio :
      (id : Text) (pushes : List (Surroundings fl × List ℕ)) → AllAudio fl (heard_by id pushes)
  unfolding resolved_kind
  heard_by-audio id [] = tt
  heard_by-audio id ((w, payload) ∷ rest) = (refl, heard_by-audio id rest)

  heard_by-payloads :
      (id : Text) (pushes : List (Surroundings fl × List ℕ))
      → payloads fl (heard_by id pushes) ≡ received pushes
  heard_by-payloads id [] = refl
  heard_by-payloads id ((w, payload) ∷ rest) = ap (λ fs. payload ∷ fs) (heard_by-payloads id rest)

  run_line-sends :
      (id : Text) (s : AudioLine fl) (pushes : List (Surroundings fl × List ℕ))
      → Sublist
          (sends (run_line fl id s pushes).actions)
          (sends s.actions ++ audio_of (run fl s.vad (heard_by id pushes)).1.packets)
  unfolding run_line run
  run_line-sends id s [] =
      subst (Sublist (sends s.actions)) (sym (append-nil (sends s.actions)))
        (Sublist.refl (sends s.actions))
  run_line-sends id s ((w, payload) ∷ rest) =
      let p = packet_of id payload in
      let heard = process fl s.vad w.outside p in
      let t = (handle_binary fl id w s payload).0 in
      let final = sends (run_line fl id t rest).actions in
      let later = audio_of (run fl heard.0 (heard_by id rest)).1.packets in
      let ih =
        subst
          (λ v. Sublist final (sends t.actions ++ audio_of (run fl v (heard_by id rest)).1.packets))
          (push-vad id w s payload) (run_line-sends id t rest) in
      let both =
        Sublist.trans ih (Sublist.append (push-sends id w s payload) (Sublist.refl later)) in
      subst (λ fs. Sublist final (sends s.actions ++ fs))
        (sym (audio_of-append heard.1.packets (run fl heard.0 (heard_by id rest)).1.packets))
        (subst (Sublist final) (append_assoc (sends s.actions) (audio_of heard.1.packets) later)
          both)

  line-ordered :
      (id : Text) (s : AudioLine fl) (cfg : Option (VadOption fl.Float32)) (scorer : Bool)
      (pushes : List (Surroundings fl × List ℕ))
      → s.vad ≡ new_vad fl cfg scorer
      → s.actions ≡ []
      → s.vad.bypass ≡ false
      → Sublist (sends (run_line fl id s pushes).actions) (received pushes)
  line-ordered id s cfg scorer pushes v a b =
      let sent = sends (run_line fl id s pushes).actions in
      let new =
        subst
          (λ u.
            Sublist sent (sends s.actions ++ audio_of (run fl u (heard_by id pushes)).1.packets))
          v (run_line-sends id s pushes) in
      let out = audio_of (run fl (new_vad fl cfg scorer) (heard_by id pushes)).1.packets in
      let passed = subst (λ actions. Sublist sent (sends actions ++ out)) a new in
      Sublist.trans passed (
        subst (Sublist out) (heard_by-payloads id pushes) (
          run_ordered fl cfg scorer (heard_by id pushes) (ap (λ (u : Vad fl). u.bypass) (sym v) ∙ b)
            (heard_by-audio id pushes)))

  -- Whatever the audio of a call is and whatever the scorer and the provider answer, the audio that is
  -- written to the recognition provider is a subsequence of the audio received, unless the detector only
  -- passes audio through.
  pub run_line-ordered :
      (env : Environment) (builds : Scorer → Bool) (id : Text) (option : Option CallOption)
      (vad : Option (VadOption fl.Float32)) (pushes : List (Surroundings fl × List ℕ))
      → (new_line fl env builds id option vad).vad.bypass ≡ false
      → Sublist
          (sends (run_line fl id (new_line fl env builds id option vad) pushes).actions)
          (received pushes)
  unfolding new_line
  run_line-ordered env builds id option vad pushes b =
      line-ordered id (new_line fl env builds id option vad) vad
        (has_scorer builds (new_scorer env fl vad)) pushes refl refl b
