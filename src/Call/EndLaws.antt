-- ===== src/Call/EndLaws.antt =====
-- call_handler.go: the recognition of a call, up to the end of the call.
use mathlib.Core.List.{Sublist}
use mathlib.Core.List.Sublist
use gopbx.Prelude.{
  ℕ, ◌≡◌, refl, sym, subst, ap, ◌∙◌, Bool, true, false, List, [], ◌∷◌, ◌++◌, Option, none, some,
  if◌then◌else◌, if_intro, arith, ℤ, append-nil,
}
use gopbx.Protocol.Command.{CallOption, VadOption}
use gopbx.Media.Floats.{Floats}
use gopbx.Media.Packet.{Packet, passthrough}
use gopbx.Media.Vad.Process.{process}
use gopbx.Media.Asr.{
  Asr, Answers, asr_process, asr_close, stop, stop_active_session, ensure_session, process_silence,
  process_speech,
}
use gopbx.Media.AsrSends.{sends, sends-append}
use gopbx.Media.AsrLaws.{walk, walk-append, place, step, step-walk, packet, shut}
use gopbx.Media.Chain.{chain_process, recorder_process, denoise_process, close_from}
use gopbx.Media.ChainLaws.{apply, chain_process-pass}
use gopbx.Provider.VadScorer.{Environment, Scorer}
use gopbx.Call.Handler.{Handling, is_webrtc}
use gopbx.Call.Audio.{
  AudioLine, Surroundings, line_processors, new_line, run_line, handle_binary, close_line,
  recognize,
}
use gopbx.Call.AudioLaws.{run_line-ordered, recognizer, packet_of}
use gopbx.Call.Talk.{Setting, Arrival, talk, hang_up, call_audio}
use gopbx.Call.TalkLaws.{Pushed, arrived, talk-Pushed}

asr_process-close_done :
    (a : Asr) (p : Packet) (answers : Answers) (now : ℤ)
    → (asr_process a p answers now).0.close_done ≡ a.close_done
unfolding asr_process stop stop_active_session ensure_session process_silence process_speech
asr_process-close_done a p answers now = ground arith

-- What `Close` does to a recognizer that was not closed.
record Shut (a : Asr) (answers : Answers) : Type 0 where
  session : (asr_close a answers).0.session ≡ none
  opened : (asr_close a answers).0.opened ≡ a.opened

asr_close-Shut : (a : Asr) (answers : Answers) → a.close_done ≡ false → Shut a answers
unfolding asr_close
asr_close-Shut a answers h = ground arith

asr_close-sends : (a : Asr) (answers : Answers) → sends (asr_close a answers).2 ≡ []
unfolding asr_close
asr_close-sends a answers = ground arith

module _ (fl : Floats) (c : Setting) where
  open c use {call_type, id}

  -- The log of the calls to the provider is in order, and leaves open what the recognizer holds, which was
  -- not closed yet.
  record InTurn (s : AudioLine fl) : Type 0 where
    open_is : walk (some (0, none)) s.actions ≡ place s.asr
    not_shut : s.asr.close_done ≡ false

  recognize-InTurn :
      (w : Surroundings fl) (p : Packet) (s : AudioLine fl)
      → InTurn s
      → InTurn (recognize fl w p s).0
  unfolding step
  recognize-InTurn w p s h =
      let (a, result, actions) = asr_process s.asr p (w.answers p) w.now in
      record {
        open_is =
            walk-append (some (0, none)) s.actions actions
            ∙ ap (λ o. walk o actions) h.open_is
            ∙ step-walk s.asr (packet p (w.answers p) w.now);
        not_shut = asr_process-close_done s.asr p (w.answers p) w.now ∙ h.not_shut;
      }

  apply-InTurn :
      (w : Surroundings fl) (ps : List Packet) (s : AudioLine fl)
      → InTurn s
      → InTurn (apply (recognizer fl w) ps s).0
  apply-InTurn w [] s h = h
  apply-InTurn w (p ∷ ps) s h = apply-InTurn w ps (recognize fl w p s).0 (recognize-InTurn w p s h)

  handle_binary-InTurn :
      (w : Surroundings fl) (s : AudioLine fl) (payload : List ℕ)
      → InTurn s
      → InTurn (handle_binary fl id w s payload).0
  unfolding handle_binary chain_process denoise_process recorder_process passthrough
  handle_binary-InTurn w s payload h =
      let p = packet_of fl id payload in
      let heard = process fl s.vad w.outside p in
      let t : AudioLine fl = record s {
        recorded = (recorder_process p s.recorded).0;
        vad = heard.0;
      } in
      subst (λ r. InTurn r.0) (sym (chain_process-pass (line_processors fl w) p s))
        (apply-InTurn w (heard.1.packets ++ []) t
          (record { open_is = h.open_is; not_shut = h.not_shut }))

  run_line-InTurn :
      (s : AudioLine fl) (pushes : List (Surroundings fl × List ℕ))
      → InTurn s
      → InTurn (run_line fl id s pushes)
  unfolding run_line
  run_line-InTurn s [] h = h
  run_line-InTurn s ((w, payload) ∷ pushes) h =
      run_line-InTurn (handle_binary fl id w s payload).0 pushes
        (handle_binary-InTurn w s payload h)

  -- `Close` of a line closes its recognizer, and adds what that does to the log.
  record Closes (s : AudioLine fl) (w : Surroundings fl) (t : AudioLine fl) : Type 0 where
    asr : t.asr ≡ (asr_close s.asr w.at_close).0
    actions : t.actions ≡ s.actions ++ (asr_close s.asr w.at_close).2

  close_line-Closes : (w : Surroundings fl) (s : AudioLine fl) → Closes s w (close_line fl id w s)
  unfolding close_line close_from
  close_line-Closes w s = ground arith

  close_line-sends :
      (w : Surroundings fl) (s : AudioLine fl)
      → sends (close_line fl id w s).actions ≡ sends s.actions
  close_line-sends w s =
      ap sends (close_line-Closes w s).actions
      ∙ sends-append s.actions (asr_close s.asr w.at_close).2
      ∙ ap (λ fs. sends s.actions ++ fs) (asr_close-sends s.asr w.at_close)
      ∙ append-nil (sends s.actions)

  -- Nothing is open, and as many sessions were opened as the recognizer counts.
  close_line-walk :
      (w : Surroundings fl) (s : AudioLine fl)
      → InTurn s
      → walk (some (0, none)) (close_line fl id w s).actions
        ≡ some ((close_line fl id w s).asr.opened, none)
  unfolding step
  close_line-walk w s h =
      let c = close_line-Closes w s in
      let closed = asr_close-Shut s.asr w.at_close h.not_shut in
      let a = (asr_close s.asr w.at_close).0 in
      ap (walk (some (0, none))) c.actions
      ∙ walk-append (some (0, none)) s.actions (asr_close s.asr w.at_close).2
      ∙ ap (λ o. walk o (asr_close s.asr w.at_close).2) h.open_is
      ∙ step-walk s.asr (shut w.at_close)
      ∙ ap (λ o. some (a.opened, o)) closed.session
      ∙ ap (λ (b : Asr). some (b.opened, none)) (sym c.asr)

  module _ (env : Environment) (builds : Scorer → Bool) (option : Option CallOption)
      (vad : Option (VadOption fl.Float32)) (w : Surroundings fl) (h : Handling)
      (messages : List (Arrival fl)) where
    abbrev first_line : AudioLine fl
    first_line = new_line fl env builds id option vad

    abbrev last_line : AudioLine fl
    last_line =
        (talk fl c (record { handling = h; line = first_line; listening = is_webrtc call_type })
          messages).line

    heard : Pushed fl c first_line (arrived fl c messages) last_line
    heard =
        talk-Pushed fl c
          (record { handling = h; line = first_line; listening = is_webrtc call_type }) messages

    -- Whatever the client sends in a call, and the remote track gives, in whatever order it is read, whatever
    -- the scorer and the provider answer, and whenever the handler breaks off: the audio that is written to
    -- the recognition provider until the call is over is a subsequence of the audio that arrived, unless the
    -- detector only passes audio through.
    pub call_audio-ordered :
        (new_line fl env builds id option vad).vad.bypass ≡ false
        → Sublist
            (sends (call_audio fl c w h (new_line fl env builds id option vad) messages).actions)
            (arrived fl c messages)
    unfolding call_audio hang_up
    call_audio-ordered b =
        let (pushes, e, sub) = heard in
        let frames = arrived fl c messages in
        let kept =
          subst (λ (s : AudioLine fl). Sublist (sends s.actions) frames) (sym e)
            (Sublist.trans (run_line-ordered fl env builds id option vad pushes b) sub) in
        if_intro (λ (s : AudioLine fl). Sublist (sends s.actions) frames) (is_webrtc call_type)
          (λ _. kept)
          (λ _. subst (λ fs. Sublist fs frames) (sym (close_line-sends w last_line)) kept)

    first-InTurn : InTurn first_line
    unfolding new_line walk
    first-InTurn = record { open_is = refl; not_shut = refl }

    last-InTurn : InTurn last_line
    last-InTurn =
        let (pushes, e, _) = heard in
        subst InTurn (sym e) (run_line-InTurn first_line pushes first-InTurn)

    -- When a call is over, the log of the calls to the recognition provider is in order. In a WebSocket call
    -- it leaves no session open; in a WebRTC call it leaves open the session that the recognizer holds.
    pub call_audio-Ended :
        let line = call_audio fl c w h (new_line fl env builds id option vad) messages in
        walk (some (0, none)) line.actions
        ≡ some (line.asr.opened, if is_webrtc call_type then line.asr.session else none)
    unfolding call_audio hang_up
    call_audio-Ended =
        elim (is_webrtc call_type)
          as (λ b.
            walk (some (0, none)) (if b then last_line else close_line fl id w last_line).actions
            ≡ some (
              (if b then last_line else close_line fl id w last_line).asr.opened,
              if b
                  then (if b then last_line else close_line fl id w last_line).asr.session
                  else none,
            )) [ true ↦ last-InTurn.open_is | false ↦ close_line-walk w last_line last-InTurn ]
