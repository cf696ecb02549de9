-- ===== src/Call/TalkLaws.antt =====
-- call_handler.go: what reaches the recognition provider in a call, and what is open after it.
use mathlib.Core.List.{Sublist, sublist-append_left}
use mathlib.Core.List.Sublist
use gopbx.Prelude.{
  ℕ, ◌≡◌, refl, sym, subst, ap, ◌∙◌, true, false, List, [], ◌∷◌, ◌++◌, if◌then◌else◌, if_intro,
  Fallible, ok, failure,
}
use gopbx.Protocol.Event.{EventEnvelope}
use gopbx.Protocol.Writer.{WriteFault}
use gopbx.Media.Floats.{Floats}
use gopbx.Media.Vad.Conservation.{Frames}
use gopbx.Media.WebRtc.{
  Rtp, eof, rtp_error, rtp, Consumed, reading, ended, reported, consume_one, consume_payload,
  normalize_inbound,
}
use gopbx.Call.Handler.{is_webrtc}
use gopbx.Call.Audio.{AudioLine, Surroundings, stream_of, run_line, handle_binary}
use gopbx.Call.AudioLaws.{received}
use gopbx.Call.Talk.{
  Setting, killed, kill, hear, Arrival, broken, ignored, binary, command, remote, Talk, noted,
  hear_remote, talk_turn, overhear, talk,
}

module _ (fl : Floats) (c : Setting) where
  open c use {call_type, id, mime, clock_rate}

  run_line-append :
      (s : AudioLine fl) (xs ys : List (Surroundings fl × List ℕ))
      → run_line fl id s (xs ++ ys) ≡ run_line fl id (run_line fl id s xs) ys
  unfolding run_line
  run_line-append s [] ys = refl
  run_line-append s ((w, payload) ∷ xs) ys =
      run_line-append (handle_binary fl id w s payload).0 xs ys

  received-append :
      (xs ys : List (Surroundings fl × List ℕ))
      → received fl (xs ++ ys) ≡ received fl xs ++ received fl ys
  received-append [] ys = refl
  received-append ((w, payload) ∷ xs) ys = ap (λ fs. payload ∷ fs) (received-append xs ys)

  -- From one state of a line to another: it was pushed a part of these frames, in their order.
  abbrev pub Pushed : AudioLine fl → Frames → AudioLine fl → Type 0
  Pushed s frames t =
      (pushes : List (Surroundings fl × List ℕ)) × (t ≡ run_line fl id s pushes)
      × Sublist (received fl pushes) frames

  Pushed-nil : (s : AudioLine fl) (frames : Frames) → Pushed s frames s
  unfolding run_line
  Pushed-nil s frames = ([], refl, sublist-append_left [] frames)

  Pushed-append :
      (s t u : AudioLine fl) (before after : Frames)
      → Pushed s before t
      → Pushed t after u
      → Pushed s (before ++ after) u
  Pushed-append s t u before after (xs, p, h) (ys, q, k) = (
    xs ++ ys,
    q ∙ ap (λ v. run_line fl id v ys) p ∙ sym (run_line-append s xs ys),
    subst (λ fs. Sublist fs (before ++ after)) (sym (received-append xs ys)) (Sublist.append h k),
  )

  -- What the payload of a remote packet is decoded to.
  abbrev pub decoded_audio : Fallible (List ℕ) → Frames
  decoded_audio (failure e) = []
  decoded_audio (ok pcm) = pcm ∷ []

  -- The audio that comes with a message.
  abbrev pub audio_in : Arrival fl → Frames
  audio_in (binary w payload fault) = if is_webrtc call_type then [] else payload ∷ []
  audio_in (remote w (rtp payload fault)) =
      decoded_audio (normalize_inbound mime clock_rate payload)
  audio_in _ = []

  abbrev pub arrived : List (Arrival fl) → Frames
  arrived [] = []
  arrived (message ∷ messages) = audio_in message ++ arrived messages

  noted-line :
      (t : Talk fl) (line : AudioLine fl) (sent : List EventEnvelope) (state : Consumed)
      → (noted fl c t (line, sent, state)).line ≡ line
  noted-line t line sent reading = refl
  noted-line t line sent ended = refl
  noted-line t line sent (reported e) = refl

  consume_payload-Pushed :
      (w : Surroundings fl) (pcm : Fallible (List ℕ)) (fault : WriteFault) (s : AudioLine fl)
      → Pushed s
          (decoded_audio pcm)
          (consume_payload (stream_of fl id w) id mime clock_rate pcm fault s).0
  unfolding consume_payload run_line handle_binary
  consume_payload-Pushed w (failure e) fault s = Pushed-nil s []
  consume_payload-Pushed w (ok []) fault s = Pushed-nil s ([] ∷ [])
  consume_payload-Pushed w (ok (b ∷ pcm)) fault s =
      ((w, b ∷ pcm) ∷ [], refl, Sublist.refl ((b ∷ pcm) ∷ []))

  consume_one-Pushed :
      (w : Surroundings fl) (r : Rtp) (s : AudioLine fl)
      → Pushed s (audio_in (remote w r)) (consume_one (stream_of fl id w) id mime clock_rate r s).0
  unfolding consume_one
  consume_one-Pushed w eof s = Pushed-nil s []
  consume_one-Pushed w (rtp_error e) s = Pushed-nil s []
  consume_one-Pushed w (rtp [] fault) s = Pushed-nil s (audio_in (remote w (rtp [] fault)))
  consume_one-Pushed w (rtp (b ∷ payload) fault) s =
      consume_payload-Pushed w (normalize_inbound mime clock_rate (b ∷ payload)) fault s

  hear_remote-Pushed :
      (t : Talk fl) (w : Surroundings fl) (r : Rtp)
      → Pushed t.line (audio_in (remote w r)) (hear_remote fl c t w r).line
  unfolding hear_remote
  hear_remote-Pushed t w r =
      let (line, sent, state) = consume_one (stream_of fl id w) id mime clock_rate r t.line in
      if_intro (λ (u : Talk fl). Pushed t.line (audio_in (remote w r)) u.line) t.listening
        (λ _.
          subst (Pushed t.line (audio_in (remote w r))) (sym (noted-line t line sent state))
            (consume_one-Pushed w r t.line))
        (λ _. Pushed-nil t.line (audio_in (remote w r)))

  talk_turn-Pushed :
      (t : Talk fl) (message : Arrival fl)
      → Pushed t.line (audio_in message) (talk_turn fl c t message).0.line
  unfolding talk_turn kill run_line
  talk_turn-Pushed t broken = Pushed-nil t.line []
  talk_turn-Pushed t ignored = Pushed-nil t.line []
  talk_turn-Pushed t (command raw refused fault now later) = Pushed-nil t.line []
  talk_turn-Pushed t killed = Pushed-nil t.line []
  talk_turn-Pushed t (remote w r) = hear_remote-Pushed t w r
  talk_turn-Pushed t (binary w payload fault) =
      elim (is_webrtc call_type)
        as (λ b.
          Pushed t.line (if b then [] else payload ∷ [])
            (if b
              then (t, true)
              else hear fl c t (handle_binary fl id w t.line payload) fault).0.line) [
                | true ↦ Pushed-nil t.line []
                | false ↦ ((w, payload) ∷ [], refl, Sublist.refl (payload ∷ []))
              ]

  overhear-Pushed :
      (t : Talk fl) (messages : List (Arrival fl))
      → Pushed t.line (arrived messages) (overhear fl c t messages).line
  unfolding overhear kill
  overhear-Pushed t [] = Pushed-nil t.line []
  overhear-Pushed t (remote w r ∷ messages) =
      let u = hear_remote fl c t w r in
      let v = overhear fl c u messages in
      Pushed-append t.line u.line v.line (audio_in (remote w r)) (arrived messages)
        (hear_remote-Pushed t w r) (overhear-Pushed u messages)
  overhear-Pushed t (killed ∷ messages) = overhear-Pushed (kill fl c t) messages
  overhear-Pushed t (broken ∷ messages) = overhear-Pushed t messages
  overhear-Pushed t (ignored ∷ messages) = overhear-Pushed t messages
  overhear-Pushed t (command raw refused fault now later ∷ messages) = overhear-Pushed t messages
  overhear-Pushed t (binary w payload fault ∷ messages) =
      let u = overhear fl c t messages in
      Pushed-append t.line t.line u.line (audio_in (binary w payload fault)) (arrived messages)
        (Pushed-nil t.line (audio_in (binary w payload fault))) (overhear-Pushed t messages)

  pub talk-Pushed :
      (t : Talk fl) (messages : List (Arrival fl))
      → Pushed t.line (arrived messages) (talk fl c t messages).line
  unfolding talk
  talk-Pushed t [] = Pushed-nil t.line []
  talk-Pushed t (message ∷ messages) =
      let (u, goes_on) = talk_turn fl c t message in
      let frames = audio_in message in
      let first = talk_turn-Pushed t message in
      if_intro (λ (v : Talk fl). Pushed t.line (frames ++ arrived messages) v.line) goes_on
        (λ _.
          Pushed-append t.line u.line (talk fl c u messages).line frames (arrived messages) first
            (talk-Pushed u messages))
        (λ _.
          Pushed-append t.line u.line (overhear fl c u messages).line frames (arrived messages)
            first (overhear-Pushed u messages))
