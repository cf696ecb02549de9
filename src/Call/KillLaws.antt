-- ===== src/Call/KillLaws.antt =====
-- call_handler.go and session/manager.go: a call that is killed while its handler runs.
use gopbx.Prelude.{
  ℕ, ◌≡◌, refl, ap, ◌∙◌, ℤ, Bool, true, false, List, [], ◌∷◌, Text, codes, if_intro, or_else,
}
use gopbx.Protocol.Command.{CommandEnvelope}
use gopbx.Protocol.Event.{EventEnvelope}
use gopbx.Session.State.{
  Session, CloseInfo, request_close, fail, finalize, is_unset, merge_close_info,
  normalize_close_info,
}
use gopbx.Session.Manager.{killed as request_of_kill}
use gopbx.Session.Router.{Outside, route}
use gopbx.Media.Floats.{Floats}
use gopbx.Media.WebRtc.{Rtp, Consumed, reading, ended, reported, consume_one}
use gopbx.Call.Handler.{
  Handling, Incoming, read_error, binary_message, text_message, other_message, is_webrtc, turn,
}
use gopbx.Call.Audio.{AudioLine, Surroundings, handle_binary, stream_of}
use gopbx.Call.Serve.{build_call_record}
use gopbx.Call.KeepLaws.{turn-keeps}
use gopbx.Call.LiveLaws.{route-Same}
use gopbx.Call.Talk.{
  Setting, Arrival, broken, ignored, killed, binary, command, remote, Talk, noted, kill,
  hear_remote, talk_turn, overhear, talk,
}

-- Somebody asked to close the session, and the first who did was `Kill`.
abbrev Killed : Session → Type 0
Killed s =
    (s.close_requested ≡ true)
    × (is_unset s.close_info.cause ≡ false)
    × (s.close_info.reason ≡ codes "killed")
    × (s.close_info.initiator ≡ codes "system")

request_close-Killed : (s : Session) (info : CloseInfo) → Killed s → Killed (request_close s info).0
unfolding request_close merge_close_info or_else
request_close-Killed s info (asked, cause, reason, initiator) =
    rw (asked, cause, reason, initiator) (refl, cause, refl, refl)

route-Killed :
    (out : Outside) (s : Session) (cmd : CommandEnvelope) (now later : ℤ)
    → Killed s
    → Killed (route out s cmd now later).0
route-Killed out s cmd now later h =
    let same = route-Same out cmd now later s in
    (
      same.requested ∙ h.0,
      ap (λ (i : CloseInfo). is_unset i.cause) same.info ∙ h.1,
      ap (λ (i : CloseInfo). i.reason) same.info ∙ h.2,
      ap (λ (i : CloseInfo). i.initiator) same.info ∙ h.3,
    )

-- The record of a session that was killed says so.
Told : Session → CloseInfo → ℕ → Text → Type 0
Told s info end dump =
    let rec = build_call_record (finalize s info end).0 info dump in
    (rec.hangup_reason ≡ codes "killed") × (rec.hangup_initiator ≡ codes "system")

Killed-Told :
    (s : Session) (info : CloseInfo) (end : ℕ) (dump : Text) → Killed s → Told s info end dump
unfolding Told finalize build_call_record merge_close_info or_else
Killed-Told s info end dump (asked, cause, reason, initiator) =
    rw (asked, cause, reason, initiator) (rw cause (refl, refl))

module _ (fl : Floats) (c : Setting) where
  open c use {out, decode, has_track, call_type, id, mime, clock_rate}

  abbrev Stays : Talk fl → Type 0
  Stays t = Killed t.handling.session

  noted-Killed :
      (t : Talk fl) (line : AudioLine fl) (sent : List EventEnvelope) (state : Consumed)
      → Stays t
      → Stays (noted fl c t (line, sent, state))
  unfolding fail
  noted-Killed t line sent reading h = h
  noted-Killed t line sent ended h = h
  noted-Killed t line sent (reported e) h = request_close-Killed t.handling.session _ h

  hear_remote-Killed :
      (t : Talk fl) (w : Surroundings fl) (r : Rtp) → Stays t → Stays (hear_remote fl c t w r)
  unfolding hear_remote
  hear_remote-Killed t w r h =
      let (line, sent, state) = consume_one (stream_of fl id w) id mime clock_rate r t.line in
      if_intro Stays t.listening (λ _. noted-Killed t line sent state h) (λ _. h)

  turns :
      (h : Handling) (message : Incoming)
      → Killed h.session
      → Killed (turn out decode has_track h message).0.session
  turns = turn-keeps Killed request_close-Killed out decode has_track (route-Killed out)

  talk_turn-Killed :
      (t : Talk fl) (message : Arrival fl) → Stays t → Stays (talk_turn fl c t message).0
  unfolding talk_turn kill
  talk_turn-Killed t broken h = turns t.handling read_error h
  talk_turn-Killed t ignored h = turns t.handling other_message h
  talk_turn-Killed t killed h = request_close-Killed t.handling.session request_of_kill h
  talk_turn-Killed t (remote w r) h = hear_remote-Killed t w r h
  talk_turn-Killed t (command raw refused fault now later) h =
      turns t.handling (text_message raw refused fault now later) h
  talk_turn-Killed t (binary w payload fault) h =
      let events = (handle_binary fl id w t.line payload).1 in
      if_intro (λ (r : Talk fl × Bool). Stays r.0) (is_webrtc call_type) (λ _. h)
        (λ _. turns t.handling (binary_message events fault) h)

  overhear-Killed :
      (t : Talk fl) (messages : List (Arrival fl)) → Stays t → Stays (overhear fl c t messages)
  unfolding overhear kill
  overhear-Killed t [] h = h
  overhear-Killed t (remote w r ∷ messages) h =
      overhear-Killed (hear_remote fl c t w r) messages (hear_remote-Killed t w r h)
  overhear-Killed t (killed ∷ messages) h =
      overhear-Killed (kill fl c t) messages
        (request_close-Killed t.handling.session request_of_kill h)
  overhear-Killed t (broken ∷ messages) h = overhear-Killed t messages h
  overhear-Killed t (ignored ∷ messages) h = overhear-Killed t messages h
  overhear-Killed t (command raw refused fault now later ∷ messages) h =
      overhear-Killed t messages h
  overhear-Killed t (binary w payload fault ∷ messages) h = overhear-Killed t messages h

  talk-Killed :
      (t : Talk fl) (messages : List (Arrival fl)) → Stays t → Stays (talk fl c t messages)
  unfolding talk
  talk-Killed t [] h = h
  talk-Killed t (message ∷ messages) h =
      let next = talk_turn-Killed t message h in
      let (u, goes_on) = talk_turn fl c t message in
      if_intro Stays goes_on (λ _. talk-Killed u messages next)
        (λ _. overhear-Killed u messages next)

  -- A call that is killed while its handler is in its loop, and that nobody asked to close before, is
  -- recorded as killed by the system, whatever the client, the remote track and the handler do from then on.
  pub killed-Recorded :
      (t : Talk fl) (messages : List (Arrival fl)) (end : ℕ) (dump : Text)
      → t.handling.session.close_requested ≡ false
      → let last = (talk fl c t (killed ∷ messages)).handling in
        let rec =
          build_call_record (finalize last.session last.close_info end).0 last.close_info dump in
        (rec.hangup_reason ≡ codes "killed") × (rec.hangup_initiator ≡ codes "system")
  unfolding talk talk_turn kill request_close Told normalize_close_info
  killed-Recorded t messages end dump unasked =
      let s = t.handling.session in
      let now : Killed (request_close s request_of_kill).0 = rw unasked (refl, refl, refl, refl) in
      let u = kill fl c t in
      let last = (talk fl c u messages).handling in
      Killed-Told last.session last.close_info end dump (talk-Killed u messages now)
