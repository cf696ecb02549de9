-- ===== src/Call/LoopLaws.antt =====
-- call_handler.go: the handler's loop of a WebSocket call, seen with its audio and without.
use gopbx.Prelude.{◌≡◌, refl, ap, ◌∙◌, Bool, true, false, List, [], ◌∷◌, if◌then◌else◌}
use gopbx.Media.Floats.{Floats}
use gopbx.Media.WebRtc.{Rtp}
use gopbx.Call.Handler.{
  Handling, Incoming, read_error, binary_message, text_message, other_message, is_webrtc, loop,
  turn,
}
use gopbx.Call.Audio.{AudioLine, Surroundings, handle_binary}
use gopbx.Call.Talk.{
  Setting, Arrival, killed, broken, ignored, binary, command, remote, Talk, hear_remote, talk_turn,
  overhear, talk,
}

module _ (fl : Floats) (c : Setting) where
  open c use {out, decode, has_track, call_type, id}

  abbrev hear_from : Talk fl → Surroundings fl → Rtp → Talk fl
  hear_from = hear_remote fl c

  abbrev talk_on : Talk fl → List (Arrival fl) → Talk fl
  talk_on = talk fl c

  -- What the handler's loop reads of the messages: audio comes with the events that the line answers it
  -- with, one message after the other.
  abbrev plain : AudioLine fl → List (Arrival fl) → List Incoming
  plain line [] = []
  plain line (broken ∷ messages) = read_error ∷ plain line messages
  plain line (ignored ∷ messages) = other_message ∷ plain line messages
  plain line (binary w payload fault ∷ messages) =
      let (next, events) = handle_binary fl id w line payload in
      binary_message events fault ∷ plain next messages
  plain line (command raw refused fault now later ∷ messages) =
      text_message raw refused fault now later ∷ plain line messages
  plain line (_ ∷ messages) = plain line messages

  -- Nobody kills the session.
  abbrev Unkilled : List (Arrival fl) → Type 0
  Unkilled [] = Unit
  Unkilled (killed ∷ messages) = ⊥
  Unkilled (_ ∷ messages) = Unkilled messages

  hear_remote-deaf :
      (t : Talk fl) (w : Surroundings fl) (r : Rtp) → t.listening ≡ false → hear_from t w r ≡ t
  unfolding hear_remote
  hear_remote-deaf t w r deaf = rw deaf

  overhear-deaf :
      (t : Talk fl) (messages : List (Arrival fl))
      → t.listening ≡ false
      → Unkilled messages
      → overhear fl c t messages ≡ t
  unfolding overhear
  overhear-deaf t [] deaf calm = refl
  overhear-deaf t (remote w r ∷ messages) deaf calm =
      ap (λ u. overhear fl c u messages) (hear_remote-deaf t w r deaf)
      ∙ overhear-deaf t messages deaf calm
  overhear-deaf t (killed ∷ messages) deaf calm = absurd calm
  overhear-deaf t (broken ∷ messages) deaf calm = overhear-deaf t messages deaf calm
  overhear-deaf t (ignored ∷ messages) deaf calm = overhear-deaf t messages deaf calm
  overhear-deaf t (command raw refused fault now later ∷ messages) deaf calm =
      overhear-deaf t messages deaf calm
  overhear-deaf t (binary w payload fault ∷ messages) deaf calm = overhear-deaf t messages deaf calm

  -- Whether the loop goes on or not, both views stand at the same handling.
  either :
      (goes_on : Bool) (u : Talk fl) (messages : List (Arrival fl)) (later : Handling)
      → u.listening ≡ false
      → Unkilled messages
      → (talk_on u messages).handling ≡ later
      → (if goes_on then talk_on u messages else overhear fl c u messages).handling
        ≡ (if goes_on then later else u.handling)
  either true u messages later deaf calm same = same
  either false u messages later deaf calm same =
      ap (λ v. v.handling) (overhear-deaf u messages deaf calm)

  -- The handler of a WebSocket call that nobody kills, which hears its audio through the line of processors, ends as its loop
  -- does on the events that the line answers with.
  talk-loop :
      (t : Talk fl) (messages : List (Arrival fl))
      → is_webrtc call_type ≡ false
      → t.listening ≡ false
      → Unkilled messages
      → (talk_on t messages).handling ≡ loop out decode has_track t.handling (plain t.line messages)
  unfolding talk talk_turn loop
  talk-loop t [] web deaf calm = refl
  talk-loop t (remote w r ∷ messages) web deaf calm =
      ap (λ u. (talk_on u messages).handling) (hear_remote-deaf t w r deaf)
      ∙ talk-loop t messages web deaf calm
  talk-loop t (killed ∷ messages) web deaf calm = absurd calm
  talk-loop t (broken ∷ messages) web deaf calm =
      let (h, goes_on) = turn out decode has_track t.handling read_error in
      let u : Talk fl = record t { handling = h } in
      either goes_on u messages (loop out decode has_track h (plain t.line messages)) deaf calm
        (talk-loop u messages web deaf calm)
  talk-loop t (ignored ∷ messages) web deaf calm =
      let (h, goes_on) = turn out decode has_track t.handling other_message in
      let u : Talk fl = record t { handling = h } in
      either goes_on u messages (loop out decode has_track h (plain t.line messages)) deaf calm
        (talk-loop u messages web deaf calm)
  talk-loop t (command raw refused fault now later ∷ messages) web deaf calm =
      let (h, goes_on) =
        turn out decode has_track t.handling (text_message raw refused fault now later) in
      let u : Talk fl = record t { handling = h } in
      either goes_on u messages (loop out decode has_track h (plain t.line messages)) deaf calm
        (talk-loop u messages web deaf calm)
  talk-loop t (binary w payload fault ∷ messages) web deaf calm =
      let (line, events) = handle_binary fl id w t.line payload in
      let (h, goes_on) = turn out decode has_track t.handling (binary_message events fault) in
      let u : Talk fl = record t { handling = h; line = line } in
      rw web (
        either goes_on u messages (loop out decode has_track h (plain line messages)) deaf calm
          (talk-loop u messages web deaf calm))
