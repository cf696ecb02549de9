-- ===== src/Sdk/ClientLaws.antt =====
-- sdk/go/client.go: the client and the gateway understand each other.
use gopbx.Prelude.{
  ℤ, ◌≡◌, refl, ap, ap₂, ◌∙◌, true, false, List, [], ◌∷◌, ◌++◌, Option, none, some, Text, codes,
  is_empty, Fallible, ok, failure, ◌>>=◌, ◌>>◌, All,
}
use gopbx.Protocol.Event.{EventEnvelope}
use gopbx.Protocol.Command.{
  CommandEnvelope, CallOption, validate_first_command, is_first_command_allowed, deref_text, invite,
}
use gopbx.Call.Setup.{World, check_first, validate_call_options, decode_command, call_option}
use gopbx.Session.State.{Session, CloseInfo, hangup}
use gopbx.Session.Router.{Outside, route, respond, route_hangup, hangup_event}
use gopbx.Sdk.Client.{http_to_ws, ws_to_http}
use gopbx.Sdk.Calls.{
  invite_command, call_setup, command_named, hangup_command, unless_empty, Round, round_event,
  hand_over, after_round, read_loop,
}

-- An address of the scheme http or https is the same after it was made one of WebSocket and one of HTTP again.
ws_to_http-http_to_ws :
    (rest : Text)
    → (ws_to_http (http_to_ws (codes "https://" ++ rest)) ≡ codes "https://" ++ rest)
      × (ws_to_http (http_to_ws (codes "http://" ++ rest)) ≡ codes "http://" ++ rest)
unfolding ws_to_http http_to_ws
ws_to_http-http_to_ws rest = (refl, refl)

deref_text-unless_empty : (v : Text) → deref_text (unless_empty v) ≡ v
unfolding deref_text
deref_text-unless_empty [] = refl
deref_text-unless_empty (c ∷ v) = refl

decode_command-ok :
    (unmarshal : Text → Fallible CommandEnvelope) (wire raw : Text)
    → unmarshal wire ≡ ok (record (command_named invite) { option = raw })
    → decode_command unmarshal wire ≡ ok (record (command_named invite) { option = raw })
unfolding decode_command
decode_command-ok unmarshal wire raw e = rw e refl

call_option-ok :
    (unmarshal : Text → Fallible CallOption) (raw : Text) (option : CallOption)
    → is_empty raw ≡ false
    → unmarshal raw ≡ ok option
    → call_option unmarshal (record (command_named invite) { option = raw }) ≡ ok (some option)
unfolding call_option
call_option-ok unmarshal raw option n u = rw n (rw u refl)

-- Where JSON decoding gives back the invitation that the client sent and its options, the gateway takes it as
-- the first message exactly where the options are valid, and then has those that the client gave.
pub check_first-invite_command :
    (w : World) (marshal : CallOption → Fallible Text) (option : CallOption) (raw wire : Text)
    → marshal option ≡ ok raw
    → is_empty raw ≡ false
    → w.unmarshal_option raw ≡ ok option
    → w.unmarshal wire ≡ invite_command marshal (some option)
    → check_first w true wire ≡ (validate_call_options w (some option) raw >> ok (some option))
unfolding check_first invite_command call_setup validate_first_command is_first_command_allowed
check_first-invite_command w marshal option raw wire m n u e =
    let received : w.unmarshal wire ≡ ok (record (command_named invite) { option = raw }) =
      e ∙ ap (λ r. r >>= (λ o. ok (record (command_named invite) { option = o }))) m in
    rw (decode_command-ok w.unmarshal wire raw received)
      (rw (call_option-ok w.unmarshal_option raw option n u) refl)

abbrev pub asked : Text → Text → CloseInfo
asked reason initiator = record { cause = hangup; reason = reason; initiator = initiator; err = [] }

-- The gateway answers the client's hangup with the hangup event alone and asks to close the session, and both
-- have the reason and the initiator that the client gave, empty or not.
pub route-hangup_command :
    (outside : Outside) (s : Session) (reason initiator : Text) (now later : ℤ)
    → (route outside s (hangup_command reason initiator) now later).1 ≡ record {
      events = hangup_event now (asked reason initiator) ∷ [];
      close = some (asked reason initiator);
    }
unfolding route respond route_hangup hangup_command hangup_event
route-hangup_command outside s reason initiator now later =
    ap₂ (λ r i. record { events = hangup_event now (asked r i) ∷ []; close = some (asked r i) })
      (deref_text-unless_empty reason) (deref_text-unless_empty initiator)

-- Two lists of one length that are related place by place.
abbrev Matched {ℓ} : {A B : Type ℓ} → (A → B → Type 0) → List A → List B → Type 0
Matched R [] [] = Unit
Matched R (x ∷ xs) (y ∷ ys) = R x y × Matched R xs ys
Matched R _ _ = ⊥

-- The loop of the client hands the events over in their order while the handler takes them, and returns the
-- first error of a round.
read_loop-error :
    (unmarshal : Text → Fallible EventEnvelope) (handler : EventEnvelope → Option Text)
    (before after : List Round) (round : Round) (events : List EventEnvelope) (err : Text)
    → Matched (λ r event. round_event unmarshal r ≡ ok event) before events
    → All (λ event. handler event ≡ none) events
    → round_event unmarshal round ≡ failure err
    → read_loop unmarshal handler (before ++ round ∷ after) ≡ (events, some err)
unfolding read_loop
read_loop-error unmarshal handler [] after round [] err m h e =
    ap (λ f. after_round handler f (read_loop unmarshal handler after)) e
read_loop-error unmarshal handler [] after round (event ∷ events) err m h e = absurd m
read_loop-error unmarshal handler (first ∷ before) after round [] err m h e = absurd m
read_loop-error unmarshal handler (first ∷ before) after round (event ∷ events) err (m, ms) (h, hs)
      e =
    let later = read_loop unmarshal handler (before ++ round ∷ after) in
    ap (λ f. after_round handler f later) m
    ∙ ap (λ f. hand_over event f later) h
    ∙ ap (λ p. hand_over event none p)
        (read_loop-error unmarshal handler before after round events err ms hs e)
