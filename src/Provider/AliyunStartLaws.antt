-- ===== src/Provider/AliyunStartLaws.antt =====
-- tts/aliyun.go: what the start of a synthesis leaves, and how its stream ends.
use gopbx.Prelude.{
  ℕ, ◌≤◌, ◌≡◌, refl, Bool, true, false, List, [], ◌∷◌, Option, none, some, Text, leb,
}
use gopbx.Protocol.Command.{SynthesisOption}
use gopbx.Provider.AliyunConfig.{Credentials, SynthesisParam, new_aliyun_synthesis_config}
use gopbx.Provider.AliyunTts.{Once, fresh, shutting, complete, AliyunStream, new_aliyun_stream}
use gopbx.Provider.AliyunStart.{
  StartAnswers, failed, mocked, streaming, Starting, ClientAct, creates_client, shuts_down,
  starts_synthesis, configured, start_synthesis,
}

-- Whether a client is open after what is done to it.
abbrev pub left_open : Bool → List ClientAct → Bool
left_open is_open [] = is_open
left_open is_open (creates_client ∷ acts) = left_open true acts
left_open is_open (starts_synthesis ∷ acts) = left_open is_open acts
left_open is_open (shuts_down ∷ acts) = left_open false acts

-- A client is open where a stream on it is returned, with a goroutine that waits for its completion, and
-- nowhere else.
abbrev pub Kept : Starting → Type 0
Kept r = elim r.result [
  | failed e ↦ (left_open false r.acts ≡ false) × (r.waiting ≡ false)
  | mocked s ↦ (left_open false r.acts ≡ false) × (r.waiting ≡ false)
  | streaming s ↦ (left_open false r.acts ≡ true) × (r.waiting ≡ true) × (s ≡ new_aliyun_stream)
]

configured-Kept :
    (text : Text) (configure create start : Option Text) (c : Option Credentials)
    → Kept (configured text (record { configure = configure; create = create; start = start }) c)
configured-Kept text configure create start none = (refl, refl)
configured-Kept text (some e) create start (some c) = (refl, refl)
configured-Kept text none (some e) start (some c) = (refl, refl)
configured-Kept text none none (some e) (some c) = (refl, refl)
configured-Kept text none none none (some c) = (refl, refl, refl)

-- Whatever the client answers: `StartSynthesis` leaves a client open exactly where it returns a stream on it,
-- which is new, and then a goroutine waits for its completion.
pub start_synthesis-Kept :
    (default_url : Text) (defaults : SynthesisParam) (q : StartAnswers) (text : Text)
    (option : Option SynthesisOption)
    → Kept (start_synthesis default_url defaults q text option)
unfolding start_synthesis
start_synthesis-Kept default_url defaults q text option =
    configured-Kept text q.configure q.create q.start
      (new_aliyun_synthesis_config default_url defaults option).0

abbrev stage : Once → ℕ
stage fresh = 0
stage shutting = 1
stage complete = 2

-- A stream is done once `closeOnce` is.
abbrev DoneLate : AliyunStream → Type 0
DoneLate s = s.done ≡ leb 2 (stage s.once)

-- A step of any goroutine.
Onward : AliyunStream → AliyunStream → Type 0
Onward s t = DoneLate t × (stage s.once ≤ stage t.once)
