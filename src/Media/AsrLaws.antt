-- ===== src/Media/AsrLaws.antt =====
-- processor/asr.go: which recognition sessions are open, and when.
use gopbx.Prelude.{
  ℕ, suc, ◌+◌, ◌≤◌, ◌<◌, ◌≡◌, refl, ℤ, Bool, true, false, ◌==◌, List, [], ◌∷◌, ◌++◌, Option, none,
  some, Text, if◌then◌else◌, length, All, is_empty, arith, sym, ap, ◌≢◌, ◌∙◌,
}
use gopbx.Media.Packet.{Packet, resolved_kind}
use gopbx.Media.Asr.{
  Asr, new_asr, Action, opens, writes, closes, Answers, Recognition, stop, stop_active_session,
  ensure_session, process_silence, process_speech, asr_process, asr_close, emit_result,
  is_silent_pcm16, is_segment_end,
}

-- What happens to a processor.
pub data Op : Type 0 where
  packet : Packet → Answers → ℤ → Op
  shut : Answers → Op
  recognized : Recognition → ℤ → Op

unfoldable pub step : Asr → Op → Asr × List Action
unfolding asr_process asr_close emit_result
step a (packet p answers now) = let (b, _, actions) = asr_process a p answers now in (b, actions)
step a (shut answers) = let (b, _, actions) = asr_close a answers in (b, actions)
step a (recognized r now) = ((emit_result a r now).0, [])

unfoldable pub run : Asr → List Op → Asr × List Action
run a [] = (a, [])
run a (op ∷ ops) = let (b, now) = step a op in let (c, later) = run b ops in (c, now ++ later)

-- The open session after an action, none where the action is not in its turn. `n` is the number that
-- the next session gets.
abbrev pub after_action : ℕ → Option ℕ → Action → Option (ℕ × Option ℕ)
after_action n none (opens m) = if m == n then some (suc n, some m) else none
after_action n (some k) (opens m) = none
after_action n none (writes m payload) = none
after_action n (some k) (writes m payload) = if m == k then some (n, some k) else none
after_action n none (closes m) = none
after_action n (some k) (closes m) = if m == k then some (n, none) else none

unfoldable pub walk : Option (ℕ × Option ℕ) → List Action → Option (ℕ × Option ℕ)
walk none acts = none
walk (some state) [] = some state
walk (some state) (act ∷ acts) = walk (after_action state.0 state.1 act) acts

walk-none : (ys : List Action) → walk none ys ≡ none
unfolding walk
walk-none ys = refl

pub walk-append :
    (o : Option (ℕ × Option ℕ)) (xs ys : List Action) → walk o (xs ++ ys) ≡ walk (walk o xs) ys
unfolding walk
walk-append none [] [] = refl
walk-append none [] (y ∷ ys) = refl
walk-append none (x ∷ xs) ys = sym (walk-none ys)
walk-append (some state) [] ys = refl
walk-append (some state) (x ∷ xs) ys = walk-append (after_action state.0 state.1 x) xs ys

-- What the log of a processor leaves open.
abbrev pub place : Asr → Option (ℕ × Option ℕ)
place a = some (a.opened, a.session)

pub step-walk : (a : Asr) (op : Op) → walk (place a) (step a op).1 ≡ place (step a op).0
unfolding walk step stop stop_active_session ensure_session process_silence process_speech
step-walk a (packet p answers now) = ground arith
step-walk a (shut answers) = ground arith
step-walk a (recognized r now) = refl

run-walk : (a : Asr) (ops : List Op) → walk (place a) (run a ops).1 ≡ place (run a ops).0
unfolding run walk
run-walk a [] = refl
run-walk a (op ∷ ops) =
    walk-append (place a) (step a op).1 (run (step a op).0 ops).1
    ∙ ap (λ o. walk o (run (step a op).0 ops).1) (step-walk a op)
    ∙ run-walk (step a op).0 ops

-- Whatever packets, results and closes a new processor gets, and whatever the provider answers, its log
-- of calls is in order: a session is opened only while none is open, and with the next number, audio
-- goes to the open session only, and only the open session is closed. What the log leaves open is the
-- session that the processor holds.
pub run-in_order :
    (track provider : Text) (segmented : Bool) (ops : List Op)
    → let (a, actions) = run (new_asr track provider segmented) ops in
      walk (some (0, none)) actions ≡ some (a.opened, a.session)
unfolding new_asr
run-in_order track provider segmented ops = run-walk (new_asr track provider segmented) ops

abbrev is_open : Option ℕ → Bool
is_open none = false
is_open (some n) = true

-- A session is open only while fewer than eight silent packets came in a row.
abbrev Counts : Asr → Type 0
Counts a = is_open a.session ≡ true → a.silence < 8

step-Counts : (a : Asr) (op : Op) → Counts a → Counts (step a op).0
unfolding step stop stop_active_session ensure_session process_silence process_speech
step-Counts a (packet p answers now) h = ground arith
step-Counts a (shut answers) h = ground arith
step-Counts a (recognized r now) h = h

run-Counts : (a : Asr) (ops : List Op) → Counts a → Counts (run a ops).0
unfolding run
run-Counts a [] h = h
run-Counts a (op ∷ ops) h = run-Counts (step a op).0 ops (step-Counts a op h)

-- A packet of audio, not empty, that is silent.
abbrev pub IsSilent : Op → Type 0
IsSilent (packet p answers now) =
    (is_segment_end (resolved_kind p) ≡ false)
    × (is_empty p.payload ≡ false)
    × (is_silent_pcm16 p.payload ≡ true)
IsSilent _ = ⊥

step_segmented : (a : Asr) (op : Op) → (step a op).0.segmented ≡ a.segmented
unfolding step stop stop_active_session ensure_session process_silence process_speech
step_segmented a (packet p answers now) = ground arith
step_segmented a (shut answers) = ground arith
step_segmented a (recognized r now) = refl

step_silence :
    (a : Asr) (op : Op)
    → a.segmented ≡ false
    → IsSilent op
    → is_open (step a op).0.session ≡ true
    → (is_open a.session ≡ true) × ((step a op).0.silence ≡ a.silence + 1)
unfolding step stop stop_active_session ensure_session process_silence process_speech
step_silence a (packet p answers now) u h o = ground arith
step_silence a (shut answers) u h o = absurd h
step_silence a (recognized r now) u h o = absurd h

run_silence :
    (a : Asr) (ops : List Op)
    → a.segmented ≡ false
    → All IsSilent ops
    → is_open (run a ops).0.session ≡ true
    → (is_open a.session ≡ true) × ((run a ops).0.silence ≡ a.silence + length ops)
unfolding run
run_silence a [] u h o = (o, omega arith)
run_silence a (op ∷ ops) u h o =
    let later = run_silence (step a op).0 ops (step_segmented a op ∙ u) h.1 o in
    let now = step_silence a op u h.0 later.0 in (now.0, omega (arith, now.1, later.1))

run_segmented : (a : Asr) (ops : List Op) → (run a ops).0.segmented ≡ a.segmented
unfolding run
run_segmented a [] = refl
run_segmented a (op ∷ ops) = run_segmented (step a op).0 ops ∙ step_segmented a op

open_none : is_open none ≢ true
open_none e = cc

not_open : (o : Option ℕ) → (is_open o ≢ true) → o ≡ none
not_open none h = refl
not_open (some n) h = absurd (h refl)

-- A processor that is not fed segments holds no session open over silence: after anything, and then
-- eight or more silent packets in a row, no session is open.
pub silence_closes :
    (track provider : Text) (ops silent : List Op)
    → All IsSilent silent
    → 8 ≤ length silent
    → (run (run (new_asr track provider false) ops).0 silent).0.session ≡ none
unfolding new_asr
silence_closes track provider ops silent h long =
    let start = new_asr track provider false in
    let a = (run start ops).0 in
    let b = (run a silent).0 in
    let few = run-Counts a silent (run-Counts start ops (λ o. absurd (open_none o))) in
    let many = run_silence a silent (run_segmented start ops) h in
    not_open b.session (λ o. absurd (omega (arith, few o, (many o).1, long)))
