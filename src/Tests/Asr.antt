-- ===== src/Tests/Asr.antt =====
-- Speech recognition and chains at concrete inputs.
use gopbx.Prelude.{ℕ, All, ◌≡◌, refl, pos, false, List, [], ◌∷◌, none, some, codes, arith}
use gopbx.Media.Packet.{Packet, audio}
use gopbx.Media.Asr.{new_asr, Answers, is_silent_pcm16}
use gopbx.Media.AsrLaws.{Op, packet, IsSilent, run, walk, run-in_order, silence_closes}
use gopbx.Media.Chain.{Processor, chain_process, recorder_process, denoise_process}
use gopbx.Media.ChainLaws.{pass, chain_process-pass}

abbrev fine : Answers
fine = record { open_error = none; write_error = none; close_error = none }

abbrev sound : List ℕ → Op
sound payload =
    packet (record { track_id = codes "t"; payload = payload; kind = audio }) fine (pos 1)

abbrev loud : Op
loud = sound (255 ∷ 15 ∷ [])

abbrev hush : Op
hush = sound (0 ∷ 0 ∷ [])

abbrev hushes : List Op
hushes = hush ∷ hush ∷ hush ∷ hush ∷ hush ∷ hush ∷ hush ∷ hush ∷ []

run-in_order_example :
    let (a, actions) = run (new_asr (codes "t") (codes "mock") false) (loud ∷ hush ∷ []) in
    walk (some (0, none)) actions ≡ some (a.opened, a.session)
run-in_order_example = run-in_order (codes "t") (codes "mock") false (loud ∷ hush ∷ [])

hush-IsSilent : IsSilent hush
unfolding is_silent_pcm16 gopbx.Media.Packet.resolved_kind gopbx.Codec.Pcm.int16
    gopbx.Codec.Pcm.le_uint16
hush-IsSilent = (refl, refl, refl)

eight-IsSilent : All IsSilent hushes
eight-IsSilent = let h = hush-IsSilent in (h, (h, (h, (h, (h, (h, (h, (h, tt))))))))

silence_closes_example :
    (run (run (new_asr (codes "t") (codes "mock") false) (loud ∷ [])).0 hushes).0.session ≡ none
silence_closes_example =
    silence_closes (codes "t") (codes "mock") (loud ∷ []) hushes eight-IsSilent (omega arith)

abbrev recorder : Processor ℕ
recorder = record { name = codes "recorder"; process = recorder_process; close = none }

abbrev denoise : Processor ℕ
denoise = record { name = codes "denoise"; process = λ p s. (s, denoise_process p); close = none }

abbrev frame : Packet
frame = record { track_id = codes "t"; payload = 1 ∷ 2 ∷ []; kind = audio }

chain_process-pass_example :
    chain_process (denoise ∷ recorder ∷ []) frame 0 ≡ pass (denoise ∷ recorder ∷ []) (frame ∷ []) 0
chain_process-pass_example = chain_process-pass (denoise ∷ recorder ∷ []) frame 0
