-- ===== src/Media/Vad/Cases.antt =====
-- The branches of the voice detector as rules: what holds of each branch holds of the handler.
use gopbx.Prelude.{
  ℕ, ◌+◌, ◌<◌, ◌≡◌, ◌++◌, true, false, [], ◌∷◌, ◌⊎◌, inl, inr, ltb, ◌==◌, ◌||◌, if_intro, is_empty,
  arith, Text, not,
}
use gopbx.Media.Buffer
use gopbx.Media.Buffer.{empty_buffer}
use gopbx.Media.Floats.{Floats}
use gopbx.Media.Packet.{Packet, Result, empty_result, passthrough, resolved_kind}
use gopbx.Media.Window
use gopbx.Media.Window.{empty_window}
use gopbx.Media.Vad.State.{
  candidate_start, candidate_end, Vad, Outside, pcm_duration_ms, rms_pcm16le, enter_hit,
  observe_noise, reset_to_idle,
}
use gopbx.Media.Vad.Segment.{
  maybe_force_segment_end, maybe_confirm_start, confirm_start, reject_start, accepts_start,
  is_quiet, should_resume_speaking, resume, confirm_end, end_events, segment_end_packet,
  confirms_end,
}
use gopbx.Media.Vad.Process.{
  process_idle, process_speaking, process_candidate_end, listen, dispatch, process, is_audio,
}

module _ {ℓ} (fl : Floats) (P : Vad fl × Result → Type ℓ) (v : Vad fl) (o : Outside fl) where
  pub confirm_start_cases :
      (track : Text)
      → P (v, empty_result)
      → P (reject_start fl v, empty_result)
      → (ltb v.start_buffer.total_ms v.start_window_ms ≡ false → P (confirm_start fl v o track))
      → P (maybe_confirm_start fl v o track)
  unfolding maybe_confirm_start
  confirm_start_cases track wait reject confirm =
      if_intro P
        (ltb v.start_buffer.total_ms v.start_window_ms
          || ltb v.start_activity.total_ms v.start_window_ms)
        (λ _. wait)
        (λ full.
          if_intro P (fl.lt (Window.ratio fl v.start_activity) v.start_activity_ratio)
            (λ _.
              if_intro (λ w. P (w, empty_result)) (v.start_activity.active_ms == 0) (λ _. reject)
                (λ _. wait))
            (λ _. if_intro P (accepts_start fl v o) (λ _. confirm (ground arith)) (λ _. reject)))

  pub force_cases :
      (track : Text) (r : Result)
      → P (v, r)
      → P (
        reset_to_idle fl v,
        record {
          packets = r.packets ++ segment_end_packet track ∷ [];
          events = r.events ++ end_events fl v track o.now;
        },
      )
      → P (maybe_force_segment_end fl v o.now track r)
  unfolding maybe_force_segment_end
  force_cases track r same cut =
      if_intro P (v.max_segment_ms == 0 || ltb v.segment_duration_ms v.max_segment_ms) (λ _. same)
        (λ _. cut)

  pub idle_cases :
      (p : Packet) (d : ℕ) (rms : fl.Float64)
      → P (
          maybe_confirm_start fl
            (record v {
              state = candidate_start;
              start_buffer = Buffer.push empty_buffer p.payload d v.start_window_ms;
              start_activity = Window.push empty_window true d v.start_window_ms;
            })
            o
            p.track_id)
      → P (
        record (observe_noise fl v rms) {
          pre_roll =
              Buffer.push
                (observe_noise fl v rms).pre_roll
                p.payload
                d
                (observe_noise fl v rms).pre_roll_ms;
        },
        empty_result,
      )
      → P (process_idle fl v o p d rms)
  unfolding process_idle
  idle_cases p d rms hit miss = if_intro P (enter_hit fl v rms) (λ _. hit) (λ _. miss)

  pub speaking_cases :
      (p : Packet) (d : ℕ) (rms : fl.Float64)
      → let w = listen fl v d rms in
        P (
          record w { state = candidate_end; tail_buffer = Buffer.push empty_buffer p.payload d 0 },
          empty_result,
        )
        → P (
            maybe_force_segment_end fl
              (record w { segment_duration_ms = w.segment_duration_ms + d })
              o.now
              p.track_id
              (passthrough p))
        → P (process_speaking fl v o p d rms)
  unfolding process_speaking
  speaking_cases p d rms quiet loud =
      if_intro P (is_quiet fl (listen fl v d rms)) (λ _. quiet) (λ _. loud)

  pub candidate_end_cases :
      (p : Packet) (d : ℕ) (rms : fl.Float64)
      → let l = listen fl v d rms in
        let w = record l { tail_buffer = Buffer.push l.tail_buffer p.payload d 0 } in
        P (
          maybe_force_segment_end fl
            (resume fl w)
            o.now
            p.track_id
            (record { packets = Buffer.packets w.tail_buffer p.track_id; events = [] }))
        → P (w, empty_result)
        → P (confirm_end fl w o p.track_id)
        → P (process_candidate_end fl v o p d rms)
  unfolding process_candidate_end
  candidate_end_cases p d rms again wait confirm =
      if_intro P (should_resume_speaking fl w) (λ _. again)
        (λ _.
          if_intro P (ltb w.tail_buffer.total_ms w.silence_padding_ms) (λ _. wait)
            (λ _. if_intro P (is_quiet fl w) (λ _. confirm) (λ _. wait)))
    where
      l : Vad fl
      l = listen fl v d rms

      w : Vad fl
      w = record l { tail_buffer = Buffer.push l.tail_buffer p.payload d 0 }

  pub confirm_end_cases :
      (track : Text)
      → P (
        reset_to_idle fl v,
        record {
          packets =
              Buffer.prefix_packets v.tail_buffer track v.tail_padding_ms
              ++ segment_end_packet track ∷ [];
          events = end_events fl v track o.now;
        },
      )
      → P (resume fl v, record { packets = Buffer.packets v.tail_buffer track; events = [] })
      → P (confirm_end fl v o track)
  unfolding confirm_end
  confirm_end_cases track yes_ no_ = if_intro P (confirms_end fl v o) (λ _. yes_) (λ _. no_)

  -- `passed` is the packet with its kind made definite.
  pub process_cases :
      (packet : Packet)
      → let passed = record packet { kind = resolved_kind packet } in
        ((is_audio passed.kind ≡ false) ⊎ (v.bypass ≡ true) → P (v, passthrough passed))
        → (is_audio passed.kind ≡ true
            → (is_empty packet.payload ≡ true) ⊎ (pcm_duration_ms packet.payload v.sample_rate ≡ 0)
            → P (v, empty_result))
        → (is_audio passed.kind ≡ true
            → is_empty packet.payload ≡ false
            → v.bypass ≡ false
            → 0 < pcm_duration_ms packet.payload v.sample_rate
            → P (
                dispatch fl v.state v o passed
                  (pcm_duration_ms packet.payload v.sample_rate)
                  (rms_pcm16le fl packet.payload)))
        → P (process fl v o packet)
  unfolding process
  process_cases packet pass drop handle =
      if_intro P (not (is_audio (resolved_kind packet))) (λ a. pass (inl (ground arith)))
        (λ a.
          if_intro P (is_empty packet.payload) (λ e. drop (ground arith) (inl e))
            (λ e.
              if_intro P v.bypass (λ b. pass (inr b))
                (λ b.
                  if_intro P (pcm_duration_ms packet.payload v.sample_rate == 0)
                    (λ z. drop (ground arith) (inr (ground arith)))
                    (λ z. handle (ground arith) e b (ground arith)))))
