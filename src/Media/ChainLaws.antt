-- ===== src/Media/ChainLaws.antt =====
-- processor/chain.go: what holds of a chain of processors.
use gopbx.Prelude.{◌≡◌, refl, sym, ap, ap₂, ◌∙◌, List, [], ◌∷◌, ◌++◌, append-nil, append_assoc}
use gopbx.Protocol.Event.{EventEnvelope}
use gopbx.Media.Packet.{Packet, Result}
use gopbx.Media.Chain.{Processor, feed, flow, chain_process}

module _ {S : Type 0} where
  -- The independent description of one processor on packets: its results in the order of the packets.
  abbrev pub apply : Processor S → List Packet → S → S × Result
  apply p [] s = (s, record { packets = []; events = [] })
  apply p (x ∷ xs) s =
      let (t, here) = p.process x s in
      let (u, there) = apply p xs t in
      (u, record { packets = here.packets ++ there.packets; events = here.events ++ there.events })

  -- And of a chain: each processor gets all the packets that the one before it passes on, and its events
  -- come after that one's.
  abbrev pub pass : List (Processor S) → List Packet → S → S × List EventEnvelope
  pass [] xs s = (s, [])
  pass (p ∷ ps) xs s =
      let (t, here) = apply p xs s in
      let (u, there) = pass ps here.packets t in (u, here.events ++ there)

  feed-apply :
      (p : Processor S) (xs next : List Packet) (events : List EventEnvelope) (s : S)
      → feed p xs next events s
        ≡ ((apply p xs s).0, next ++ (apply p xs s).1.packets, events ++ (apply p xs s).1.events)
  unfolding feed
  feed-apply p [] next events s =
      ap₂ (λ n e. (s, n, e)) (sym (append-nil next)) (sym (append-nil events))
  feed-apply p (x ∷ xs) next events s =
      let (t, here) = p.process x s in
      let (u, there) = apply p xs t in
      feed-apply p xs (next ++ here.packets) (events ++ here.events) t
      ∙ ap₂ (λ n e. (u, n, e)) (append_assoc next here.packets there.packets)
          (append_assoc events here.events there.events)

  pass-nil : (ps : List (Processor S)) (s : S) → pass ps [] s ≡ (s, [])
  pass-nil [] s = refl
  pass-nil (p ∷ ps) s = pass-nil ps s

  flow-pass :
      (ps : List (Processor S)) (xs : List Packet) (events : List EventEnvelope) (s : S)
      → flow ps xs events s ≡ ((pass ps xs s).0, events ++ (pass ps xs s).1)
  unfolding flow
  flow-pass [] xs events s = ap (λ e. (s, e)) (sym (append-nil events))
  flow-pass (p ∷ ps) [] events s =
      sym (ap (λ r. (r.0, events ++ r.1)) (pass-nil ps s) ∙ ap (λ e. (s, e)) (append-nil events))
  flow-pass (p ∷ ps) (x ∷ xs) events s =
      let (t, here) = apply p (x ∷ xs) s in
      let (u, there) = pass ps here.packets t in
      ap (λ r. flow ps r.1 r.2 r.0) (feed-apply p (x ∷ xs) [] events s)
      ∙ flow-pass ps here.packets (events ++ here.events) t
      ∙ ap (λ e. (u, e)) (append_assoc events here.events there)

  -- A chain is its processors one after the other: each gets all packets that the one before it passed
  -- on, in their order, and the events are those of the first, then those of the second, and so on.
  pub chain_process-pass :
      (ps : List (Processor S)) (x : Packet) (s : S) → chain_process ps x s ≡ pass ps (x ∷ []) s
  unfolding chain_process
  chain_process-pass ps x s = flow-pass ps (x ∷ []) [] s
