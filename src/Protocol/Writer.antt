-- ===== src/Protocol/Writer.antt =====
-- call_handler.go: `lockedEventWriter`, through which every event of a call goes. A write takes the lock, so
-- the writes of one connection come one after the other.
use gopbx.Prelude.{ℕ, zero, suc, List, [], ◌∷◌, Option, none, some, Text}
use gopbx.Protocol.Event.{EventEnvelope}

-- The event whose write fails, if one does, and the error's text.
abbrev pub WriteFault : Type 0
WriteFault = Option (ℕ × Text)

-- A loop of `WriteEvent` over events: those that were written, and the error that stopped it.
unfoldable pub write_events : List EventEnvelope → WriteFault → List EventEnvelope × Option Text
write_events [] fault = ([], none)
write_events (e ∷ es) none = (e ∷ es, none)
write_events (e ∷ es) (some (zero, err)) = ([], some err)
write_events (e ∷ es) (some (suc n, err)) =
    let (rest, result) = write_events es (some (n, err)) in (e ∷ rest, result)
