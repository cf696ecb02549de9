-- ===== src/Call/Records.antt =====
-- internal/app/callrecord: the manager of call records and the dump of a call; and the event writer of
-- call_handler.go, which writes to both the connection and the dump. What the file and the connection say to
-- a write is an input.
use gopbx.Prelude.{
  ℕ, Bool, true, false, List, [], ◌∷◌, ◌++◌, Option, none, some, Text, codes, if◌then◌else◌,
  Fallible, ok, failure,
}
use gopbx.Protocol.Event.{EventEnvelope}
use gopbx.Call.Serve.{Record}

-- `Manager`, whose writer is a parameter of `write`.
unfoldable pub write_record :
    Option (Record → Option Text) → List Record → Record → List Record × Option Text
write_record none records r = (records ++ r ∷ [], none)
write_record (some writer) records r = (records ++ r ∷ [], writer r)

pub data DumpEntryType : Type 0 where
  event command : DumpEntryType

pub record DumpEntry : Type 0 where
  pub kind : DumpEntryType
  pub timestamp : ℕ
  pub content : Text

-- `DumpWriter` with the lines of its file, oldest first; `is_open` is whether `file` is set.
pub record DumpWriter : Type 0 where
  pub path : Text
  pub is_open : Bool
  pub entries : List DumpEntry

-- `OpenDumpWriter`, given the first error of the two system calls, if there is one.
unfoldable pub open_dump_file :
    (Text → Text → Text) → Option Text → Text → Text → Fallible DumpWriter
open_dump_file join (some e) root session_id = failure e
open_dump_file join none root session_id = ok (record {
  path = join root (session_id ++ codes ".events.jsonl");
  is_open = true;
  entries = [];
})

-- `openDumpWriter` of the handler: no writer where dumping is off or the file cannot be opened.
abbrev opened : Fallible DumpWriter → Option DumpWriter
opened (ok w) = some w
opened (failure e) = none

unfoldable pub open_dump_writer :
    (Text → Text → Text) → Option Text → Text → Text → Bool → Option DumpWriter
unfolding open_dump_file
open_dump_writer join err root session_id enabled =
    if enabled then opened (open_dump_file join err root session_id) else none

-- What the file says to a line: it is written and synced, written but not synced, or not written.
pub data LineFault : Type 0 where
  written : LineFault
  unsynced unwritten : Text → LineFault

abbrev pub write_line : DumpWriter → DumpEntry → LineFault → DumpWriter × Option Text
write_line w entry written = (record w { entries = w.entries ++ entry ∷ [] }, none)
write_line w entry (unsynced e) = (record w { entries = w.entries ++ entry ∷ [] }, some e)
write_line w entry (unwritten e) = (w, some e)

-- `write`, on a writer or nil.
unfoldable pub write_entry :
    Option DumpWriter → DumpEntryType → ℕ → Text → LineFault → Option DumpWriter × Option Text
write_entry none kind now content fault = (none, none)
write_entry (some w) kind now content fault =
    let entry : DumpEntry = record { kind = kind; timestamp = now; content = content } in
    let (after, err) = write_line w entry fault in
    if w.is_open then (some after, err) else (some w, none)

-- `Close`, given the error of closing the file.
unfoldable pub close_dump_writer : Option DumpWriter → Option Text → Option DumpWriter × Option Text
close_dump_writer none err = (none, none)
close_dump_writer (some w) err =
    if w.is_open then (some (record w { is_open = false }), err) else (some w, none)

-- `dumpPath`
unfoldable pub dump_path : Option DumpWriter → Text
dump_path none = []
dump_path (some w) = w.path

-- `WriteEvent` of the locked writer: the event is encoded and sent, and dumped where it was sent; an error of
-- the dump is ignored. Also whether it was sent.
unfoldable pub write_event :
    (EventEnvelope → Fallible Text)
    → Option DumpWriter
    → EventEnvelope
    → Option Text
    → ℕ
    → LineFault
    → Option DumpWriter × Option Text
unfolding write_entry
write_event marshal w e conn_error now fault = elim (marshal e) [
  | failure err ↦ (w, some err)
  | ok raw ↦ elim conn_error [
    | some err ↦ (w, some err)
    | none ↦ ((write_entry w event now raw fault).0, none)
  ]
]
