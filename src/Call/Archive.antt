-- ===== src/Call/Archive.antt =====
-- call_handler.go, callrecord/manager.go and the writers of outbound/storage together: the calls of a gateway, one
-- connection after the other, and the records that they leave.
use gopbx.Prelude.{
  ℕ, ◌≡◌, refl, sym, ◌∙◌, subst, ◌⊎◌, inl, inr, ℤ, List, [], ◌∷◌, ◌++◌, append_assoc, append-nil,
  Option, none, some, Text, Fallible, ok, failure,
}
use gopbx.Session.Manager.{Manager}
use gopbx.Call.Records.{write_record}
use gopbx.Call.Serve.{Connection, Record, Served, call_id, serve_ws}
use gopbx.Call.ServeLaws.{Outcome, serve_ws-Outcome}
use gopbx.Call.Setup.{World}
use gopbx.Storage.Writers.{Outside, Writer, write}
use gopbx.Storage.Laws.{Delivers, write-Delivers}

-- A connection with the times of its beginning and its end.
pub record Visit : Type 0 where
  pub connection : Connection
  pub now : ℕ
  pub end : ℕ
  pub clock : ℤ

-- The registry, the records in memory, and the errors of the writer, which the handler drops.
pub record Gateway : Type 0 where
  pub manager : Manager
  pub records : List Record
  pub errors : List (Option Text)

abbrev error_of : Fallible (Unit {0}) → Option Text
error_of (ok u) = none
error_of (failure e) = some e

module _ (w : World) (o : Outside) (writer : Writer) where
  -- The record of a call, if there is one, goes to the manager of records.
  abbrev pub archive : Gateway → Manager → Option Record → Gateway
  archive g m none = record g { manager = m }
  archive g m (some rec) =
      let (records, err) = write_record (some (λ r. error_of (write o writer r))) g.records rec in
      record { manager = m; records = records; errors = g.errors ++ err ∷ [] }

  unfoldable pub visit : Gateway → Visit → Gateway
  unfolding serve_ws write_record write
  visit g v =
      let served = serve_ws w g.manager v.connection v.now v.end v.clock in
      archive g served.manager served.record_written

  unfoldable pub visits : Gateway → List Visit → Gateway
  unfolding visit
  visits g [] = g
  visits g (v ∷ vs) = visits (visit g v) vs

  abbrev pub served : Manager → Visit → Served
  served m v = serve_ws w m v.connection v.now v.end v.clock

  -- The records of a list of visits from a registry on, and the errors of the writer: a visit ends before there
  -- is a session, with the registry as it was, or leaves one record, that of its call, which is delivered or
  -- whose error is that of the writer.
  pub data Archive : Manager → List Visit → List Record → List (Option Text) → Type 0 where
    over : {m : Manager} → Archive m [] [] []
    turned_away :
        {m : Manager} {v : Visit} {vs : List Visit} {rs : List Record} {es : List (Option Text)}
        → (served m v).record_written ≡ none
        → (served m v).manager ≡ m
        → Archive m vs rs es
        → Archive m (v ∷ vs) rs es
    archived :
        {m : Manager} {v : Visit} {vs : List Visit} {rs : List Record} {es : List (Option Text)}
        (rec : Record) (err : Option Text)
        → (served m v).record_written ≡ some rec
        → rec.call_id ≡ call_id v.connection
        → ((e : Text) × (err ≡ some e)) ⊎ ((err ≡ none) × Delivers o writer rec)
        → Archive (served m v).manager vs rs es
        → Archive m (v ∷ vs) (rec ∷ rs) (err ∷ es)

  -- What a run of visits adds.
  pub record Added (g h : Gateway) (vs : List Visit) : Type 0 where
    pub new_records : List Record
    pub new_errors : List (Option Text)
    pub records : h.records ≡ g.records ++ new_records
    pub errors : h.errors ≡ g.errors ++ new_errors
    pub archive : Archive g.manager vs new_records new_errors

  delivered-or :
      (rec : Record) (result : Fallible (Unit {0}))
      → write o writer rec ≡ result
      → ((e : Text) × (error_of result ≡ some e))
        ⊎ ((error_of result ≡ none) × Delivers o writer rec)
  delivered-or rec (failure e) f = inl (e, refl)
  delivered-or rec (ok tt) f = inr (refl, write-Delivers o writer rec f)

  -- What becomes of the record of one visit.
  Recorded : Manager → Visit → Option Record → Type 0
  Recorded m v none = (served m v).manager ≡ m
  Recorded m v (some rec) = rec.call_id ≡ call_id v.connection

  archive-Added :
      (g : Gateway) (v : Visit) (vs : List Visit) (later : Gateway) (written : Option Record)
      → (served g.manager v).record_written ≡ written
      → Recorded g.manager v written
      → Added (archive g (served g.manager v).manager written) later vs
      → Added g later (v ∷ vs)
  unfolding write_record Recorded
  archive-Added g v vs later none f h a = record {
    new_records = a.new_records;
    new_errors = a.new_errors;
    records = a.records;
    errors = a.errors;
    archive = turned_away f h (subst (λ m. Archive m vs a.new_records a.new_errors) h a.archive);
  }
  archive-Added g v vs later (some rec) f h a = record {
    new_records = rec ∷ a.new_records;
    new_errors = error_of (write o writer rec) ∷ a.new_errors;
    records = a.records ∙ append_assoc g.records (rec ∷ []) a.new_records;
    errors = a.errors ∙ append_assoc g.errors (error_of (write o writer rec) ∷ []) a.new_errors;
    archive = archived rec _ f h (delivered-or rec (write o writer rec) refl) a.archive;
  }

  recorded :
      (m : Manager) (v : Visit)
      → Outcome v.connection m (served m v)
      → Recorded m v (served m v).record_written
  unfolding Recorded
  recorded m v (inl h) = subst (Recorded m v) (sym h.1) h.0
  recorded m v (inr (_, (s, rec, _, _, written, named, _, _, _, _))) =
      subst (Recorded m v) (sym written) named

  -- However the connections of a gateway go, one after the other: each ends before there is a session, and then
  -- leaves no record and the registry as it was, or writes a record, which is that of its call; what the gateway
  -- keeps is exactly these records, in the order of the connections; and of these records each is delivered, or
  -- its writer returned an error.
  pub visits-Added : (g : Gateway) (vs : List Visit) → Added g (visits g vs) vs
  unfolding visits visit
  visits-Added g [] = record {
    new_records = [];
    new_errors = [];
    records = sym (append-nil g.records);
    errors = sym (append-nil g.errors);
    archive = over;
  }
  visits-Added g (v ∷ vs) =
      archive-Added g v vs (visits g (v ∷ vs)) (served g.manager v).record_written refl
        (recorded g.manager v (serve_ws-Outcome w g.manager v.connection v.now v.end v.clock))
        (visits-Added (visit g v) vs)
