-- ===== src/Server/History/Snapshot.antt =====
-- The frame of a TimeAndSale snapshot: one begin, one end, and the records in between.
use dxfcxx_event_test.Base.{
  ◌/◌, ◌≡◌, sym, subst, inl, inr, Bool-cases, All, refl, ap, Bool, true, false, not, ◌&&◌, ◌||◌,
  List, [], ◌∷◌, ◌++◌, map, reverse, if◌then◌else◌,
}
use dxfcxx_event_test.Base.Int.{ℤ, pos, ltb_ℤ}
use dxfcxx_event_test.Text.{Bytes}
use dxfcxx_event_test.Server.{TimeAndSaleRecord, TimeAndSaleHistory}
use dxfcxx_event_test.Server.History.{
  SnapshotEvent, retained, boundary, recent, retained_event, mark_first, mark_last, boundary_event,
  is_empty, front_after, snapshot_of,
}

abbrev pub closes : SnapshotEvent → Bool
closes e = e.flags.ends || e.flags.snips

none_begins : List SnapshotEvent → Bool
none_begins [] = true
none_begins (e ∷ es) = not e.flags.begins && none_begins es

-- The first event begins the snapshot, and no other.
unfoldable pub begins_once : List SnapshotEvent → Bool
unfolding none_begins
begins_once [] = false
begins_once (e ∷ es) = e.flags.begins && none_begins es

-- The last event closes the snapshot, and no other.
unfoldable pub ends_once : List SnapshotEvent → Bool
ends_once [] = false
ends_once (e ∷ []) = closes e
ends_once (e ∷ f ∷ es) = not (closes e) && ends_once (f ∷ es)

-- The records of the events.
pub contents : List SnapshotEvent → List TimeAndSaleRecord
contents [] = []
contents (e ∷ es) = elim e.payload [ retained r ↦ r ∷ contents es | boundary from ↦ contents es ]

ends_once-cons :
    (e : SnapshotEvent) (es : List SnapshotEvent)
    → closes e ≡ false
    → ends_once es ≡ true
    → ends_once (e ∷ es) ≡ true
unfolding ends_once
ends_once-cons e [] c h = cc
ends_once-cons e (f ∷ es) c h = rw c h

module _ (symbol : Bytes) where
  -- The event of a record, the first of a snapshot or not.
  event : Bool → TimeAndSaleRecord → SnapshotEvent
  event first r = record {
    symbol = symbol;
    payload = retained r;
    flags = record { begins = first; ends = false; snips = false; removes = false };
  }

  plain : List TimeAndSaleRecord → List SnapshotEvent
  plain = map (retained_event symbol)

  snipped-tail :
      (r : TimeAndSaleRecord) (rs : List TimeAndSaleRecord)
      → let events = mark_last (plain (r ∷ rs)) in
        (ends_once events ≡ true) × (contents events ≡ r ∷ rs) × (none_begins events ≡ true)
  unfolding mark_last retained_event ends_once contents none_begins plain event
  snipped-tail r [] = (refl, refl, refl)
  snipped-tail r (q ∷ rs) =
      let (ends, records, plainly) = snipped-tail q rs in
      (
        ends_once-cons (event false r) (mark_last (plain (q ∷ rs))) refl ends,
        ap (λ l. r ∷ l) records,
        plainly,
      )

  -- With the first event marked.
  snipped :
      (r : TimeAndSaleRecord) (rs : List TimeAndSaleRecord)
      → let events = mark_last (mark_first (plain (r ∷ rs))) in
        (begins_once events ≡ true) × (ends_once events ≡ true) × (contents events ≡ r ∷ rs)
  unfolding mark_first mark_last retained_event ends_once begins_once contents none_begins plain
      event
  snipped r [] = (refl, refl, refl)
  snipped r (q ∷ rs) =
      let (ends, records, plainly) = snipped-tail q rs in
      (
        plainly,
        ends_once-cons (event true r) (mark_last (plain (q ∷ rs))) refl ends,
        ap (λ l. r ∷ l) records,
      )

  complete-tail :
      (from : ℤ) (rs : List TimeAndSaleRecord)
      → let events = plain rs ++ boundary_event symbol from false ∷ [] in
        (ends_once events ≡ true) × (contents events ≡ rs) × (none_begins events ≡ true)
  unfolding retained_event boundary_event ends_once contents none_begins plain event
  complete-tail from [] = (refl, refl, refl)
  complete-tail from (r ∷ rs) =
      let (ends, records, plainly) = complete-tail from rs in
      (
        ends_once-cons (event false r) (plain rs ++ boundary_event symbol from false ∷ []) refl
            ends,
        ap (λ l. r ∷ l) records,
        plainly,
      )

  complete :
      (from : ℤ) (rs : List TimeAndSaleRecord)
      → let events = mark_first (plain rs) in
        let all = events ++ boundary_event symbol from (is_empty events) ∷ [] in
        (begins_once all ≡ true) × (ends_once all ≡ true) × (contents all ≡ rs)
  unfolding mark_first retained_event boundary_event ends_once begins_once contents none_begins
      plain event
  complete from [] = (refl, refl, refl)
  complete from (r ∷ rs) =
      let (ends, records, plainly) = complete-tail from rs in
      (
        plainly,
        ends_once-cons (event true r) (plain rs ++ boundary_event symbol from false ∷ []) refl ends,
        ap (λ l. r ∷ l) records,
      )

  framed :
      (from : ℤ) (truncated : Bool) (rs : List TimeAndSaleRecord)
      → let events = mark_first (plain rs) in
        let all =
          if truncated && not (is_empty events)
          then mark_last events
          else events ++ boundary_event symbol from (is_empty events) ∷ [] in
        (begins_once all ≡ true) × (ends_once all ≡ true) × (contents all ≡ rs)
  unfolding mark_first plain
  framed from true [] = complete from []
  framed from true (r ∷ rs) = snipped r rs
  framed from false rs = complete from rs

-- A record is older than the requested time, in milliseconds.
abbrev pub is_older : ℤ → TimeAndSaleRecord → Bool
is_older from r = ltb_ℤ (pos (r.time_nanos / 1_000_000)) from

-- The first record, if any, is older.
abbrev pub StartsOlder : ℤ → List TimeAndSaleRecord → Type 0
StartsOlder from [] = Unit
StartsOlder from (r ∷ rs) = is_older from r ≡ true

-- `kept` are all records in front of the first that is older.
pub record IsRecent (from : ℤ) (records kept : List TimeAndSaleRecord) : Type 0 where
  pub rest : List TimeAndSaleRecord
  pub split : records ≡ kept ++ rest
  pub not_older : All (λ r. is_older from r ≡ false) kept
  pub rest_older : StartsOlder from rest

recent-IsRecent :
    (from : ℤ) (records : List TimeAndSaleRecord) → IsRecent from records (recent from records)
unfolding recent
recent-IsRecent from [] = record { rest = []; split = refl; not_older = tt; rest_older = tt }
recent-IsRecent from (r ∷ rs) = elim (Bool-cases (is_older from r)) [
  | inl e ↦ rw e (record { rest = r ∷ rs; split = refl; not_older = tt; rest_older = e })
  | inr e ↦
      let later = recent-IsRecent from rs in
      rw e (record {
        rest = later.rest;
        split = ap (λ l. r ∷ l) later.split;
        not_older = (e, later.not_older);
        rest_older = later.rest_older;
      })
]

-- A snapshot is never empty: its first event begins it and no other does, its last event ends or
-- snips it and no other does, and its records are those of the history, the newest first, up to the
-- first that is older than the requested time in milliseconds, or all if none is.
pub snapshot_of-frame :
    (symbol : Bytes) (from : ℤ) (h : TimeAndSaleHistory)
    → let events = snapshot_of symbol from h in
      (begins_once events ≡ true)
      × (ends_once events ≡ true)
      × IsRecent from (reverse h.records) (contents events)
unfolding snapshot_of plain
snapshot_of-frame symbol from h =
    let kept = recent from (reverse h.records) in
    let (begins, ends, records) =
      framed symbol from (h.truncated && front_after from h.records) kept in
    (
      begins,
      ends,
      subst (IsRecent from (reverse h.records)) (sym records)
          (recent-IsRecent from (reverse h.records)),
    )
