-- ===== src/Operators/ScanTdb/Stream.antt =====
-- A scan of a table file as a source: its records, each in a tuple that has its columns in place.
use mathlib.Core.Path.{subst}
use squel.Common.{
  Bytes, List, Run, [], append_assoc, arith, drop, drop-length-append, false, inl, inr, length,
  length-append, length-drop, ok, refl, some, suc, sym, take, take-append, true, ℕ, ◌*◌, ◌++◌, ◌-◌,
  ◌<◌, ◌==◌, ◌>>=◌, ◌∙◌, ◌∷◌, ◌≡◌, ◌≤◌, ◌⊎◌,
}
use squel.Io.Files.{Files, find_file, open_read}
use squel.Executor.Tuple.Strings.{HasArrays}
use squel.Executor.Tuple.{Row, Tuple, base, is_tuple_empty, joined, max_cols}
use squel.Planner.Result.{ColumnMetadata}
use squel.Operators.Source.{Gives, OnBase, Source, Yields}
use squel.Operators.ScanTdb.{
  ScanState, fill_buffer, lay_out, opened, scan_call, scan_tdb_get_tuple, scan_tdb_source,
  take_record, unread_scan,
}
use squel.Operators.ScanTdb.Layout.{Fillable, IsLaidOut, lay_out-IsLaidOut, total_size}
use squel.Operators.ScanTdb.Order.{
  AllSized, blocks_reversed, flatten, length-stacked, read_order, stacked,
}
use squel.Operators.ScanTdb.Fill.{Ready, copy_bytes-front, fill-Filled}

module _ (files : Files) (path : Bytes) (columns : List ColumnMetadata) (record_size m : ℕ)
    (wide : 0 < record_size) (whole : total_size columns ≡ record_size)
    (few : length columns ≤ max_cols) (left_over : Bytes)
    (partial : length left_over < record_size) where
  abbrev call : ℕ → ScanState → Tuple → Run (Row × ScanState)
  call = scan_call files path columns record_size (suc m * record_size)

  abbrev IsReady : List Bytes → List Bytes → ScanState → Type 0
  IsReady = Ready files path columns record_size m wide whole few left_over partial

  -- The tuple has the columns of the table, and its block starts with the record.
  abbrev pub HoldsRecord : Bytes → Tuple → Type 0
  HoldsRecord r tpl = IsLaidOut columns tpl × (take record_size tpl.block ≡ r)

  -- A tuple with room for a record.
  abbrev pub FitsRecord : Tuple → Type 0
  FitsRecord tpl = Fillable columns tpl × (record_size ≤ length tpl.block)

  -- One call: the next item in a tuple, or an empty tuple where there is none.
  abbrev Steps : List Bytes → Run (Row × ScanState) → Type 0
  Steps [] run = (tpl : Tuple) × (s : ScanState) × (run ≡ ok (base tpl, s)) × (tpl.size ≡ 0)
  Steps (r ∷ items) run =
      (tpl : Tuple) × (s : ScanState) × (run ≡ ok (base tpl, s))
      × FitsRecord tpl
      × HoldsRecord r tpl
      × (front : List Bytes) × (xs : List Bytes) × IsReady front xs s
      × (front ++ read_order (suc m) xs ≡ items)

  -- The state behind a call that took a record, of which the buffer had `n` more.
  abbrev behind : ℕ → ScanState → ScanState
  behind n s = record s { records_in_buffer = n }

  abbrev filled_with : Bytes → Tuple → Tuple
  filled_with r tpl = record tpl { block = r ++ drop record_size tpl.block }

  take_record-next :
      (r : Bytes) (front xs : List Bytes) (s : ScanState) (tpl : Tuple)
      → IsReady (r ∷ front) xs s
      → record_size ≤ length tpl.block
      → take_record files path columns record_size (suc m * record_size) tpl s
        ≡ ok (base (filled_with r tpl), behind (length front) s)
  unfolding take_record
  take_record-next r front xs s tpl ready room =
      let (sized, front_sized) = ready.front_sized in
      let before : s.records_in_buffer - 1 ≡ length front = omega (arith, ready.count) in
      let start : (s.records_in_buffer - 1) * record_size ≡ length (stacked front) =
        rw before (sym (length-stacked record_size front front_sized)) in
      let found : drop ((s.records_in_buffer - 1) * record_size) s.buffer ≡ r ++ ready.tail =
        rw (start, ready.buffer, append_assoc (stacked front) r ready.tail)
          (drop-length-append (stacked front) (r ++ ready.tail)) in
      rw (found, copy_bytes-front record_size r ready.tail tpl.block sized room, ◌>>=◌, before)

  behind-Ready :
      (r : Bytes) (front xs : List Bytes) (s : ScanState)
      → IsReady (r ∷ front) xs s
      → IsReady front xs (behind (length front) s)
  behind-Ready r front xs s ready = record {
    tail = r ++ ready.tail;
    buffer = ready.buffer ∙ append_assoc (stacked front) r ready.tail;
    count = refl;
    front_sized = ready.front_sized.1;
    sized = ready.sized;
    ahead = unfold opened in ready.ahead;
    live = ready.live;
  }

  filled_with-FitsRecord :
      (r : Bytes) (tpl : Tuple)
      → IsLaidOut columns tpl
      → length r ≡ record_size
      → record_size ≤ length tpl.block
      → FitsRecord (filled_with r tpl) × HoldsRecord r (filled_with r tpl)
  filled_with-FitsRecord r tpl laid sized room =
      let arrays : HasArrays (filled_with r tpl) = record {
        offsets = laid.arrays.offsets;
        casted = laid.arrays.casted;
      } in
      let laid' : IsLaidOut columns (filled_with r tpl) = record {
        type = laid.type;
        size = laid.size;
        laid = laid.laid;
        arrays = arrays;
        placed = laid.placed;
      } in
      (
        (
          (arrays, inr laid'),
          omega (
            arith,
            length-append r (drop record_size tpl.block),
            sized,
            length-drop record_size tpl.block,
          ),
        ),
        (laid', rw (← sized) (take-append r (drop (length r) tpl.block))),
      )

  call_next :
      (fuel : ℕ) (r : Bytes) (front xs : List Bytes) (s : ScanState) (tpl : Tuple)
      → IsReady (r ∷ front) xs s
      → FitsRecord tpl
      → Steps ((r ∷ front) ++ read_order (suc m) xs) (call (suc fuel) s tpl)
  unfolding scan_call
  call_next fuel r front xs s tpl ready fits =
      let (out, run, laid, same) = lay_out-IsLaidOut columns tpl fits.0 few in
      let room : record_size ≤ length out.block = rw same fits.1 in
      let some_left : (s.records_in_buffer == 0) ≡ false = rw ready.count (ground arith) in
      let (fits', holds) = filled_with-FitsRecord r out laid ready.front_sized.0 room in
      (
        filled_with r out,
        behind (length front) s,
        rw (run, ◌>>=◌, some_left) (take_record-next r front xs s out ready room),
        fits',
        holds,
        front,
        xs,
        behind-Ready r front xs s ready,
        refl,
      )

  call_end :
      (fuel : ℕ) (s : ScanState) (tpl : Tuple)
      → IsReady [] [] s
      → s.file_read ≡ true
      → FitsRecord tpl
      → Steps [] (call (suc fuel) s tpl)
  unfolding scan_call
  call_end fuel s tpl ready done fits =
      let (out, run, laid, same) = lay_out-IsLaidOut columns tpl fits.0 few in
      let none_left : (s.records_in_buffer == 0) ≡ true = rw ready.count refl in
      (
        record out { size = 0 },
        record s { freed = true },
        rw (run, ◌>>=◌, none_left) (simp (done, ready.live)),
        refl,
      )

  -- A state that has more in its buffer, or has read the file, needs one round.
  call_ready :
      (fuel : ℕ) (front xs : List Bytes) (s : ScanState) (tpl : Tuple)
      → IsReady front xs s
      → (s.file_read ≡ true) ⊎ (0 < length front)
      → FitsRecord tpl
      → Steps (front ++ read_order (suc m) xs) (call (suc fuel) s tpl)
  unfolding blocks_reversed
  call_ready fuel (r ∷ front) xs s tpl ready way fits = call_next fuel r front xs s tpl ready fits
  call_ready fuel [] xs s tpl ready (inr more) fits = absurd (omega arith)
  call_ready fuel [] xs s tpl ready (inl done) fits = elim ready.ahead [
    | inl (_, none_ahead) ↦
        let ready' : IsReady [] [] s =
          subst (λ (t : List Bytes). IsReady [] t s) none_ahead ready in
        rw none_ahead (call_end fuel s tpl ready' done fits)
    | inr (unread, _) ↦ absurd (cc)
  ]

  -- With nothing left in its buffer, a call reads a block, and calls itself.
  call_fill :
      (fuel : ℕ) (s s' : ScanState) (tpl out : Tuple)
      → lay_out columns tpl ≡ ok out
      → s.records_in_buffer ≡ 0
      → s.file_read ≡ false
      → fill_buffer files path columns record_size (suc m * record_size) s ≡ ok s'
      → call (suc fuel) s tpl ≡ call fuel s' out
  unfolding scan_call
  call_fill fuel s s' tpl out run empty unread filling =
      let none_left : (s.records_in_buffer == 0) ≡ true = rw empty refl in
      rw (run, ◌>>=◌, none_left) (simp (unread, filling))

  -- At any state two rounds are enough.
  call_two :
      (front xs : List Bytes) (s : ScanState) (tpl : Tuple)
      → IsReady front xs s
      → FitsRecord tpl
      → Steps (front ++ read_order (suc m) xs) (call 2 s tpl)
  call_two (r ∷ front) xs s tpl ready fits = call_next 1 r front xs s tpl ready fits
  call_two [] xs s tpl ready fits = elim ready.ahead [
    | inl (done, _) ↦ call_ready 1 [] xs s tpl ready (inl done) fits
    | inr (unread, open') ↦
        let f =
          fill-Filled files path columns record_size m wide whole few left_over partial xs s
            ready.live unread open' ready.sized in
        let (out, run, laid, same) = lay_out-IsLaidOut columns tpl fits.0 few in
        let way : (f.filled.file_read ≡ true) ⊎ (0 < length f.front) = elim f.progress [
          | inl e ↦ inl e
          | inr e ↦ inr (omega (arith, e))
        ] in
        rw (← f.same, call_fill 1 s f.filled tpl out run ready.count unread f.run)
          (call_ready 0 f.front f.others f.filled out f.ready way
            ((laid.arrays, inr laid), rw same fits.1))
  ]

  abbrev source : Source
  source = scan_tdb_source files path columns record_size (suc m * record_size)

  abbrev ScanGives : List Bytes → Run (Row × ScanState) → Type 0
  ScanGives = Gives source (OnBase FitsRecord) (λ r. OnBase (HoldsRecord r))

  later :
      (items : List Bytes)
      → ((run : Run (Row × ScanState)) → Steps items run → ScanGives items run)
      → (front xs : List Bytes) (s : ScanState) → IsReady front xs s
      → front ++ read_order (suc m) xs ≡ items
      → (row : Row) → OnBase FitsRecord row
      → ScanGives items (source.get_tuple s row)
  unfolding scan_tdb_get_tuple
  later items steps front xs s ready same (base tpl) fits =
      steps (call 2 s tpl) (
        subst (λ (t : List Bytes). Steps t (call 2 s tpl)) same
          (call_two front xs s tpl ready fits))
  later items steps front xs s ready same (joined tpl) fits = absurd fits

  Steps-ScanGives :
      (items : List Bytes) (run : Run (Row × ScanState)) → Steps items run → ScanGives items run
  unfolding is_tuple_empty
  Steps-ScanGives [] run (tpl, s, e, none_left) = ((base tpl, s), e, rw none_left refl)
  Steps-ScanGives (r ∷ items) run (tpl, s, e, fits, holds, front, xs, ready, same) = (
    (base tpl, s),
    e,
    rw (holds.0.size, whole) (ground arith),
    fits,
    holds,
    later items (Steps-ScanGives items) front xs s ready same,
  )

  -- For a table whose columns fill its records, over a file that has some bytes, then records, and then
  -- less than one more, a scan that starts behind those bytes yields the records, in blocks of as
  -- many as the buffer holds, each block from its last record to its first. Each tuple has the columns
  -- in their places.
  pub scan_tdb_source-Yields :
      (header : Bytes) (rs : List Bytes)
      → find_file files path ≡ some (header ++ (flatten rs ++ left_over))
      → AllSized record_size rs
      → Yields
          (scan_tdb_source files path columns record_size (suc m * record_size))
          (OnBase FitsRecord)
          (λ r. OnBase (HoldsRecord r))
          (read_order (suc m) rs)
          (unread_scan (length header))
  unfolding opened open_read unread_scan
  scan_tdb_source-Yields header rs found sized =
      later (read_order (suc m) rs) (Steps-ScanGives (read_order (suc m) rs)) [] rs
        (unread_scan (length header))
        (record {
          tail = [];
          buffer = refl;
          count = refl;
          front_sized = tt;
          sized = sized;
          ahead =
              inr (refl, rw (found, ◌>>=◌, drop-length-append header (flatten rs ++ left_over)));
          live = refl;
        })
        refl
