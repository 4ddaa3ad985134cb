-- ===== src/Xref/RoundTrip.antt =====
-- What `pack_entries`, `xref_widths` and `index_runs` write, `parse_xref_stream_entries` reads back.
use mathlib.Core.List.{append-nil}
use native.Mathlib.Nat.{mul-le-mul}
use presslint.Common.{
  ℕ, ◌+◌, ◌*◌, ◌%◌, ◌^◌, ◌≤◌, ◌<◌, ◌≡◌, refl, sym, ap, ◌∙◌, inl, inr, List, [], ◌∷◌, ◌++◌, map,
  Bytes, length, ltb, true, false, ◌==◌, Bool-cases, arith, ok,
}
use presslint.Xref.Subsections.{subsections_loop-run_loop}
use presslint.Xref.Entries.{
  Widths, word_mod, in_range, width_list, entry_counts, validate_from, validate_widths, checked_sum,
  record_width, total_entries, subsections_loop, parse_xref_stream_entries,
}
use presslint.Xref.Pack.{
  PackedEntry, larger, max_of, xref_widths, run_loop, index_runs, pack_entries,
}
use presslint.Xref.Bytes.{minimal_width_bounds}
use presslint.Xref.Records.{
  AreWidths, AllFit, width_of, packed, packed_all, decoded_entry, length-packed_all,
}
use presslint.Xref.Runs.{progress, pack_loop-packed_all}

-- An entry of the writer's integer types. The next object number is in range, too.
abbrev pub IsWritable : PackedEntry → Type 0
IsWritable e = (e.byte_offset < 2 ^ 64) × (e.generation < 2 ^ 16) × (e.object_number + 1 < 2 ^ 32)

abbrev pub AllWritable : List PackedEntry → Type 0
AllWritable [] = Unit
AllWritable (e ∷ es) = IsWritable e × AllWritable es

max_of_bounds :
    (es : List PackedEntry)
    → AllWritable es
    → (max_of (λ e. e.byte_offset) es < 2 ^ 64) × (max_of (λ e. e.generation) es < 2 ^ 16)
unfolding max_of
max_of_bounds [] h = (omega arith, omega arith)
max_of_bounds (e ∷ es) ((ho, hg, _), h) =
    let (ih, ih') = max_of_bounds es h in (ground arith, ground arith)

larger_below : (a b n : ℕ) → larger a b < n → (a < n) × (b < n)
larger_below a b n h = (ground arith, ground arith)

AllFit-max_of :
    (w : Widths) (es : List PackedEntry)
    → AllWritable es
    → max_of (λ e. e.byte_offset) es < 256 ^ w.w1
    → max_of (λ e. e.generation) es < 256 ^ w.w2
    → AllFit w es
unfolding max_of
AllFit-max_of w [] h o g = tt
AllFit-max_of w (e ∷ es) ((ho, hg, hn), h) o g =
    let o' = larger_below e.byte_offset (max_of (λ e. e.byte_offset) es) (256 ^ w.w1) o in
    let g' = larger_below e.generation (max_of (λ e. e.generation) es) (256 ^ w.w2) g in
    (
      record {
        offset_word = ho;
        generation_word = omega arith;
        offset_width = o'.0;
        generation_width = g'.0;
        number = hn;
      },
      AllFit-max_of w es h o'.1 g'.1,
    )

xref_widths-AreWidths : (es : List PackedEntry) → AllWritable es → AreWidths (xref_widths es)
unfolding xref_widths
xref_widths-AreWidths es h =
    let (o, g) = max_of_bounds es h in
    let mo = minimal_width_bounds (max_of (λ e. e.byte_offset) es) o in
    let mg = minimal_width_bounds (max_of (λ e. e.generation) es) (omega arith) in
    record {
      tag = refl;
      offset_low = mo.0;
      offset_high = mo.1;
      generation_low = mg.0;
      generation_high = mg.1;
    }

xref_widths-AllFit : (es : List PackedEntry) → AllWritable es → AllFit (xref_widths es) es
unfolding xref_widths
xref_widths-AllFit es h =
    let (o, g) = max_of_bounds es h in
    AllFit-max_of (xref_widths es) es h (minimal_width_bounds (max_of (λ e. e.byte_offset) es) o).2
      (minimal_width_bounds (max_of (λ e. e.generation) es) (omega arith)).2

abbrev pub total : List ℕ → ℕ
total [] = 0
total (n ∷ ns) = n + total ns

checked_sum-total :
    (decoded : Bytes) (sum : ℕ) (ns : List ℕ)
    → sum + total ns < 2 ^ 64
    → checked_sum decoded sum ns ≡ ok (sum + total ns)
unfolding checked_sum in_range
checked_sum-total decoded sum [] h = ap ok (omega arith)
checked_sum-total decoded sum (n ∷ ns) h =
    let test : ltb (sum + n) word_mod ≡ true = ground arith in
    rw test (checked_sum-total decoded (sum + n) ns (omega arith) ∙ ap ok (omega arith))

total-run_loop :
    (first count last : ℕ) (es : List PackedEntry)
    → total (entry_counts (run_loop first count last es)) ≡ count + length es
unfolding run_loop
total-run_loop first count last [] = omega arith
total-run_loop first count last (e ∷ es) =
    elim (Bool-cases (e.object_number == (last + 1) % 2 ^ 32)) [
      | inl next ↦ rw next (omega (arith, total-run_loop first (count + 1) e.object_number es))
      | inr gap ↦ rw gap (omega (arith, total-run_loop e.object_number 1 e.object_number es))
    ]

total-index_runs : (es : List PackedEntry) → total (entry_counts (index_runs es)) ≡ length es
unfolding index_runs
total-index_runs [] = refl
total-index_runs (e ∷ es) = omega (arith, total-run_loop e.object_number 1 e.object_number es)

subsections_loop-index_runs :
    (w : Widths) (es : List PackedEntry)
    → AreWidths w
    → AllFit w es
    → subsections_loop (packed_all w es) w (width_of w) (index_runs es) (progress [] [])
      ≡ ok (progress (map decoded_entry es) (packed_all w es))
unfolding index_runs subsections_loop
subsections_loop-index_runs w [] ws h = refl
subsections_loop-index_runs w (e ∷ es) ws (he, h) =
    subsections_loop-run_loop w (e ∷ []) es e.object_number e.object_number (packed_all w (e ∷ es))
      [] [] ws (he, tt) h (refl, tt) (omega arith) he.number
      (ap (λ xs. xs ++ packed_all w es) (sym (append-nil (packed w e))))

validate_widths_lem :
    (decoded : Bytes) (w : Widths) → AreWidths w → validate_widths decoded w ≡ ok tt
unfolding validate_widths validate_from
validate_widths_lem decoded w ws =
    let t0 : ltb 8 w.w0 ≡ false = ground (arith, ws.tag) in
    let t1 : ltb 8 w.w1 ≡ false = ground (arith, ws.offset_high) in
    let t2 : ltb 8 w.w2 ≡ false = ground (arith, ws.generation_high) in rw (t0, t1, t2) refl

record_width_lem :
    (decoded : Bytes) (w : Widths) → AreWidths w → record_width decoded w ≡ ok (width_of w)
unfolding record_width
record_width_lem decoded w ws =
    let sum : 0 + total (width_list w) ≡ width_of w = omega arith in
    let test : (width_of w == 0) ≡ false = ground (arith, ws.tag) in
    rw
      (
        checked_sum-total decoded 0 (width_list w)
            (omega (arith, ws.tag, ws.offset_high, ws.generation_high)),
        sum,
        test,
      )
      refl

-- For entries whose offsets are below 2^64, whose generations are below 2^16 and whose next object
-- numbers are below 2^32, and fewer than 2^64 / 17 of them: the reader, given the packed bytes, the
-- widths and the subsections that the writer makes of them, returns the same entries in the same
-- order, each as uncompressed, with its object number, offset and generation.
pub parse_xref_stream_entries-pack_entries :
    (es : List PackedEntry)
    → AllWritable es
    → length es * 17 < 2 ^ 64
    → parse_xref_stream_entries (pack_entries es (xref_widths es)) (xref_widths es) (index_runs es)
      ≡ ok (map decoded_entry es)
unfolding parse_xref_stream_entries pack_entries total_entries in_range
parse_xref_stream_entries-pack_entries es h small =
    let w = xref_widths es in
    let ws = xref_widths-AreWidths es h in
    let decoded = packed_all w es in
    let size = length-packed_all w es in
    let below : length es * width_of w ≤ length es * 17 =
      mul-le-mul (omega arith) (omega (arith, ws.tag, ws.offset_high, ws.generation_high)) in
    let sum : 0 + total (entry_counts (index_runs es)) ≡ length es =
      omega (arith, total-index_runs es) in
    let test : ltb (length es * width_of w) word_mod ≡ true = ground (arith, below) in
    let same : (length decoded == length es * width_of w) ≡ true = ground (arith, size) in
    rw
      (
        pack_loop-packed_all w es [] ws,
        validate_widths_lem decoded w ws,
        record_width_lem decoded w ws,
        checked_sum-total decoded 0 (entry_counts (index_runs es)) (omega (arith, sum)),
        sum,
        test,
        same,
        subsections_loop-index_runs w es ws (xref_widths-AllFit es h),
      )
      refl
