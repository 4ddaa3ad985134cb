-- ===== src/Xref/Subsections.antt =====
-- The outer loop of `parse_xref_stream_entries` over the subsections that `index_runs` makes.
use mathlib.Core.List.{append_assoc, append-nil, map-append}
use presslint.Common.{
  ℕ, ◌+◌, ◌%◌, ◌^◌, ◌<◌, ◌≡◌, refl, sym, ap, ◌∙◌, inl, inr, List, [], ◌∷◌, ◌++◌, map, Bytes, length,
  length-append, ◌==◌, Bool-cases, arith, ok,
}
use presslint.Xref.Entries.{Widths, XrefStreamEntry, subsections_loop}
use presslint.Xref.Pack.{PackedEntry, run_loop}
use presslint.Xref.Records.{AreWidths, AllFit, width_of, packed, packed_all, decoded_entry}
use presslint.Xref.Runs.{Run, progress, Run-concat, subsection_loop-packed_all}

AllFit-append :
    (w : Widths) (ds es : List PackedEntry) → AllFit w ds → AllFit w es → AllFit w (ds ++ es)
AllFit-append w [] es h k = k
AllFit-append w (d ∷ ds) es (hd, h) k = (hd, AllFit-append w ds es h k)

packed_all-append :
    (w : Widths) (ds es : List PackedEntry)
    → packed_all w (ds ++ es) ≡ packed_all w ds ++ packed_all w es
packed_all-append w [] es = refl
packed_all-append w (d ∷ ds) es =
    ap (λ xs. packed w d ++ xs) (packed_all-append w ds es)
    ∙ sym (append_assoc (packed w d) (packed_all w ds) (packed_all w es))

regroup :
    (w : Widths) (ds : List PackedEntry) (e : PackedEntry) (es : List PackedEntry)
    → packed_all w ds ++ packed_all w (e ∷ es) ≡ packed_all w (ds ++ e ∷ []) ++ packed_all w es
regroup w ds e es =
    sym (packed_all-append w ds (e ∷ es))
    ∙ ap (packed_all w) (sym (append_assoc ds (e ∷ []) es))
    ∙ packed_all-append w (ds ++ e ∷ []) es

length-concat : (ds : List PackedEntry) (e : PackedEntry) → length (ds ++ e ∷ []) ≡ length ds + 1
length-concat ds e = omega (arith, length-append ds (e ∷ []))

-- The run `ds` is read and `es` are still to come.
pub subsections_loop-run_loop :
    (w : Widths) (ds es : List PackedEntry) (first last : ℕ) (decoded pre : Bytes)
    (acc : List XrefStreamEntry)
    → AreWidths w
    → AllFit w ds
    → AllFit w es
    → Run first ds
    → last + 1 ≡ first + length ds
    → last + 1 < 2 ^ 32
    → decoded ≡ pre ++ (packed_all w ds ++ packed_all w es)
    → subsections_loop decoded w
        (width_of w)
        (run_loop first (length ds) last es)
        (progress acc pre)
      ≡ ok (progress (acc ++ map decoded_entry (ds ++ es)) decoded)
unfolding subsections_loop run_loop
subsections_loop-run_loop w ds [] first last decoded pre acc ws fd fe run hl small d =
    let one =
      subsection_loop-packed_all w ds
        (record { first_object_number = first; entry_count = length ds }) 0 first decoded pre [] acc
        ws fd (omega arith) run d in
    let whole : pre ++ packed_all w ds ≡ decoded =
      ap (λ xs. pre ++ xs) (sym (append-nil (packed_all w ds))) ∙ sym d in
    rw (one, whole, append-nil ds) refl
subsections_loop-run_loop w ds (e ∷ es) first last decoded pre acc ws fd (fe, fes) run hl small d =
    elim (Bool-cases (e.object_number == (last + 1) % 2 ^ 32)) [
      | inl next ↦
          let number : e.object_number ≡ first + length ds = ground (arith) in
          let ih =
            subsections_loop-run_loop w (ds ++ e ∷ []) es first e.object_number decoded pre acc ws
              (AllFit-append w ds (e ∷ []) fd (fe, tt)) fes (Run-concat first ds e run number)
              (omega (arith, length-concat ds e, number)) fe.number
              (d ∙ ap (λ xs. pre ++ xs) (regroup w ds e es)) in
          rw (next, sym (length-concat ds e))
            (ih
              ∙ ap (λ xs. ok (progress (acc ++ map decoded_entry xs) decoded))
                  (append_assoc ds (e ∷ []) es))
      | inr gap ↦
          let one =
            subsection_loop-packed_all w ds
              (record { first_object_number = first; entry_count = length ds }) 0 first decoded pre
              (packed_all w (e ∷ es)) acc ws fd (omega arith) run d in
          let ih =
            subsections_loop-run_loop w (e ∷ []) es e.object_number e.object_number decoded
              (pre ++ packed_all w ds) (acc ++ map decoded_entry ds) ws (fe, tt) fes (refl, tt)
              (omega arith) fe.number
              (d
                ∙ sym (append_assoc pre (packed_all w ds) (packed_all w (e ∷ es)))
                ∙ ap (λ xs. (pre ++ packed_all w ds) ++ xs) (regroup w [] e es)) in
          rw (gap, one)
            (ih
              ∙ ap (λ xs. ok (progress xs decoded))
                  (append_assoc acc (map decoded_entry ds) (map decoded_entry (e ∷ es))
                    ∙ ap (λ xs. acc ++ xs) (sym (map-append decoded_entry ds (e ∷ es)))))
    ]
