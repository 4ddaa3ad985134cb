-- ===== src/Xref/Runs.antt =====
-- The inner loop of `parse_xref_stream_entries` on a run of packed entries, and `pack_entries` as
-- the concatenation of its records.
use mathlib.Core.List.{append_assoc, append-nil}
use presslint.Common.{
  ℕ, ◌+◌, ◌≡◌, refl, sym, ap, ◌∙◌, List, [], ◌∷◌, ◌++◌, map, Bytes, length, length-append, ltb,
  true, arith, ok,
}
use presslint.Xref.Entries.{
  Widths, XrefStreamSubsection, XrefStreamEntry, word_mod, in_range, Progress, subsection_loop,
}
use presslint.Xref.Pack.{PackedEntry, be_bytes, pack_loop}
use presslint.Xref.Bytes.{push_be-be_bytes}
use presslint.Xref.Records.{
  AreWidths, AllFit, width_of, packed, packed_all, decoded_entry, length-packed, decode_record_lem,
}

-- The object numbers count on from `n`.
abbrev pub Run : ℕ → List PackedEntry → Type 0
Run n [] = Unit
Run n (e ∷ es) = (e.object_number ≡ n) × Run (n + 1) es

abbrev pub progress : List XrefStreamEntry → Bytes → Progress
progress entries read = record { entries = entries; record_byte_offset = length read }

pub Run-concat :
    (n : ℕ) (ds : List PackedEntry) (e : PackedEntry)
    → Run n ds
    → e.object_number ≡ n + length ds
    → Run n (ds ++ e ∷ [])
Run-concat n [] e h k = (omega arith, tt)
Run-concat n (d ∷ ds) e (hd, h) k = (hd, Run-concat (n + 1) ds e h (omega arith))

pub subsection_loop-packed_all :
    (w : Widths) (ds : List PackedEntry) (s : XrefStreamSubsection) (index n : ℕ)
    (decoded pre post : Bytes) (acc : List XrefStreamEntry)
    → AreWidths w
    → AllFit w ds
    → n ≡ s.first_object_number + index
    → Run n ds
    → decoded ≡ pre ++ (packed_all w ds ++ post)
    → subsection_loop decoded w (width_of w) s (length ds) index (progress acc pre)
      ≡ ok (progress (acc ++ map decoded_entry ds) (pre ++ packed_all w ds))
unfolding subsection_loop in_range
subsection_loop-packed_all w [] s index n decoded pre post acc ws fits hn run d =
    rw (append-nil acc, append-nil pre) refl
subsection_loop-packed_all w (e ∷ ds) s index n decoded pre post acc ws (fe, fits) hn (he, run) d =
    let number : s.first_object_number + index ≡ e.object_number = omega arith in
    let test : ltb e.object_number word_mod ≡ true = ground (arith, fe.number) in
    let split : decoded ≡ pre ++ (packed w e ++ (packed_all w ds ++ post)) =
      d ∙ ap (λ xs. pre ++ xs) (append_assoc (packed w e) (packed_all w ds) post) in
    let size : length pre + width_of w ≡ length (pre ++ packed w e) =
      omega (arith, length-append pre (packed w e), length-packed w e) in
    let here =
      decode_record_lem w e decoded pre (packed_all w ds ++ post) (length pre) e.object_number ws fe
        split refl in
    let ih =
      subsection_loop-packed_all w ds s (index + 1) (n + 1) decoded (pre ++ packed w e) post
        (acc ++ decoded_entry e ∷ []) ws fits (omega arith) run
        (split ∙ sym (append_assoc pre (packed w e) (packed_all w ds ++ post))) in
    rw (number, test, here, size)
      (ih
        ∙ rw
            (
              append_assoc acc (decoded_entry e ∷ []) (map decoded_entry ds),
              append_assoc pre (packed w e) (packed_all w ds),
            )
            refl)

pub pack_loop-packed_all :
    (w : Widths) (es : List PackedEntry) (out : Bytes)
    → AreWidths w
    → pack_loop es w out ≡ out ++ packed_all w es
unfolding pack_loop
pack_loop-packed_all w [] out ws = sym (append-nil out)
pack_loop-packed_all w (e ∷ es) out ws =
    let a = be_bytes w.w0 1 in
    let b = be_bytes w.w1 e.byte_offset in
    let c = be_bytes w.w2 e.generation in
    rw
      (
        push_be-be_bytes out 1 w.w0 (omega (arith, ws.tag)),
        push_be-be_bytes (out ++ a) e.byte_offset w.w1 ws.offset_high,
        push_be-be_bytes ((out ++ a) ++ b) e.generation w.w2 ws.generation_high,
      )
      (pack_loop-packed_all w es (((out ++ a) ++ b) ++ c) ws
        ∙ ap (λ xs. xs ++ packed_all w es)
            (append_assoc (out ++ a) b c ∙ append_assoc out a (b ++ c))
        ∙ append_assoc out (packed w e) (packed_all w es))
