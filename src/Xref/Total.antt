-- ===== src/Xref/Total.antt =====
-- `parse_xref_stream_entries` on any bytes, widths and subsections.
use mathlib.Core.List.{append_assoc, append-nil, map-append}
use presslint.Common.{
  ℕ, zero, suc, ◌+◌, ◌*◌, ◌≤◌, ◌≡◌, refl, sym, ap, ◌∙◌, inl, inr, List, [], ◌∷◌, ◌++◌, map, Bytes,
  length, ◌==◌, Bool-cases, arith, Ensures, returns, fails, Ensures->>=, Ensures-mono,
}
use presslint.Xref.Entries.{
  Widths, XrefStreamSubsection, XrefStreamEntry, in_range, Progress, subsection_loop,
  subsections_loop, validate_widths, total_entries, entry_counts, width_list,
  parse_xref_stream_entries,
}
use presslint.Xref.Records.{width_of}
use presslint.Xref.RoundTrip.{total}
use presslint.Xref.Checks.{
  SameLen, ok_or-Ensures, decode_record-Ensures, in_range_same, checked_sum-Ensures,
  validate_from-Ensures, record_width-Ensures,
}

abbrev pub numbers_from : ℕ → ℕ → List ℕ
numbers_from n zero = []
numbers_from n (suc k) = n ∷ numbers_from (n + 1) k

-- The object numbers that the subsections declare, in order.
abbrev pub declared : List XrefStreamSubsection → List ℕ
declared [] = []
declared (s ∷ ss) = numbers_from s.first_object_number s.entry_count ++ declared ss

abbrev pub numbers : List XrefStreamEntry → List ℕ
numbers es = map (λ e. e.object_number) es

subsection_loop-Ensures :
    (decoded : Bytes) (w : Widths) (s : XrefStreamSubsection) (left index : ℕ) (p : Progress)
    → p.record_byte_offset + left * width_of w ≤ length decoded
    → Ensures
        (λ q.
          (Progress.record_byte_offset q ≡ p.record_byte_offset + left * width_of w)
          × (numbers (Progress.entries q)
              ≡ numbers p.entries ++ numbers_from (s.first_object_number + index) left))
        (SameLen decoded)
        (subsection_loop decoded w (width_of w) s left index p)
unfolding subsection_loop
subsection_loop-Ensures decoded w s zero index p h =
    returns (omega arith, sym (append-nil (numbers p.entries)))
subsection_loop-Ensures decoded w s (suc left) index p h =
    Ensures->>=
      (ok_or-Ensures {P = λ m. m ≡ s.first_object_number + index} decoded
        (in_range (s.first_object_number + index)) _
        (λ m. in_range_same (s.first_object_number + index) m) refl)
      (λ number e.
        Ensures->>= (decode_record-Ensures decoded p.record_byte_offset w number (omega arith))
          (λ r _.
            Ensures-mono
              (λ q (o, n). (
                omega arith,
                n
                    ∙ ap (λ xs. xs ++ numbers_from (s.first_object_number + (index + 1)) left)
                        (map-append (λ e. XrefStreamEntry.object_number e) p.entries
                          (record { object_number = number; entry = r } ∷ []))
                    ∙ append_assoc (numbers p.entries) (number ∷ [])
                        (numbers_from (s.first_object_number + (index + 1)) left)
                    ∙ ap
                        (λ k.
                          numbers p.entries
                          ++ k ∷ numbers_from (s.first_object_number + (index + 1)) left)
                        e
                    ∙ ap
                        (λ k.
                          numbers p.entries
                          ++ (s.first_object_number + index) ∷ numbers_from k left)
                        (let step : s.first_object_number + (index + 1)
                              ≡ s.first_object_number + index + 1 =
                            omega arith in
                          step),
              ))
              (λ _ h. h)
              (subsection_loop-Ensures decoded w s left (index + 1)
                (record {
                  entries = p.entries ++ record { object_number = number; entry = r } ∷ [];
                  record_byte_offset = p.record_byte_offset + width_of w;
                })
                (omega arith))))

subsections_loop-Ensures :
    (decoded : Bytes) (w : Widths) (ss : List XrefStreamSubsection) (p : Progress)
    → p.record_byte_offset + total (entry_counts ss) * width_of w ≤ length decoded
    → Ensures
        (λ q. numbers (Progress.entries q) ≡ numbers p.entries ++ declared ss)
        (SameLen decoded)
        (subsections_loop decoded w (width_of w) ss p)
unfolding subsections_loop
subsections_loop-Ensures decoded w [] p h = returns (sym (append-nil (numbers p.entries)))
subsections_loop-Ensures decoded w (s ∷ ss) p h =
    Ensures->>= (subsection_loop-Ensures decoded w s s.entry_count 0 p (omega arith)) (λ q (o, n).
      Ensures-mono
        (λ r m.
          m
          ∙ ap (λ xs. xs ++ declared ss) n
          ∙ append_assoc (numbers p.entries)
              (numbers_from (s.first_object_number + 0) s.entry_count) (declared ss)
          ∙ ap (λ k. numbers p.entries ++ (numbers_from k s.entry_count ++ declared ss))
              (let same : s.first_object_number + 0 ≡ s.first_object_number = omega arith in same))
        (λ _ h. h) (subsections_loop-Ensures decoded w ss q (omega arith)))

-- For any bytes, widths and subsections the call comes back: with entries whose object numbers are
-- those that the subsections declare, in order, where the bytes are as many as the declared entries
-- take at a record width of at least one; or with an error that holds the number of bytes.
pub parse_xref_stream_entries-Ensures :
    (decoded : Bytes) (w : Widths) (ss : List XrefStreamSubsection)
    → Ensures
        (λ es.
          (numbers es ≡ declared ss)
          × (length decoded ≡ total (entry_counts ss) * width_of w)
          × (1 ≤ width_of w))
        (SameLen decoded)
        (parse_xref_stream_entries decoded w ss)
unfolding parse_xref_stream_entries validate_widths total_entries
parse_xref_stream_entries-Ensures decoded w ss =
    Ensures->>= (validate_from-Ensures decoded 0 (width_list w)) (λ _ _.
      Ensures->>= (record_width-Ensures decoded w) (λ width (hw, pos).
        Ensures->>= (checked_sum-Ensures decoded 0 (entry_counts ss)) (λ count hc.
          Ensures->>=
            (ok_or-Ensures {P = λ m. m ≡ count * width} decoded (in_range (count * width)) _
              (λ m. in_range_same (count * width) m) refl)
            (λ expected he. elim (Bool-cases (length decoded == expected)) [
              | inl fits ↦
                  let count_total : count ≡ total (entry_counts ss) = omega arith in
                  let size : length decoded ≡ total (entry_counts ss) * width_of w =
                    let e : length decoded ≡ expected = ground arith in
                    e
                    ∙ he
                    ∙ ap (λ c. c * width) count_total
                    ∙ ap (λ n. total (entry_counts ss) * n) hw in
                  rw (fits, hw)
                    (Ensures->>=
                      (subsections_loop-Ensures decoded w ss
                        (record { entries = []; record_byte_offset = 0 }) (omega arith))
                      (λ q n. returns (n, size, omega arith)))
              | inr short ↦ rw short (fails refl)
            ]))))
