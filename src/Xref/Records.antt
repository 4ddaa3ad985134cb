-- ===== src/Xref/Records.antt =====
-- The records that `pack_entries` writes, as `decode_record` and the inner loop of
-- `parse_xref_stream_entries` read them.
use mathlib.Core.List.{append_assoc}
use presslint.Common.{
  ℕ, ◌+◌, ◌-◌, ◌*◌, ◌^◌, ◌≤◌, ◌<◌, ◌≡◌, refl, sym, ap, ◌∙◌, List, [], some, ◌∷◌, ◌++◌, Bytes,
  length, take, drop, get_range?, length-append, leb, ltb, ◌&&◌, true, false, ◌==◌, arith, ok,
}
use presslint.Xref.Entries.{
  Widths, XrefStreamEntry, XrefStreamEntryRecord, word_mod, in_range, decode_field, field_to_usize,
  two_fields, record_of, decode_record,
}
use presslint.Xref.Pack.{PackedEntry, be_bytes}
use presslint.Xref.Bytes.{big_endian-be_bytes, length-be_bytes}

-- Widths that the writer chooses.
pub record AreWidths (w : Widths) : Type 0 where
  pub tag : w.w0 ≡ 1
  pub offset_low : 1 ≤ w.w1
  pub offset_high : w.w1 ≤ 8
  pub generation_low : 1 ≤ w.w2
  pub generation_high : w.w2 ≤ 8

pub record Fits (w : Widths) (e : PackedEntry) : Type 0 where
  pub offset_word : e.byte_offset < word_mod
  pub generation_word : e.generation < word_mod
  pub offset_width : e.byte_offset < 256 ^ w.w1
  pub generation_width : e.generation < 256 ^ w.w2
  pub number : e.object_number + 1 < 2 ^ 32

abbrev pub AllFit : Widths → List PackedEntry → Type 0
AllFit w [] = Unit
AllFit w (e ∷ es) = Fits w e × AllFit w es

abbrev pub width_of : Widths → ℕ
width_of w = w.w0 + w.w1 + w.w2

abbrev pub packed : Widths → PackedEntry → Bytes
packed w e = be_bytes w.w0 1 ++ (be_bytes w.w1 e.byte_offset ++ be_bytes w.w2 e.generation)

abbrev pub packed_all : Widths → List PackedEntry → Bytes
packed_all w [] = []
packed_all w (e ∷ es) = packed w e ++ packed_all w es

-- What the reader makes of an entry.
abbrev pub decoded_entry : PackedEntry → XrefStreamEntry
decoded_entry e = record {
  object_number = e.object_number;
  entry = XrefStreamEntryRecord.uncompressed e.byte_offset e.generation;
}

pub length-packed : (w : Widths) (e : PackedEntry) → length (packed w e) ≡ width_of w
length-packed w e =
    let a = be_bytes w.w0 1 in
    let b = be_bytes w.w1 e.byte_offset in
    let c = be_bytes w.w2 e.generation in
    omega (
      arith,
      length-append a (b ++ c),
      length-append b c,
      length-be_bytes w.w0 1,
      length-be_bytes w.w1 e.byte_offset,
      length-be_bytes w.w2 e.generation,
    )

pub length-packed_all :
    (w : Widths) (es : List PackedEntry) → length (packed_all w es) ≡ length es * width_of w
length-packed_all w [] = omega arith
length-packed_all w (e ∷ es) =
    omega (
      arith,
      length-append (packed w e) (packed_all w es),
      length-packed w e,
      length-packed_all w es,
    )

drop-prefix : (xs ys : Bytes) → drop (length xs) (xs ++ ys) ≡ ys
drop-prefix [] ys = refl
drop-prefix (x ∷ xs) ys = drop-prefix xs ys

take-prefix : (xs ys : Bytes) → take (length xs) (xs ++ ys) ≡ xs
take-prefix [] ys = refl
take-prefix (x ∷ xs) ys = ap (◌∷◌ x) (take-prefix xs ys)

get_range?-append :
    (pre bs post : Bytes)
    → get_range? (pre ++ (bs ++ post)) (length pre) (length pre + length bs) ≡ some bs
unfolding get_range?
get_range?-append pre bs post =
    let len = length-append pre (bs ++ post) in
    let len' = length-append bs post in
    let test : (leb (length pre) (length pre + length bs)
          && leb (length pre + length bs) (length (pre ++ (bs ++ post))))
        ≡ true =
      ground (arith, len, len') in
    let size : length pre + length bs - length pre ≡ length bs = omega arith in
    rw (test, size, drop-prefix pre (bs ++ post), take-prefix bs post) refl

decode_field_lem :
    (decoded pre post : Bytes) (cursor w v default : ℕ)
    → decoded ≡ pre ++ (be_bytes w v ++ post)
    → cursor ≡ length pre
    → 1 ≤ w
    → v < 256 ^ w
    → v < word_mod
    → decode_field decoded cursor w default ≡ ok (record { value = v; cursor = cursor + w })
unfolding decode_field
decode_field_lem decoded pre post cursor w v default d c low h k =
    let test : (w == 0) ≡ false = ground arith in
    let range : get_range? decoded cursor (cursor + w) ≡ some (be_bytes w v) =
      rw (d, c)
        (ap (λ n. get_range? (pre ++ (be_bytes w v ++ post)) (length pre) (length pre + n))
            (sym (length-be_bytes w v))
          ∙ get_range?-append pre (be_bytes w v) post) in
    rw (test, range, big_endian-be_bytes w v h k) refl

-- The reader's match on the entry type, at the tag that the writer uses.
record_of_lem :
    (decoded : Bytes) (offset n a b : ℕ)
    → a < word_mod
    → b < word_mod
    → record_of decoded offset n 1 a b ≡ ok (XrefStreamEntryRecord.uncompressed a b)
unfolding record_of two_fields field_to_usize in_range
record_of_lem decoded offset n a b h k =
    let ta : ltb a word_mod ≡ true = ground arith in
    let tb : ltb b word_mod ≡ true = ground arith in rw (ta, tb) refl

pub decode_record_lem :
    (w : Widths) (e : PackedEntry) (decoded pre post : Bytes) (offset n : ℕ)
    → AreWidths w
    → Fits w e
    → decoded ≡ pre ++ (packed w e ++ post)
    → offset ≡ length pre
    → decode_record decoded offset w n
      ≡ ok (XrefStreamEntryRecord.uncompressed e.byte_offset e.generation)
unfolding decode_record
decode_record_lem w e decoded pre post offset n ws fits d o =
    let a = be_bytes w.w0 1 in
    let b = be_bytes w.w1 e.byte_offset in
    let c = be_bytes w.w2 e.generation in
    let d1 : decoded ≡ pre ++ (a ++ ((b ++ c) ++ post)) =
      d ∙ ap (λ xs. pre ++ xs) (append_assoc a (b ++ c) post) in
    let d2 : decoded ≡ (pre ++ a) ++ (b ++ (c ++ post)) =
      d1
      ∙ ap (λ xs. pre ++ (a ++ xs)) (append_assoc b c post)
      ∙ sym (append_assoc pre a (b ++ (c ++ post))) in
    let d3 : decoded ≡ ((pre ++ a) ++ b) ++ (c ++ post) =
      d2 ∙ sym (append_assoc (pre ++ a) b (c ++ post)) in
    let la = length-append pre a in
    let lb = length-append (pre ++ a) b in
    let size_a = length-be_bytes w.w0 1 in
    let size_b = length-be_bytes w.w1 e.byte_offset in
    let one_fits : 1 < 256 ^ w.w0 = rw ws.tag (omega arith) in
    let f1 =
      decode_field_lem decoded pre ((b ++ c) ++ post) offset w.w0 1 1 d1 o (omega (arith, ws.tag))
        one_fits (omega arith) in
    let f2 =
      decode_field_lem decoded (pre ++ a) (c ++ post) (offset + w.w0) w.w1 e.byte_offset 0 d2
        (omega arith) ws.offset_low fits.offset_width fits.offset_word in
    let f3 =
      decode_field_lem decoded ((pre ++ a) ++ b) post (offset + w.w0 + w.w1) w.w2 e.generation 0 d3
        (omega arith) ws.generation_low fits.generation_width fits.generation_word in
    rw (f1, f2, f3)
      (record_of_lem decoded offset n e.byte_offset e.generation fits.offset_word
        fits.generation_word)
