-- ===== src/Xref/Tests.antt =====
-- Two runs of entries, packed and read back.
use presslint.Common.{◌*◌, ◌≤◌, ◌≡◌, refl, List, [], ◌∷◌, map, Bytes, length, ok, Ensures, arith}
use presslint.Xref.Entries.{
  Widths, XrefStreamSubsection, XrefStreamEntryRecord, entry_counts, parse_xref_stream_entries,
}
use presslint.Xref.Pack.{PackedEntry, xref_widths, index_runs, pack_entries}
use presslint.Xref.Records.{width_of, decoded_entry}
use presslint.Xref.RoundTrip.{total, parse_xref_stream_entries-pack_entries}
use presslint.Xref.Checks.{SameLen}
use presslint.Xref.Total.{declared, numbers, parse_xref_stream_entries-Ensures}

abbrev saved : List PackedEntry
saved =
    record { object_number = 3; generation = 0; byte_offset = 700 }
    ∷ record { object_number = 4; generation = 2; byte_offset = 15 }
    ∷ record { object_number = 9; generation = 0; byte_offset = 90000 }
    ∷ []

parse_xref_stream_entries-pack_entries_example :
    parse_xref_stream_entries
      (pack_entries saved (xref_widths saved))
      (xref_widths saved)
      (index_runs saved)
    ≡ ok (map decoded_entry saved)
parse_xref_stream_entries-pack_entries_example =
    parse_xref_stream_entries-pack_entries saved
      (
        (omega arith, omega arith, omega arith),
        ((omega arith, omega arith, omega arith), ((omega arith, omega arith, omega arith), tt)),
      )
      (omega arith)

abbrev mixed : Bytes
mixed = 1 ∷ 0 ∷ 16 ∷ 0 ∷ 2 ∷ 0 ∷ 4 ∷ 7 ∷ []

abbrev mixed_widths : Widths
mixed_widths = record { w0 = 1; w1 = 2; w2 = 1 }

abbrev mixed_sections : List XrefStreamSubsection
mixed_sections =
    record { first_object_number = 5; entry_count = 1 }
    ∷ record { first_object_number = 8; entry_count = 1 }
    ∷ []

mixed_entries :
    parse_xref_stream_entries mixed mixed_widths mixed_sections
    ≡ ok (
        record { object_number = 5; entry = XrefStreamEntryRecord.uncompressed 16 0 }
        ∷ record { object_number = 8; entry = XrefStreamEntryRecord.compressed 4 7 }
        ∷ [])
unfolding parse_xref_stream_entries
mixed_entries = refl

parse_xref_stream_entries-Ensures_example :
    Ensures
      (λ es.
        (numbers es ≡ declared mixed_sections)
        × (length mixed ≡ total (entry_counts mixed_sections) * width_of mixed_widths)
        × (1 ≤ width_of mixed_widths))
      (SameLen mixed)
      (parse_xref_stream_entries mixed mixed_widths mixed_sections)
parse_xref_stream_entries-Ensures_example =
    parse_xref_stream_entries-Ensures mixed mixed_widths mixed_sections
