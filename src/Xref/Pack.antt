-- ===== src/Xref/Pack.antt =====
-- The packing of entries in crates/presslint-write/src/xref_stream_writer.rs, for a 64-bit target.
use presslint.Common.{
  ℕ, zero, suc, ◌+◌, ◌-◌, ◌/◌, ◌%◌, ◌^◌, List, [], ◌∷◌, ◌++◌, Bytes, length, drop, leb, ◌==◌,
  if◌then◌else◌, not,
}
use presslint.Xref.Entries.{Widths, XrefStreamSubsection}

-- The writer's own `XrefStreamEntry`.
pub record PackedEntry : Type 0 where
  pub object_number : ℕ
  pub generation : ℕ
  pub byte_offset : ℕ

-- The last `n` bytes of a number, the most significant first.
unfoldable pub be_bytes : ℕ → ℕ → Bytes
be_bytes zero value = []
be_bytes (suc n) value = be_bytes n (value / 256) ++ (value % 256) ∷ []

-- `usize::to_be_bytes`
unfoldable pub to_be_bytes : ℕ → Bytes
to_be_bytes = be_bytes 8

-- The loop of `minimal_width`, at `index`, for an array of `total` bytes.
unfoldable pub width_loop : ℕ → ℕ → Bytes → ℕ
width_loop total index [] = 1
width_loop total index (byte ∷ bytes) =
    if not (byte == 0) then total - index else width_loop total (index + 1) bytes

unfoldable pub minimal_width : ℕ → ℕ
minimal_width value = width_loop (length (to_be_bytes value)) 0 (to_be_bytes value)

abbrev pub larger : ℕ → ℕ → ℕ
larger a b = if leb a b then b else a

-- `.map(f).max().unwrap_or(0)`
unfoldable pub max_of : (PackedEntry → ℕ) → List PackedEntry → ℕ
max_of f [] = 0
max_of f (e ∷ es) = larger (f e) (max_of f es)

unfoldable pub xref_widths : List PackedEntry → Widths
xref_widths entries = record {
  w0 = 1;
  w1 = minimal_width (max_of (λ e. e.byte_offset) entries);
  w2 = minimal_width (max_of (λ e. e.generation) entries);
}

-- The two loops of `index_runs` as one: `count` entries of the run that began with `first` are
-- read, and `last` is the object number of the latest, a `u32`.
unfoldable pub run_loop : ℕ → ℕ → ℕ → List PackedEntry → List XrefStreamSubsection
run_loop first count last [] = record { first_object_number = first; entry_count = count } ∷ []
run_loop first count last (e ∷ es) =
    let longer = run_loop first (count + 1) e.object_number es in
    let fresh =
      record { first_object_number = first; entry_count = count }
      ∷ run_loop e.object_number 1 e.object_number es in
    if e.object_number == (last + 1) % 2 ^ 32 then longer else fresh

unfoldable pub index_runs : List PackedEntry → List XrefStreamSubsection
index_runs [] = []
index_runs (e ∷ es) = run_loop e.object_number 1 e.object_number es

-- `push_be`. The slice starts at `8 - width`, which does not underflow: a width is at most 8.
unfoldable pub push_be : Bytes → ℕ → ℕ → Bytes
push_be out value width = out ++ drop (length (to_be_bytes value) - width) (to_be_bytes value)

unfoldable pub pack_loop : List PackedEntry → Widths → Bytes → Bytes
pack_loop [] widths out = out
pack_loop (e ∷ es) widths out =
    pack_loop es widths
      (push_be (push_be (push_be out 1 widths.w0) e.byte_offset widths.w1) e.generation widths.w2)

unfoldable pub pack_entries : List PackedEntry → Widths → Bytes
pack_entries entries widths = pack_loop entries widths []
