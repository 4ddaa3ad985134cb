-- ===== src/Xref/Checks.antt =====
-- The checks of `parse_xref_stream_entries`, and the decoding of one record, on any bytes.
use presslint.Common.{
  ℕ, ◌+◌, ◌≤◌, ◌≡◌, refl, inl, inr, List, [], some, none, Option, ◌∷◌, Bytes, length, get_range?,
  leb, ltb, ◌&&◌, true, ◌==◌, Bool-cases, arith, ok_or, Ensures, returns, fails, Ensures->>=,
  Ensures-mono,
}
use presslint.Xref.Entries.{
  Widths, XrefStreamEntryRecord, XrefStreamEntriesError, in_range, Field, decode_field,
  field_to_usize, two_fields, record_of, decode_record, validate_from, checked_sum, record_width,
  width_list,
}
use presslint.Xref.Records.{width_of}
use presslint.Xref.RoundTrip.{total}

abbrev pub SameLen : Bytes → XrefStreamEntriesError → Type 0
SameLen decoded e = e.decoded_len ≡ length decoded

decode_field-Ensures :
    (decoded : Bytes) (cursor w default : ℕ)
    → cursor + w ≤ length decoded
    → Ensures
        (λ f. Field.cursor f ≡ cursor + w)
        (SameLen decoded)
        (decode_field decoded cursor w default)
unfolding decode_field get_range?
decode_field-Ensures decoded cursor w default h = elim (Bool-cases (w == 0)) [
  | inl z ↦ rw z (returns (ground arith))
  | inr z ↦
      let test : (leb cursor (cursor + w) && leb (cursor + w) (length decoded)) ≡ true =
        ground arith in
      rw (z, test) (returns refl)
]

pub ok_or-Ensures :
    {P : ℕ → Type 0} (decoded : Bytes) (o : Option ℕ) (e : XrefStreamEntriesError)
    → ((n : ℕ) → o ≡ some n → P n)
    → SameLen decoded e
    → Ensures P (SameLen decoded) (ok_or o e)
ok_or-Ensures decoded none e h same = fails same
ok_or-Ensures decoded (some n) e h same = returns (h n refl)

two_fields-Ensures :
    (decoded : Bytes) (offset n a b : ℕ) (make : ℕ → ℕ → XrefStreamEntryRecord)
    → Ensures (λ _. Unit {0}) (SameLen decoded) (two_fields decoded offset n a b make)
unfolding two_fields field_to_usize
two_fields-Ensures decoded offset n a b make =
    Ensures->>= (ok_or-Ensures {P = λ _. Unit {0}} decoded (in_range a) _ (λ _ _. tt) refl) (λ a' _.
      Ensures->>= (ok_or-Ensures {P = λ _. Unit {0}} decoded (in_range b) _ (λ _ _. tt) refl)
        (λ b' _. returns tt))

record_of-Ensures :
    (decoded : Bytes) (offset n t a b : ℕ)
    → Ensures (λ _. Unit {0}) (SameLen decoded) (record_of decoded offset n t a b)
unfolding record_of
record_of-Ensures decoded offset n t a b =
    let known = two_fields-Ensures decoded offset n a b in
    elim (Bool-cases (t == 0)) [
      | inl e ↦ rw e (known XrefStreamEntryRecord.free)
      | inr e ↦ elim (Bool-cases (t == 1)) [
        | inl e' ↦ rw (e, e') (known XrefStreamEntryRecord.uncompressed)
        | inr e' ↦ elim (Bool-cases (t == 2)) [
          | inl c ↦ rw (e, e', c) (known XrefStreamEntryRecord.compressed)
          | inr c ↦ rw (e, e', c) (returns tt)
        ]
      ]
    ]

pub decode_record-Ensures :
    (decoded : Bytes) (offset : ℕ) (w : Widths) (n : ℕ)
    → offset + width_of w ≤ length decoded
    → Ensures (λ _. Unit {0}) (SameLen decoded) (decode_record decoded offset w n)
unfolding decode_record
decode_record-Ensures decoded offset w n h =
    Ensures->>= (decode_field-Ensures decoded offset w.w0 1 (omega arith)) (λ f1 c1.
      Ensures->>= (decode_field-Ensures decoded f1.cursor w.w1 0 (omega arith)) (λ f2 c2.
        Ensures->>= (decode_field-Ensures decoded f2.cursor w.w2 0 (omega arith))
          (λ f3 c3. record_of-Ensures decoded offset n f1.value f2.value f3.value)))

pub in_range_same : (n m : ℕ) → in_range n ≡ some m → m ≡ n
unfolding in_range
in_range_same n m h = ground arith

pub checked_sum-Ensures :
    (decoded : Bytes) (sum : ℕ) (ns : List ℕ)
    → Ensures (λ t. t ≡ sum + total ns) (SameLen decoded) (checked_sum decoded sum ns)
unfolding checked_sum
checked_sum-Ensures decoded sum [] = returns (omega arith)
checked_sum-Ensures decoded sum (n ∷ ns) =
    Ensures->>=
      (ok_or-Ensures {P = λ m. m ≡ sum + n} decoded (in_range (sum + n)) _
        (λ m. in_range_same (sum + n) m) refl)
      (λ next e. Ensures-mono (λ t h. omega arith) (λ _ h. h) (checked_sum-Ensures decoded next ns))

pub validate_from-Ensures :
    (decoded : Bytes) (index : ℕ) (ws : List ℕ)
    → Ensures (λ _. Unit {0}) (SameLen decoded) (validate_from decoded index ws)
unfolding validate_from
validate_from-Ensures decoded index [] = returns tt
validate_from-Ensures decoded index (w ∷ ws) = elim (Bool-cases (ltb 8 w)) [
  | inl wide ↦ rw wide (fails refl)
  | inr fine ↦ rw fine (validate_from-Ensures decoded (index + 1) ws)
]

pub record_width-Ensures :
    (decoded : Bytes) (w : Widths)
    → Ensures (λ n. (n ≡ width_of w) × (1 ≤ n)) (SameLen decoded) (record_width decoded w)
unfolding record_width
record_width-Ensures decoded w = Ensures->>= (checked_sum-Ensures decoded 0 (width_list w)) (λ n e.
    elim (Bool-cases (n == 0)) [
      | inl z ↦ rw z (fails refl)
      | inr z ↦ rw z (returns (omega arith, ground arith))
    ])
