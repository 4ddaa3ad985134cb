-- ===== src/Syntax/Tokenizer/Lexeme.antt =====
-- What the bytes of a token of each kind are.
use presslint.Common.{
  ℕ, zero, suc, ◌+◌, ◌^◌, ◌≤◌, ◌<◌, ◌≡◌, refl, inl, inr, Bool, true, false, some, [], ◌∷◌, Bytes,
  length, get_elem?, slice, slice_one, slice_two, not, ◌&&◌, ok, ◌>>=◌, get_elem?-cases,
  get_elem?-lt, Bool-cases, Option-cases, arith, ◌==◌, ==_iff, Ensures, returns, Ensures-mono,
  Ensures->>=,
}
use presslint.Syntax.Model.{Token, TokenKind, TriviaKind, StringKind, Delimiter}
use presslint.Syntax.Tokenizer.{
  is_whitespace, is_not_eol, is_regular, byte_is, skip_while, scan_literal_string, scan_hex_string,
  scan_delimiter, classify_regular_token, delimiter_or_regular, next_token, token,
}
use presslint.Syntax.Tokenizer.Bounds.{skip_while_bounds, StandsAt, delimiter_or_regular-StandsAt}
use presslint.Syntax.Tokenizer.Strings.{
  LiteralCloses, HexCloses, IsUnterminated, literal_within, hex_within,
}
use presslint.Syntax.Tokenizer.Scanned.{scan_literal_string-Ensures, scan_hex_string-Ensures}

-- Every byte from `i` up to `j` passes the test.
abbrev pub AllOf : (ℕ → Bool) → Bytes → ℕ → ℕ → Type 0
AllOf go input i j =
    (k : ℕ) → i ≤ k → k < j → (b : ℕ) × (get_elem? input k ≡ some b) × (go b ≡ true)

-- No byte stands at `j`, or one that fails the test.
abbrev pub StopsAt : (ℕ → Bool) → Bytes → ℕ → Type 0
StopsAt go input j = (b : ℕ) → get_elem? input j ≡ some b → go b ≡ false

abbrev pub delimiter_text : Delimiter → Bytes
delimiter_text Delimiter.array_open = b'[' ∷ []
delimiter_text Delimiter.array_close = b']' ∷ []
delimiter_text Delimiter.dictionary_open = b'<' ∷ b'<' ∷ []
delimiter_text Delimiter.dictionary_close = b'>' ∷ b'>' ∷ []

-- A maximal run of regular bytes behind a first byte of any kind, classified as a whole.
abbrev pub RegularLexeme : TokenKind → Bytes → ℕ → ℕ → Type 0
RegularLexeme kind input i j =
    (kind ≡ classify_regular_token (slice input i j))
    × AllOf is_regular input (i + 1) j
    × StopsAt is_regular input j

abbrev pub LexemeOf : TokenKind → Bytes → ℕ → ℕ → Type 0
LexemeOf (TokenKind.trivia TriviaKind.whitespace) input i j =
    AllOf is_whitespace input i j × StopsAt is_whitespace input j
LexemeOf (TokenKind.trivia TriviaKind.comment) input i j =
    (get_elem? input i ≡ some b'%') × AllOf is_not_eol input (i + 1) j × StopsAt is_not_eol input j
LexemeOf (TokenKind.string StringKind.literal) input i j =
    (get_elem? input i ≡ some b'(') × LiteralCloses (2 ^ 32) input (i + 1) 1 j
LexemeOf (TokenKind.string StringKind.hexadecimal) input i j =
    (get_elem? input i ≡ some b'<') × HexCloses input (i + 1) j
LexemeOf (TokenKind.delimiter d) input i j = slice input i j ≡ delimiter_text d
LexemeOf TokenKind.boolean input i j = RegularLexeme TokenKind.boolean input i j
LexemeOf TokenKind.null input i j = RegularLexeme TokenKind.null input i j
LexemeOf (TokenKind.number n) input i j = RegularLexeme (TokenKind.number n) input i j
LexemeOf TokenKind.name input i j = RegularLexeme TokenKind.name input i j
LexemeOf (TokenKind.keyword k) input i j = RegularLexeme (TokenKind.keyword k) input i j
LexemeOf TokenKind.operator input i j = RegularLexeme TokenKind.operator input i j

abbrev pub Lexeme : Bytes → Token → Type 0
Lexeme input t = LexemeOf t.kind input t.range.start t.range.end

skip_while_stops :
    (go : ℕ → Bool) (input : Bytes) (fuel offset : ℕ)
    → length input ≤ fuel + offset
    → StopsAt go input (skip_while go input fuel offset)
unfolding skip_while
skip_while_stops go input zero offset h b = λ e. absurd (omega (arith, get_elem?-lt input offset e))
skip_while_stops go input (suc fuel) offset h b = elim (get_elem?-cases input offset) [
  | inl (none_here, _) ↦ rw (none_here, skip_while) (λ e. cc)
  | inr (c, here, lt) ↦ elim (Bool-cases (go c)) [
    | inl yes_go ↦
        rw (here, yes_go, skip_while) (skip_while_stops go input fuel (offset + 1) (omega arith) b)
    | inr no_go ↦ rw (here, no_go, skip_while) (λ e. cc)
  ]
]

skip_while_all :
    (go : ℕ → Bool) (input : Bytes) (fuel offset : ℕ)
    → AllOf go input offset (skip_while go input fuel offset)
unfolding skip_while
skip_while_all go input zero offset k le = λ lt. absurd (omega arith)
skip_while_all go input (suc fuel) offset k le = elim (get_elem?-cases input offset) [
  | inl (none_here, _) ↦ rw (none_here, skip_while) (λ lt. absurd (omega arith))
  | inr (c, here, lt) ↦ elim (Bool-cases (go c)) [
    | inl yes_go ↦
        rw (here, yes_go, skip_while)
          (λ lt. elim (Bool-cases (k == offset)) [
            | inl same ↦ (c, rw ((==_iff k offset).0 same) here, yes_go)
            | inr other ↦ skip_while_all go input fuel (offset + 1) k (ground arith) lt
          ])
    | inr no_go ↦ rw (here, no_go, skip_while) (λ lt. absurd (omega arith))
  ]
]

-- A run that begins behind the byte at `offset`.
module _ (go : ℕ → Bool) (input : Bytes) (offset : ℕ) (lt : offset < length input) where
  abbrev run_end : ℕ
  run_end = skip_while go input (length input) (offset + 1)

  run_all : AllOf go input (offset + 1) run_end
  run_all = skip_while_all go input (length input) (offset + 1)

  run_stops : StopsAt go input run_end
  run_stops = skip_while_stops go input (length input) (offset + 1) (omega arith)

  run_bounds : (offset < run_end) × (run_end ≤ length input)
  run_bounds = omega (arith, skip_while_bounds go input (length input) (offset + 1))

abbrev is_regular_kind : TokenKind → Bool
is_regular_kind (TokenKind.trivia _) = false
is_regular_kind (TokenKind.string _) = false
is_regular_kind (TokenKind.delimiter _) = false
is_regular_kind _ = true

classify_regular_kind : (bytes : Bytes) → is_regular_kind (classify_regular_token bytes) ≡ true
unfolding classify_regular_token
classify_regular_kind bytes = ground arith

LexemeOf-regular :
    (kind : TokenKind) (input : Bytes) (i j : ℕ)
    → is_regular_kind kind ≡ true
    → RegularLexeme kind input i j
    → LexemeOf kind input i j
LexemeOf-regular (TokenKind.trivia _) input i j h r = cc
LexemeOf-regular (TokenKind.string _) input i j h r = cc
LexemeOf-regular (TokenKind.delimiter _) input i j h r = cc
LexemeOf-regular TokenKind.boolean input i j h r = r
LexemeOf-regular TokenKind.null input i j h r = r
LexemeOf-regular (TokenKind.number _) input i j h r = r
LexemeOf-regular TokenKind.name input i j h r = r
LexemeOf-regular (TokenKind.keyword _) input i j h r = r
LexemeOf-regular TokenKind.operator input i j h r = r

byte_is_read :
    (input : Bytes) (i byte : ℕ) → byte_is input i byte ≡ true → get_elem? input i ≡ some byte
unfolding byte_is
byte_is_read input i byte = ground arith

scan_delimiter_text :
    (input : Bytes) (offset byte : ℕ) {d : Delimiter} {end : ℕ}
    → get_elem? input offset ≡ some byte
    → scan_delimiter input offset byte ≡ some (d, end)
    → slice input offset end ≡ delimiter_text d
unfolding scan_delimiter
scan_delimiter_text input offset byte here = ground (
  arith,
  slice_one input offset byte,
  slice_two input offset byte b'<',
  slice_two input offset byte b'>',
  byte_is_read input (offset + 1) b'<',
  byte_is_read input (offset + 1) b'>',
)

-- What the loop body promises of its token, or of its error.
abbrev pub NextToken : Bytes → ℕ → Token → Type 0
NextToken input offset t = StandsAt input offset t × Lexeme input t

module _ (input : Bytes) (offset byte : ℕ) (here : get_elem? input offset ≡ some byte) where
  lt : offset < length input
  lt = get_elem?-lt input offset here

  whitespace_token :
      is_whitespace byte ≡ true
      → NextToken input offset (
          token
            (TokenKind.trivia TriviaKind.whitespace)
            offset
            (run_end is_whitespace input offset lt))
  whitespace_token ws =
      let inside = run_bounds is_whitespace input offset lt in
      (
        (refl, inside.0, inside.1),
        (
          λ k le below. elim (Bool-cases (k == offset)) [
            | inl same ↦ (byte, rw ((==_iff k offset).0 same) here, ws)
            | inr other ↦ run_all is_whitespace input offset lt k (ground arith) below
          ],
          run_stops is_whitespace input offset lt,
        ),
      )

  comment_token :
      byte ≡ b'%'
      → NextToken input offset
          (token (TokenKind.trivia TriviaKind.comment) offset (run_end is_not_eol input offset lt))
  comment_token e =
      let inside = run_bounds is_not_eol input offset lt in
      (
        (refl, inside.0, inside.1),
        (rw e at here, run_all is_not_eol input offset lt, run_stops is_not_eol input offset lt),
      )

  literal_token :
      byte ≡ b'('
      → Ensures (NextToken input offset) (IsUnterminated input) (
          scan_literal_string input offset >>= λ end.
          ok (token (TokenKind.string StringKind.literal) offset end))
  literal_token e =
      Ensures->>=
        (Ensures-mono (λ _ c. c) (λ x (ex, never). rw ex ((rw e at here, never), refl))
          (scan_literal_string-Ensures input offset lt))
        (λ end c.
          let inside = literal_within c in
          returns ((refl, omega arith, inside.1), (rw e at here, c)))

  hex_token :
      byte ≡ b'<'
      → Ensures (NextToken input offset) (IsUnterminated input) (
          scan_hex_string input offset >>= λ end.
          ok (token (TokenKind.string StringKind.hexadecimal) offset end))
  hex_token e =
      Ensures->>=
        (Ensures-mono (λ _ c. c) (λ x (ex, never). rw ex ((rw e at here, never), refl))
          (scan_hex_string-Ensures input offset lt))
        (λ end c.
          let inside = hex_within c in returns ((refl, omega arith, inside.1), (rw e at here, c)))

  other_token :
      NextToken input offset (delimiter_or_regular input offset (scan_delimiter input offset byte))
  unfolding delimiter_or_regular
  other_token = (delimiter_or_regular-StandsAt input offset byte lt, lexeme)
    where
      lexeme : Lexeme input (delimiter_or_regular input offset (scan_delimiter input offset byte))
      lexeme = elim (Option-cases (scan_delimiter input offset byte)) [
        | inl e ↦
            rw (e, delimiter_or_regular)
              (LexemeOf-regular _ input offset _ (classify_regular_kind _)
                (refl, run_all is_regular input offset lt, run_stops is_regular input offset lt))
        | inr ((d, end), e) ↦
            rw (e, delimiter_or_regular) (scan_delimiter_text input offset byte here e)
      ]

  pub next_token-Ensures :
      Ensures (NextToken input offset) (IsUnterminated input) (next_token input offset byte)
  unfolding next_token
  next_token-Ensures = elim (Bool-cases (is_whitespace byte)) [
    | inl ws ↦ rw (ws, next_token) (returns (whitespace_token ws))
    | inr ws ↦ elim (Bool-cases (byte == b'%')) [
      | inl pc ↦ rw (ws, pc, next_token) (returns (comment_token ((==_iff _ _).0 pc)))
      | inr pc ↦ elim (Bool-cases (byte == b'(')) [
        | inl lp ↦ rw (ws, pc, lp, next_token) (literal_token ((==_iff _ _).0 lp))
        | inr lp ↦ elim (Bool-cases (byte == b'<' && not (byte_is input (offset + 1) b'<'))) [
          | inl hx ↦ rw (ws, pc, lp, hx, next_token) (hex_token (ground arith))
          | inr hx ↦ rw (ws, pc, lp, hx, next_token) (returns other_token)
        ]
      ]
    ]
  ]
