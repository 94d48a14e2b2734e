-- ===== src/Envelope/Scan.antt =====
-- `scanTopLevelStrings` of src/core/envelope2.ts: the strings and numbers at the top level of a text
-- that `JSON.parse` has read as an object, as they are spelled. The walk is one code unit a step; the
-- inner loops of the source are modes.
use true_pad.Base.{
  ℕ, ◌+◌, ◌-◌, Bool, true, false, not, ◌&&◌, ◌||◌, List, [], ◌∷◌, ◌++◌, ◌==◌, leb, if◌then◌else◌,
}

-- `WireToken`: `is_name` tells a property name from a string value.
pub record WireToken : Type 0 where
  pub is_name : Bool
  pub spelling : List ℕ
  pub escaped : Bool

pub record NumberMember : Type 0 where
  pub name : List ℕ
  pub spelling : List ℕ

pub record WireScan : Type 0 where
  pub tokens : List WireToken
  pub numbers : List NumberMember

-- Where the walk stands: between tokens, in a string, after a backslash, in a number, or past the
-- bracket that closes the top level.
pub data Reading : Type 0 where
  between closed : Reading
  in_string : (spelling : List ℕ) → (escaped : Bool) → Reading
  after_backslash : (spelling : List ℕ) → Reading
  in_numeral : (spelling : List ℕ) → Reading

pub record Scanner : Type 0 where
  pub reading : Reading
  pub depth : ℕ
  pub expect_name : Bool
  pub pending_name : List ℕ
  pub tokens : List WireToken
  pub numbers : List NumberMember

abbrev pub scanner_start : Scanner
scanner_start = record {
  reading = between;
  depth = 0;
  expect_name = false;
  pending_name = [];
  tokens = [];
  numbers = [];
}

-- The closing quote is read: at the top level, the string is a token.
abbrev pub push_token : List ℕ → Bool → Scanner → Scanner
push_token spelling escaped s =
    if s.depth == 1
    then record {
      reading = between;
      depth = s.depth;
      expect_name = false;
      pending_name = if s.expect_name then spelling else s.pending_name;
      tokens =
          s.tokens
          ++ record { is_name = s.expect_name; spelling = spelling; escaped = escaped } ∷ [];
      numbers = s.numbers;
    }
    else record s { reading = between }

abbrev pub push_number : List ℕ → Scanner → Scanner
push_number spelling s = record s {
  reading = between;
  numbers = s.numbers ++ record { name = s.pending_name; spelling = spelling } ∷ [];
}

abbrev pub open_bracket : Scanner → Scanner
open_bracket s = record s {
  depth = s.depth + 1;
  expect_name = if s.depth == 0 then true else s.expect_name;
}

abbrev pub close_bracket : Scanner → Scanner
close_bracket s = record s {
  reading = if s.depth == 1 then closed else between;
  depth = s.depth - 1;
}

abbrev pub starts_number : ℕ → Bool
starts_number c = c == b'-' || (leb b'0' c && leb c b'9')

abbrev pub scan_between : ℕ → Scanner → Scanner
scan_between c s =
    if c == b'"'
    then record s { reading = in_string [] false }
    else if c == b'{' || c == b'['
    then open_bracket s
    else if c == b'}' || c == b']'
    then close_bracket s
    else if s.depth == 1 && not s.expect_name && starts_number c
    then record s { reading = in_numeral (c ∷ []) }
    else if c == b',' && s.depth == 1
    then record s { expect_name = true }
    else s

-- The test `"+-.eE0123456789".includes(c)`.
abbrev pub continues_number : ℕ → Bool
continues_number c =
    c == b'+' || c == b'-' || c == b'.' || c == b'e' || c == b'E' || (leb b'0' c && leb c b'9')

abbrev pub scan_in : Reading → ℕ → Scanner → Scanner
scan_in between c s = scan_between c s
scan_in closed c s = s
scan_in (in_string spelling escaped) c s =
    if c == b'\\'
    then record s { reading = after_backslash (spelling ++ c ∷ []) }
    else if c == b'"'
    then push_token spelling escaped s
    else record s { reading = in_string (spelling ++ c ∷ []) escaped }
scan_in (after_backslash spelling) c s = record s { reading = in_string (spelling ++ c ∷ []) true }
scan_in (in_numeral spelling) c s =
    if continues_number c
    then record s { reading = in_numeral (spelling ++ c ∷ []) }
    else scan_between c (push_number spelling s)

unfoldable pub scan_from : Scanner → List ℕ → Scanner
scan_from s [] = s
scan_from s (c ∷ cs) = scan_from (scan_in s.reading c s) cs

unfoldable pub scan_top_level_strings : List ℕ → WireScan
scan_top_level_strings t =
    let s = scan_from scanner_start t in record { tokens = s.tokens; numbers = s.numbers }
