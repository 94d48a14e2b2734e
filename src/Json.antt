-- ===== src/Json.antt =====
-- What the program uses of `JSON.parse`: whether a text is JSON, whether its value is an object, and
-- the members of that object. A number is kept as it is spelled, a nested value is only known to be one.
-- The grammar is read by an automaton, one code unit a step, with a stack of the open containers.
pub mod Tree
use true_pad.Base.{
  ℕ, ◌+◌, ◌-◌, ◌*◌, true, false, ◌&&◌, ◌||◌, List, [], ◌∷◌, ◌++◌, Bool, Option, none, some, ◌==◌,
  ltb, leb, if◌then◌else◌, ◌>>=◌, codes,
}

pub data JsonValue : Type 0 where
  null : JsonValue
  boolean : (value : Bool) → JsonValue
  number : (spelling : List ℕ) → JsonValue
  text : (units : List ℕ) → JsonValue
  nested : JsonValue

-- Where a number stands between its sign and its exponent.
pub data Phase : Type 0 where
  minus zero_digit integer dot fraction exponent exponent_sign exponent_digits : Phase

pub data Mode : Type 0 where
  at_value at_first_item at_first_name at_name at_colon at_after : Mode
  in_text : (is_name : Bool) → (units : List ℕ) → Mode
  in_escape : (is_name : Bool) → (units : List ℕ) → Mode
  in_unicode : (is_name : Bool) → (units : List ℕ) → (left value : ℕ) → Mode
  in_number : (phase : Phase) → (spelling : List ℕ) → Mode
  in_word : (rest : List ℕ) → (value : JsonValue) → Mode

pub record Member : Type 0 where
  pub name : List ℕ
  pub value : JsonValue

-- `stack` holds `true` for an open object and `false` for an open array; `name` is the last name read
-- at the top level, and `members` are those of the top level.
pub record Parser : Type 0 where
  pub mode : Mode
  pub stack : List Bool
  pub is_object : Bool
  pub name : List ℕ
  pub members : List Member

abbrev pub parser_start : Parser
parser_start = record { mode = at_value; stack = []; is_object = false; name = []; members = [] }

abbrev pub is_json_space : ℕ → Bool
is_json_space c = c == 32 || c == 9 || c == 10 || c == 13

abbrev pub is_digit : ℕ → Bool
is_digit c = leb b'0' c && leb c b'9'

abbrev pub in_top_object : List Bool → Bool
in_top_object (true ∷ []) = true
in_top_object _ = false

abbrev pub add_member : JsonValue → Parser → List Member
add_member v p =
    if in_top_object p.stack
    then p.members ++ (record { name = p.name; value = v } ∷ [])
    else p.members

abbrev pub finish_value : JsonValue → Parser → Parser
finish_value v p = record p { mode = at_after; members = add_member v p }

abbrev pub end_text : Bool → List ℕ → Parser → Parser
end_text true units p = record p {
  mode = at_colon;
  name = if in_top_object p.stack then units else p.name;
}
end_text false units p = finish_value (text units) p

abbrev pub open_container : Bool → Mode → Parser → Parser
open_container is_object mode p = record p {
  mode = mode;
  stack = is_object ∷ p.stack;
  is_object = elim p.stack [ [] ↦ is_object | _ ↦ p.is_object ];
}

-- A closing bracket is read; the container becomes a value of the one around it.
abbrev pub close_container : Bool → List Bool → Parser → Option Parser
close_container true (true ∷ rest) p = some (finish_value nested (record p { stack = rest }))
close_container false (false ∷ rest) p = some (finish_value nested (record p { stack = rest }))
close_container _ _ p = none

abbrev pub step_value : ℕ → Parser → Option Parser
step_value c p =
    if c == b'"'
    then some (record p { mode = in_text false [] })
    else if c == b'{'
    then some (open_container true at_first_name p)
    else if c == b'['
    then some (open_container false at_first_item p)
    else if c == b'-'
    then some (record p { mode = in_number minus (c ∷ []) })
    else if c == b'0'
    then some (record p { mode = in_number zero_digit (c ∷ []) })
    else if is_digit c
    then some (record p { mode = in_number integer (c ∷ []) })
    else if c == b't'
    then some (record p { mode = in_word (codes "rue") (boolean true) })
    else if c == b'f'
    then some (record p { mode = in_word (codes "alse") (boolean false) })
    else if c == b'n'
    then some (record p { mode = in_word (codes "ull") null })
    else none

abbrev pub step_comma : List Bool → Parser → Option Parser
step_comma (true ∷ rest) p = some (record p { mode = at_name })
step_comma (false ∷ rest) p = some (record p { mode = at_value })
step_comma [] p = none

abbrev pub step_after : ℕ → Parser → Option Parser
step_after c p =
    if c == b','
    then step_comma p.stack p
    else if c == b'}'
    then close_container true p.stack p
    else if c == b']'
    then close_container false p.stack p
    else none

abbrev pub step_name : ℕ → Parser → Option Parser
step_name c p = if c == b'"' then some (record p { mode = in_text true [] }) else none

-- The next phase of a number, or `none` at a unit that is not part of it.
abbrev pub next_phase : Phase → ℕ → Option Phase
next_phase minus c =
    if c == b'0' then some zero_digit else if is_digit c then some integer else none
next_phase zero_digit c =
    if c == b'.' then some dot else if c == b'e' || c == b'E' then some exponent else none
next_phase integer c =
    if is_digit c
    then some integer
    else if c == b'.'
    then some dot
    else if c == b'e' || c == b'E'
    then some exponent
    else none
next_phase dot c = if is_digit c then some fraction else none
next_phase fraction c =
    if is_digit c then some fraction else if c == b'e' || c == b'E' then some exponent else none
next_phase exponent c =
    if c == b'+' || c == b'-'
    then some exponent_sign
    else if is_digit c
    then some exponent_digits
    else none
next_phase exponent_sign c = if is_digit c then some exponent_digits else none
next_phase exponent_digits c = if is_digit c then some exponent_digits else none

-- The phases in which a number may end.
abbrev pub may_end : Phase → Bool
may_end zero_digit = true
may_end integer = true
may_end fraction = true
may_end exponent_digits = true
may_end _ = false

-- After a value: white space, or what `step_after` reads.
abbrev pub step_after_space : ℕ → Parser → Option Parser
step_after_space c p = if is_json_space c then some p else step_after c p

abbrev pub step_number : Option Phase → Phase → List ℕ → ℕ → Parser → Option Parser
step_number (some phase) _ spelling c p =
    some (record p { mode = in_number phase (spelling ++ c ∷ []) })
step_number none phase spelling c p =
    if may_end phase then step_after_space c (finish_value (number spelling) p) else none

abbrev pub step_text : Bool → List ℕ → ℕ → Parser → Option Parser
step_text is_name units c p =
    if c == b'"'
    then some (end_text is_name units p)
    else if c == b'\\'
    then some (record p { mode = in_escape is_name units })
    else if ltb c 32
    then none
    else some (record p { mode = in_text is_name (units ++ c ∷ []) })

-- The unit that a one-letter escape stands for.
abbrev pub escaped_unit : ℕ → Option ℕ
escaped_unit c =
    if c == b'"' || c == b'\\' || c == b'/'
    then some c
    else if c == b'b'
    then some 8
    else if c == b'f'
    then some 12
    else if c == b'n'
    then some 10
    else if c == b'r'
    then some 13
    else if c == b't'
    then some 9
    else none

abbrev pub step_escape : Bool → List ℕ → ℕ → Parser → Option Parser
step_escape is_name units c p =
    if c == b'u'
    then some (record p { mode = in_unicode is_name units 4 0 })
    else (do u ← escaped_unit c; some (record p { mode = in_text is_name (units ++ u ∷ []) }))

-- The value of a hex digit of either case.
abbrev pub any_hex_value : ℕ → Option ℕ
any_hex_value c =
    if is_digit c
    then some (c - b'0')
    else if leb b'a' c && leb c b'f'
    then some (c - b'a' + 10)
    else if leb b'A' c && leb c b'F'
    then some (c - b'A' + 10)
    else none

abbrev pub step_unicode : Bool → List ℕ → ℕ → ℕ → ℕ → Parser → Option Parser
step_unicode is_name units left value c p = do
  d ← any_hex_value c
  let value' = value * 16 + d
  some (
      if leb left 1
      then record p { mode = in_text is_name (units ++ value' ∷ []) }
      else record p { mode = in_unicode is_name units (left - 1) value' })

abbrev pub step_word : List ℕ → JsonValue → ℕ → Parser → Option Parser
step_word [] v c p = none
step_word (x ∷ []) v c p = if x == c then some (finish_value v p) else none
step_word (x ∷ y ∷ rest) v c p =
    if x == c then some (record p { mode = in_word (y ∷ rest) v }) else none

abbrev pub step_colon : ℕ → Parser → Option Parser
step_colon c p = if c == b':' then some (record p { mode = at_value }) else none

abbrev pub step_in : Mode → ℕ → Parser → Option Parser
step_in at_value c p = if is_json_space c then some p else step_value c p
step_in at_first_item c p =
    if is_json_space c
    then some p
    else if c == b']'
    then close_container false p.stack p
    else step_value c p
step_in at_first_name c p =
    if is_json_space c
    then some p
    else if c == b'}'
    then close_container true p.stack p
    else step_name c p
step_in at_name c p = if is_json_space c then some p else step_name c p
step_in at_colon c p = if is_json_space c then some p else step_colon c p
step_in at_after c p = step_after_space c p
step_in (in_text is_name units) c p = step_text is_name units c p
step_in (in_escape is_name units) c p = step_escape is_name units c p
step_in (in_unicode is_name units left value) c p = step_unicode is_name units left value c p
step_in (in_number phase spelling) c p = step_number (next_phase phase c) phase spelling c p
step_in (in_word rest value) c p = step_word rest value c p

unfoldable pub parse_from : Parser → List ℕ → Option Parser
parse_from p [] = some p
parse_from p (c ∷ cs) = step_in p.mode c p >>= λ q. parse_from q cs

-- A text that ends in a number ends the number.
abbrev pub at_end : Mode → Parser → Parser
at_end (in_number phase spelling) p = if may_end phase then finish_value (number spelling) p else p
at_end _ p = p

abbrev pub is_done : Mode → List Bool → Bool
is_done at_after [] = true
is_done _ _ = false

abbrev pub finished : Parser → Option Parser
finished p = if is_done p.mode p.stack then some p else none

unfoldable pub json_parse : List ℕ → Option Parser
json_parse t = do p ← parse_from parser_start t; finished (at_end p.mode p)
