-- ===== src/Envelope/Numbers.antt =====
-- How the two readers of an envelope's text read a number of the object and the comma after it.
use true_pad.Base.{
  ℕ, ◌≤◌, ◌≡◌, refl, sym, ap, subst, ◌∙◌, true, false, ◌&&◌, ◌||◌, List, [], ◌∷◌, ◌++◌, some, arith,
  ◌==◌, leb,
}
use true_pad.Base.{&&-right, ℕ_discrete}
use true_pad.Json.{number, integer, at_value, at_name, in_number, Member, parse_from, step_in}
use true_pad.Envelope.Decimal.{all_digits, is_decimal_digit, is_canonical}
use true_pad.Envelope.Chunks.{parse_from-digits, scan_from-digits}
use true_pad.Envelope.Scan.{
  WireToken, NumberMember, in_numeral, between, Scanner, scan_from, scan_in,
}

first_digit :
    (c : ℕ) (n : List ℕ) (ms : List Member)
    → b'1' ≤ c
    → c ≤ b'9'
    → step_in at_value c
        (record { mode = at_value; stack = true ∷ []; is_object = true; name = n; members = ms })
      ≡ some (record {
        mode = in_number integer (c ∷ []);
        stack = true ∷ [];
        is_object = true;
        name = n;
        members = ms;
      })
first_digit c n ms l u =
    let s : (c == 32 || c == 9 || c == 10 || c == 13) ≡ false = ground arith in
    let a : (c == b'"') ≡ false = ground arith in
    let b : (c == b'{') ≡ false = ground arith in
    let d : (c == b'[') ≡ false = ground arith in
    let e : (c == b'-') ≡ false = ground arith in
    let f : (c == b'0') ≡ false = ground arith in
    let g : (leb b'0' c && leb c b'9') ≡ true = ground arith in rw (s, a, b, d, e, f, g)

first_numeral :
    (c : ℕ) (n : List ℕ) (ts : List WireToken) (ns : List NumberMember)
    → is_decimal_digit c ≡ true
    → scan_in between c (record {
      reading = between;
      depth = 1;
      expect_name = false;
      pending_name = n;
      tokens = ts;
      numbers = ns;
    })
      ≡ record {
        reading = in_numeral (c ∷ []);
        depth = 1;
        expect_name = false;
        pending_name = n;
        tokens = ts;
        numbers = ns;
      }
first_numeral c n ts ns h =
    let a : (c == b'"') ≡ false = ground arith in
    let b : (c == b'{' || c == b'[') ≡ false = ground arith in
    let d : (c == b'}' || c == b']') ≡ false = ground arith in
    let e : (c == b'-' || (leb b'0' c && leb c b'9')) ≡ true = ground arith in rw (a, b, d, e)

-- A number from 1 on, by the digits after its first.
positive :
    (c : ℕ) (t rest : List ℕ) (n : List ℕ) (ms : List Member)
    → b'1' ≤ c
    → c ≤ b'9'
    → all_digits t ≡ true
    → parse_from
        (record { mode = at_value; stack = true ∷ []; is_object = true; name = n; members = ms })
        (c ∷ t ++ b',' ∷ rest)
      ≡ parse_from
          (record {
            mode = at_name;
            stack = true ∷ [];
            is_object = true;
            name = n;
            members = ms ++ record { name = n; value = number (c ∷ t) } ∷ [];
          })
          rest
unfolding parse_from
positive c t rest n ms l u h =
    rw (first_digit c n ms l u) (parse_from-digits (c ∷ []) t (b',' ∷ rest) (true ∷ []) true n ms h)

pub parse_from-number :
    (t rest : List ℕ) (n : List ℕ) (ms : List Member)
    → is_canonical t ≡ true
    → parse_from
        (record { mode = at_value; stack = true ∷ []; is_object = true; name = n; members = ms })
        (t ++ b',' ∷ rest)
      ≡ parse_from
          (record {
            mode = at_name;
            stack = true ∷ [];
            is_object = true;
            name = n;
            members = ms ++ record { name = n; value = number t } ∷ [];
          })
          rest
unfolding parse_from is_canonical all_digits
parse_from-number [] rest n ms h = ground arith
parse_from-number (c ∷ []) rest n ms h = elim (ℕ_discrete c b'0') [
  | yes e ↦
      subst
        (λ x.
          parse_from
            (record {
              mode = at_value;
              stack = true ∷ [];
              is_object = true;
              name = n;
              members = ms;
            })
            (x ∷ b',' ∷ rest)
          ≡ parse_from
              (record {
                mode = at_name;
                stack = true ∷ [];
                is_object = true;
                name = n;
                members = ms ++ record { name = n; value = number (x ∷ []) } ∷ [];
              })
              rest)
        (sym e) refl
  | no e ↦ positive c [] rest n ms (ground arith) (ground arith) refl
]
parse_from-number (c ∷ d ∷ t) rest n ms h =
    positive c (d ∷ t) rest n ms (ground arith) (ground arith)
      (&&-right (leb b'1' c && leb c b'9') (all_digits (d ∷ t)) h)

is_canonical-digits :
    (c : ℕ) (t : List ℕ)
    → is_canonical (c ∷ t) ≡ true
    → (is_decimal_digit c ≡ true) × (all_digits t ≡ true)
unfolding is_canonical all_digits
is_canonical-digits c [] h = (h, refl)
is_canonical-digits c (d ∷ t) h = (ground arith, ground arith)

pub scan_from-number :
    (t rest : List ℕ) (n : List ℕ) (ts : List WireToken) (ns : List NumberMember)
    → is_canonical t ≡ true
    → scan_from
        (record {
          reading = between;
          depth = 1;
          expect_name = false;
          pending_name = n;
          tokens = ts;
          numbers = ns;
        })
        (t ++ b',' ∷ rest)
      ≡ scan_from
          (record {
            reading = between;
            depth = 1;
            expect_name = true;
            pending_name = n;
            tokens = ts;
            numbers = ns ++ record { name = n; spelling = t } ∷ [];
          })
          rest
unfolding scan_from is_canonical
scan_from-number [] rest n ts ns h = ground arith
scan_from-number (c ∷ t) rest n ts ns h =
    let d = is_canonical-digits c t h in
    ap (λ (s : Scanner). scan_from s (t ++ b',' ∷ rest)) (first_numeral c n ts ns d.0)
    ∙ scan_from-digits (c ∷ []) t (b',' ∷ rest) 1 false n ts ns d.1
