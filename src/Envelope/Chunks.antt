-- ===== src/Envelope/Chunks.antt =====
-- How the two readers of an envelope's text read the stretches it is printed from: plain text, and
-- the digits of a number.
use true_pad.Base.{
  ℕ, ◌≤◌, ◌≡◌, ◌≢◌, sym, ap, ◌∙◌, true, false, ◌&&◌, ◌||◌, List, [], ◌∷◌, ◌++◌, Bool, arith, All,
  ◌==◌, ltb, leb, append-nil, append_assoc,
}
use true_pad.Base.{&&-left, &&-right}
use true_pad.Json.{integer, in_text, in_number, Member, parse_from}
use true_pad.Envelope.Decimal.{all_digits, is_decimal_digit}
use true_pad.Envelope.Scan.{
  WireToken, NumberMember, in_string, in_numeral, Scanner, scan_from, scan_in,
}

-- A unit that stands for itself in a JSON string.
abbrev pub IsPlain : ℕ → Type 0
IsPlain c = (32 ≤ c) × (c ≢ b'"') × (c ≢ b'\\')

pub parse_from-plain :
    (b : Bool) (u t rest : List ℕ) (stack : List Bool) (o : Bool) (n : List ℕ) (ms : List Member)
    → All IsPlain t
    → parse_from
        (record { mode = in_text b u; stack = stack; is_object = o; name = n; members = ms })
        (t ++ rest)
      ≡ parse_from
          (record {
            mode = in_text b (u ++ t);
            stack = stack;
            is_object = o;
            name = n;
            members = ms;
          })
          rest
unfolding parse_from
parse_from-plain b u [] rest stack o n ms h =
    ap
      (λ (w : List ℕ).
        parse_from
          (record { mode = in_text b w; stack = stack; is_object = o; name = n; members = ms })
          rest)
      (sym (append-nil u))
parse_from-plain b u (c ∷ t) rest stack o n ms h =
    let q : (c == b'"') ≡ false = ground arith in
    let e : (c == b'\\') ≡ false = ground arith in
    let l : ltb c 32 ≡ false = ground arith in
    rw
      (q, e, l, parse_from-plain b (u ++ c ∷ []) t rest stack o n ms h.1, append_assoc u (c ∷ []) t)

pub parse_from-digits :
    (u t rest : List ℕ) (stack : List Bool) (o : Bool) (n : List ℕ) (ms : List Member)
    → all_digits t ≡ true
    → parse_from
        (record {
          mode = in_number integer u;
          stack = stack;
          is_object = o;
          name = n;
          members = ms;
        })
        (t ++ rest)
      ≡ parse_from
          (record {
            mode = in_number integer (u ++ t);
            stack = stack;
            is_object = o;
            name = n;
            members = ms;
          })
          rest
unfolding parse_from all_digits
parse_from-digits u [] rest stack o n ms h =
    ap
      (λ (w : List ℕ).
        parse_from
          (record {
            mode = in_number integer w;
            stack = stack;
            is_object = o;
            name = n;
            members = ms;
          })
          rest)
      (sym (append-nil u))
parse_from-digits u (c ∷ t) rest stack o n ms h =
    let d : (leb b'0' c && leb c b'9') ≡ true =
      &&-left (leb b'0' c && leb c b'9') (all_digits t) h in
    rw (
      d,
      parse_from-digits (u ++ c ∷ []) t rest stack o n ms
          (&&-right (leb b'0' c && leb c b'9') (all_digits t) h),
      append_assoc u (c ∷ []) t,
    )

plain_step :
    (u : List ℕ) (c k : ℕ) (x : Bool) (n : List ℕ) (ts : List WireToken) (ns : List NumberMember)
    → IsPlain c
    → scan_in (in_string u false) c (record {
      reading = in_string u false;
      depth = k;
      expect_name = x;
      pending_name = n;
      tokens = ts;
      numbers = ns;
    })
      ≡ record {
        reading = in_string (u ++ c ∷ []) false;
        depth = k;
        expect_name = x;
        pending_name = n;
        tokens = ts;
        numbers = ns;
      }
plain_step u c k x n ts ns h =
    let q : (c == b'"') ≡ false = ground arith in
    let e : (c == b'\\') ≡ false = ground arith in rw (q, e)

pub scan_from-plain :
    (u t rest : List ℕ) (k : ℕ) (x : Bool) (n : List ℕ) (ts : List WireToken)
    (ns : List NumberMember)
    → All IsPlain t
    → scan_from
        (record {
          reading = in_string u false;
          depth = k;
          expect_name = x;
          pending_name = n;
          tokens = ts;
          numbers = ns;
        })
        (t ++ rest)
      ≡ scan_from
          (record {
            reading = in_string (u ++ t) false;
            depth = k;
            expect_name = x;
            pending_name = n;
            tokens = ts;
            numbers = ns;
          })
          rest
unfolding scan_from
scan_from-plain u [] rest k x n ts ns h =
    ap
      (λ (w : List ℕ).
        scan_from
          (record {
            reading = in_string w false;
            depth = k;
            expect_name = x;
            pending_name = n;
            tokens = ts;
            numbers = ns;
          })
          rest)
      (sym (append-nil u))
scan_from-plain u (c ∷ t) rest k x n ts ns h =
    ap (λ (s : Scanner). scan_from s (t ++ rest)) (plain_step u c k x n ts ns h.0)
    ∙ (scan_from-plain (u ++ c ∷ []) t rest k x n ts ns h.1
        ∙ ap
            (λ (w : List ℕ).
              scan_from
                (record {
                  reading = in_string w false;
                  depth = k;
                  expect_name = x;
                  pending_name = n;
                  tokens = ts;
                  numbers = ns;
                })
                rest)
            (append_assoc u (c ∷ []) t))

digit_step :
    (u : List ℕ) (c k : ℕ) (x : Bool) (n : List ℕ) (ts : List WireToken) (ns : List NumberMember)
    → is_decimal_digit c ≡ true
    → scan_in (in_numeral u) c (record {
      reading = in_numeral u;
      depth = k;
      expect_name = x;
      pending_name = n;
      tokens = ts;
      numbers = ns;
    })
      ≡ record {
        reading = in_numeral (u ++ c ∷ []);
        depth = k;
        expect_name = x;
        pending_name = n;
        tokens = ts;
        numbers = ns;
      }
digit_step u c k x n ts ns h =
    let o : (c == b'+'
          || c == b'-'
          || c == b'.'
          || c == b'e'
          || c == b'E'
          || (leb b'0' c && leb c b'9'))
        ≡ true =
      ground arith in
    rw (o)

pub scan_from-digits :
    (u t rest : List ℕ) (k : ℕ) (x : Bool) (n : List ℕ) (ts : List WireToken)
    (ns : List NumberMember)
    → all_digits t ≡ true
    → scan_from
        (record {
          reading = in_numeral u;
          depth = k;
          expect_name = x;
          pending_name = n;
          tokens = ts;
          numbers = ns;
        })
        (t ++ rest)
      ≡ scan_from
          (record {
            reading = in_numeral (u ++ t);
            depth = k;
            expect_name = x;
            pending_name = n;
            tokens = ts;
            numbers = ns;
          })
          rest
unfolding scan_from all_digits
scan_from-digits u [] rest k x n ts ns h =
    ap
      (λ (w : List ℕ).
        scan_from
          (record {
            reading = in_numeral w;
            depth = k;
            expect_name = x;
            pending_name = n;
            tokens = ts;
            numbers = ns;
          })
          rest)
      (sym (append-nil u))
scan_from-digits u (c ∷ t) rest k x n ts ns h =
    ap (λ (s : Scanner). scan_from s (t ++ rest))
      (digit_step u c k x n ts ns (&&-left (is_decimal_digit c) (all_digits t) h))
    ∙ (scan_from-digits (u ++ c ∷ []) t rest k x n ts ns
          (&&-right (is_decimal_digit c) (all_digits t) h)
        ∙ ap
            (λ (w : List ℕ).
              scan_from
                (record {
                  reading = in_numeral w;
                  depth = k;
                  expect_name = x;
                  pending_name = n;
                  tokens = ts;
                  numbers = ns;
                })
                rest)
            (append_assoc u (c ∷ []) t))
