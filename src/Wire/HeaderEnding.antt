-- ===== src/Wire/HeaderEnding.antt =====
-- ContentHeaderFrame.Read of amqp/types.go ends on every input.
use dispatchd.Amqp.Types.{ContentHeaderFrame}
use dispatchd.Wire.{read_octet, read_short, read_longlong, read_shortstr}
use dispatchd.Wire.Masks.{
  content_type_mask, content_encoding_mask, headers_mask, delivery_mode_mask, priority_mask,
  correlation_id_mask, reply_to_mask, expiration_mask, message_id_mask, timestamp_mask, type_mask,
  user_id_mask, app_id_mask, reserved_mask, has_mask,
}
use dispatchd.Wire.FieldReader
use dispatchd.Wire.FieldReader.{Reading, lift, read_table}
use dispatchd.Wire.Fields.Ending.{
  Ends, returns, fails, Ends-lift, Ends-bind, read_be-length, shortstr-length, octet-length,
  read_table-Ends,
}
use dispatchd.Wire.HeaderReader.{
  read_prop, shortstr_reader, octet_reader, longlong_reader, read_props, read_header,
}
use dispatchd.Common.{
  Bool, List, arith, false, length, none, some, true, ℕ, ◌==◌, ◌≤◌, some, nat_eq, str_eq, pair_eq,
}

-- The call ends, and leaves at most `n` bytes.
abbrev EndsIn : {A : Type 0} → ℕ → Reading (A × List ℕ) → Type 0
EndsIn {A} n r = Ends (λ (x : A × List ℕ). length x.1 ≤ n) r

-- A reader that ends and leaves no more than it was given.
abbrev Tame : {A : Type 0} → (List ℕ → Reading (A × List ℕ)) → Type 0
Tame reader = (n : ℕ) (bs : List ℕ) → length bs ≤ n → EndsIn n (reader bs)

shortstr-Tame : Tame shortstr_reader
shortstr-Tame n bs h =
    Ends-lift (read_shortstr bs) λ (s, rest) e. omega (arith, h, shortstr-length bs rest s e)

octet-Tame : Tame octet_reader
octet-Tame n bs h =
    Ends-lift (read_octet bs) λ (v, rest) e. omega (arith, h, octet-length bs rest v e)

longlong-Tame : Tame longlong_reader
unfolding read_longlong
longlong-Tame n bs h =
    Ends-lift (read_longlong bs) λ (v, rest) e. omega (arith, h, read_be-length 8 0 bs rest v e)

short-Tame : Tame (λ bs. lift (read_short bs))
unfolding read_short
short-Tame n bs h =
    Ends-lift (read_short bs) λ (v, rest) e. omega (arith, h, read_be-length 2 0 bs rest v e)

weaken : {A : Type 0} (n m : ℕ) {r : Reading (A × List ℕ)} → n ≤ m → EndsIn n r → EndsIn m r
weaken n m h (returns p) = returns (omega (arith, h, p))
weaken n m h fails = fails

table-Tame : (strict : Bool) → Tame (read_table strict)
table-Tame strict n bs h = weaken (length bs) n h (read_table-Ends strict bs)

-- The two cases of a property, by its bit.
prop_cases :
    {A : Type 0} (bit : Bool) {reader : List ℕ → Reading (A × List ℕ)}
    → Tame reader
    → Tame (λ bs. elim bit [
      | true ↦ FieldReader.◌>>=◌ (reader bs) λ (v, rest). FieldReader.ok (some v, rest)
      | false ↦ FieldReader.ok (none, bs)
    ])
prop_cases true tame n bs h = Ends-bind (tame n bs h) λ (v, rest) p. returns p
prop_cases false tame n bs h = returns h

prop-Tame :
    {A : Type 0} (flags mask : ℕ) {reader : List ℕ → Reading (A × List ℕ)}
    → Tame reader
    → Tame (read_prop flags mask reader)
unfolding read_prop
prop-Tame flags mask tame = prop_cases (has_mask flags mask) tame

props-Tame : (flags : ℕ) (strict : Bool) → Tame (read_props flags strict)
unfolding read_props
props-Tame flags strict n bs h =
    Ends-bind (prop-Tame flags content_type_mask shortstr-Tame n _ h) λ x1 p1.
      Ends-bind (prop-Tame flags content_encoding_mask shortstr-Tame n _ p1) λ x2 p2.
        Ends-bind (prop-Tame flags headers_mask (table-Tame strict) n _ p2) λ x3 p3.
          Ends-bind (prop-Tame flags delivery_mode_mask octet-Tame n _ p3) λ x4 p4.
            Ends-bind (prop-Tame flags priority_mask octet-Tame n _ p4) λ x5 p5.
              Ends-bind (prop-Tame flags correlation_id_mask shortstr-Tame n _ p5) λ x6 p6.
                Ends-bind (prop-Tame flags reply_to_mask shortstr-Tame n _ p6) λ x7 p7.
                  Ends-bind (prop-Tame flags expiration_mask shortstr-Tame n _ p7) λ x8 p8.
                    Ends-bind (prop-Tame flags message_id_mask shortstr-Tame n _ p8) λ x9 p9.
                      Ends-bind (prop-Tame flags timestamp_mask longlong-Tame n _ p9) λ x10 p10.
                        Ends-bind (prop-Tame flags type_mask shortstr-Tame n _ p10) λ x11 p11.
                          Ends-bind (prop-Tame flags user_id_mask shortstr-Tame n _ p11) λ x12 p12.
                            Ends-bind (prop-Tame flags app_id_mask shortstr-Tame n _ p12) λ x13 p13.
                              Ends-bind (prop-Tame flags reserved_mask shortstr-Tame n _ p13)
                                λ x14 p14. returns p14

if_light :
    {A : Type 0} (b : Bool) (n : ℕ) (r : Reading (A × List ℕ))
    → EndsIn n r
    → EndsIn n (elim b [ false ↦ FieldReader.failed | true ↦ r ])
if_light true n r h = h
if_light false n r h = fails

-- Reading a header ends on every input, in either mode: the fuel that ReadTable is given, a unit for
-- each byte and one more, is enough however the input nests its arrays and tables. What it leaves of
-- the input is no longer than the input.
pub read_header-Ends :
    (strict : Bool) (bs : List ℕ)
    → Ends
        (λ ((h, rest) : ContentHeaderFrame × List ℕ). length rest ≤ length bs)
        (read_header strict bs)
unfolding read_header
read_header-Ends strict bs =
    let n = length bs in
    Ends-bind (short-Tame n bs (omega arith)) λ x1 p1. Ends-bind (short-Tame n _ p1) λ x2 p2.
      if_light (x2.0 == 0) n _ (
        Ends-bind (longlong-Tame n _ p2) λ x3 p3.
          Ends-bind (short-Tame n _ p3)
            λ x4 p4. Ends-bind (props-Tame x4.0 strict n _ p4) λ x5 p5. returns p5)
