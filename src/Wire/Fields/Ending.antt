-- ===== src/Wire/Fields/Ending.antt =====
-- ReadTable ends.
use dispatchd.Amqp.Table.{FieldValue, Values, Table, null, decimal}
use dispatchd.Wire.{
  read_octet, read_short, read_long, read_longlong, read_shortstr, read_longstr, read_slice,
  read_be,
}
use dispatchd.Wire.FieldReader
use dispatchd.Wire.FieldReader.{
  Reading, Reader, Kind, ok, failed, out_of_fuel, read_value, read_array, read_values,
  read_table_with, read_pairs, read_table, lift, kind_of, cases_of, first_case, is_seen, scalar,
  an_array, a_table, unknown, as_value, read_boolean, read_scaled,
}
use dispatchd.Common.{
  Bool, GoString, List, Option, Option-cases, [], arith, false, if◌then◌else◌, inl, inr, length,
  none, refl, some, suc, true, zero, ℕ, ◌*◌, ◌+◌, ◌<◌, ◌∷◌, ◌≡◌, ◌≢◌, ◌≤◌,
}

-- The call ends, and what it returns, if anything, has the property.
pub data Ends {ℓ κ} {A : Type ℓ} (P : A → Type κ) : Reading A → Type (ℓ ⊔ κ) where
  returns : {a : A} → P a → Ends P (ok a)
  fails : Ends P failed

module _ {ℓ κ} {A : Type ℓ} {P : A → Type κ} where
  pub Ends-lift : (o : Option A) → ((a : A) → o ≡ some a → P a) → Ends P (lift o)
  Ends-lift none h = fails
  Ends-lift (some a) h = returns (h a refl)

  pub Ends-bind {ℓ' κ'} :
      {B : Type ℓ'} {Q : B → Type κ'} {r : Reading A} {f : A → Reading B}
      → Ends P r
      → ((a : A) → P a → Ends Q (f a))
      → Ends Q (FieldReader.◌>>=◌ r f)
  Ends-bind (returns {a} h) k = k a h
  Ends-bind fails k = fails

  pub Ends-ne : {r : Reading A} → Ends P r → r ≢ out_of_fuel
  Ends-ne (returns h) = cc
  Ends-ne fails = cc

-- A reader leaves no more than it was given.
abbrev Shrinks : {A : Type 0} → Reader A → Type 0
Shrinks {A} reader =
    (bs rest : List ℕ) (a : A) → reader bs ≡ some (a, rest) → length rest ≤ length bs

pub read_be-length :
    (n acc : ℕ) (bs rest : List ℕ) (v : ℕ)
    → read_be n acc bs ≡ some (v, rest)
    → length bs ≡ n + length rest
unfolding read_be
read_be-length zero acc bs rest v e = ground arith
read_be-length (suc n) acc [] rest v e = absurd (cc)
read_be-length (suc n) acc (b ∷ bs) rest v e =
    omega (arith, read_be-length n (acc * 256 + b) bs rest v e)

read_slice-length :
    (n : ℕ) (bs rest s : List ℕ)
    → read_slice n bs ≡ some (s, rest)
    → length bs ≡ length s + length rest
unfolding read_slice
read_slice-length zero bs rest s e = ground arith
read_slice-length (suc n) [] rest s e = absurd (cc)
read_slice-length (suc n) (b ∷ bs) rest s e = elim (Option-cases (read_slice n bs)) [
  | inl fault ↦ absurd (ground (arith, fault))
  | inr ((s', rest'), e') ↦ ground (arith, e', read_slice-length n bs rest' s' e')
]

pub octet-length :
    (bs rest : List ℕ) (v : ℕ) → read_octet bs ≡ some (v, rest) → length bs ≡ 1 + length rest
unfolding read_octet
octet-length bs rest v e = read_be-length 1 0 bs rest v e

longstr-length :
    (bs rest s : List ℕ)
    → read_longstr bs ≡ some (s, rest)
    → length bs ≡ 4 + (length s + length rest)
unfolding read_longstr read_long
longstr-length bs rest s e = elim (Option-cases (read_be 4 0 bs)) [
  | inl fault ↦ absurd (ground (arith, fault))
  | inr ((n, mid), e') ↦
      ground (arith, e', read_be-length 4 0 bs mid n e', read_slice-length n mid rest s)
]

pub shortstr-length :
    (bs rest s : List ℕ)
    → read_shortstr bs ≡ some (s, rest)
    → length bs ≡ 1 + (length s + length rest)
unfolding read_shortstr read_octet
shortstr-length bs rest s e = elim (Option-cases (read_be 1 0 bs)) [
  | inl fault ↦ absurd (ground (arith, fault))
  | inr ((n, mid), e') ↦
      ground (arith, e', read_be-length 1 0 bs mid n e', read_slice-length n mid rest s)
]

-- What a kind of value reads.
data IsFine : Kind → Type 0 where
  reads : {reader : Reader FieldValue} → Shrinks reader → IsFine (scalar reader)
  reads_array : IsFine an_array
  reads_table : IsFine a_table
  reads_none : IsFine unknown

infixr 5 ◌also◌
data AreFine : List (Bool × Kind) → Type 0 where
  no_more : AreFine []
  ◌also◌ :
      {holds : Bool} {k : Kind} {cases : List (Bool × Kind)}
      → IsFine k
      → AreFine cases
      → AreFine ((holds, k) ∷ cases)

either : (holds : Bool) {x y : Kind} → IsFine x → IsFine y → IsFine (if holds then x else y)
either true hx hy = hx
either false hx hy = hy

first_case-IsFine : (cases : List (Bool × Kind)) → AreFine cases → IsFine (first_case cases)
unfolding first_case
first_case-IsFine [] no_more = reads_none
first_case-IsFine ((holds, k) ∷ cases) (h also hs) = either holds h (first_case-IsFine cases hs)

as_value-Shrinks :
    {A : Type 0} (make : A → FieldValue) (reader : Reader A)
    → Shrinks reader
    → Shrinks (λ bs. as_value make (reader bs))
as_value-Shrinks make reader h bs rest v e = elim (Option-cases (reader bs)) [
  | inl fault ↦ absurd (ground (arith, fault))
  | inr ((a, rest'), e') ↦ ground (arith, e', h bs rest' a e')
]

integer-Shrinks : (n : ℕ) (make : ℕ → FieldValue) → Shrinks (λ bs. as_value make (read_be n 0 bs))
integer-Shrinks n make =
    as_value-Shrinks make (read_be n 0) λ bs rest v e. omega (arith, read_be-length n 0 bs rest v e)

longstr-Shrinks : (make : List ℕ → FieldValue) → Shrinks (λ bs. as_value make (read_longstr bs))
longstr-Shrinks make =
    as_value-Shrinks make read_longstr λ bs rest s e. omega (arith, longstr-length bs rest s e)

shortstr-Shrinks : (make : List ℕ → FieldValue) → Shrinks (λ bs. as_value make (read_shortstr bs))
shortstr-Shrinks make =
    as_value-Shrinks make read_shortstr λ bs rest s e. omega (arith, shortstr-length bs rest s e)

long-Shrinks : (make : ℕ → FieldValue) → Shrinks (λ bs. as_value make (read_long bs))
unfolding read_long
long-Shrinks make = integer-Shrinks 4 make

decimal-Shrinks : Shrinks (λ bs. read_scaled (read_octet bs))
decimal-Shrinks bs rest v e = elim (Option-cases (read_octet bs)) [
  | inl fault ↦ absurd (ground (arith, fault))
  | inr ((scale, mid), e') ↦
      ground (arith, e', octet-length bs mid scale e', long-Shrinks (decimal scale) mid rest v)
]

void-Shrinks : Shrinks {A = FieldValue} (λ bs. some (null, bs))
void-Shrinks bs rest v e = ground (arith, e)

cases_of-AreFine : (t : ℕ) (strict : Bool) → AreFine (cases_of t strict)
unfolding read_octet read_short read_long read_longlong
cases_of-AreFine t strict =
    reads (integer-Shrinks 1 _)
    also reads (integer-Shrinks 1 _)
    also reads (integer-Shrinks 1 _)
    also reads (integer-Shrinks 2 _)
    also reads (integer-Shrinks 2 _)
    also reads (integer-Shrinks 4 _)
    also reads (integer-Shrinks 4 _)
    also reads (integer-Shrinks 8 _)
    also reads (integer-Shrinks 8 _)
    also reads (integer-Shrinks 4 _)
    also reads (integer-Shrinks 8 _)
    also reads (decimal-Shrinks)
    also reads (shortstr-Shrinks _)
    also reads (longstr-Shrinks _)
    also reads_array
    also reads (integer-Shrinks 8 _)
    also reads_table
    also reads (void-Shrinks)
    also reads (longstr-Shrinks _)
    also no_more

kind_of-IsFine : (t : ℕ) (strict : Bool) → IsFine (kind_of t strict)
unfolding kind_of
kind_of-IsFine t strict = first_case-IsFine (cases_of t strict) (cases_of-AreFine t strict)

-- What is left is no longer than a bound.
abbrev Leaves {ℓ} : {A : Type ℓ} → ℕ → A × List ℕ → Type 0
Leaves n (a, rest) = length rest ≤ n

by_kind :
    (k : Kind) (rest : List ℕ) (a t : Reading (FieldValue × List ℕ))
    → IsFine k
    → Ends (Leaves (length rest)) a
    → Ends (Leaves (length rest)) t
    → Ends (Leaves (length rest)) (elim k [
      | scalar reader ↦ lift (reader rest)
      | an_array ↦ a
      | a_table ↦ t
      | unknown ↦ failed
    ])
by_kind (scalar reader) rest a t (reads h) ha ht =
    Ends-lift (reader rest) λ (v, after) e. h rest after v e
by_kind an_array rest a t h ha ht = ha
by_kind a_table rest a t h ha ht = ht
by_kind unknown rest a t h ha ht = fails

weaken {ℓ} :
    {A : Type 0} {P Q : A → Type ℓ} {r : Reading A} → Ends P r → ((a : A) → P a → Q a) → Ends Q r
weaken (returns {a} h) k = returns (k a h)
weaken fails k = fails

unless_seen :
    {A : Type 0} {P : A → Type 0} (b : Bool) {r : Reading A}
    → Ends P r
    → Ends P (elim b [ true ↦ failed | false ↦ r ])
unless_seen true h = fails
unless_seen false h = h

mutual
  unfolding read_value

  value-Ends :
      (f : ℕ) (strict : Bool) (bs : List ℕ)
      → length bs < f
      → Ends (λ ((v, rest) : FieldValue × List ℕ). length rest < length bs) (read_value f strict bs)
  value-Ends zero strict bs h = absurd (omega arith)
  value-Ends (suc f) strict bs h =
      Ends-bind (Ends-lift (read_octet bs) λ (t, rest) e. octet-length bs rest t e) λ (t, rest) p.
        weaken
          (by_kind (kind_of t strict) rest _ _ (kind_of-IsFine t strict)
            (Ends-bind (array-Ends f strict rest (omega arith)) λ (vs, after) q. returns q)
            (Ends-bind (table-Ends f strict rest (omega arith)) λ (ps, after) q. returns q))
          (λ (v, after) q. omega arith)

  array-Ends :
      (f : ℕ) (strict : Bool) (bs : List ℕ)
      → length bs < f
      → Ends (λ ((vs, rest) : Values × List ℕ). length rest ≤ length bs) (read_array f strict bs)
  array-Ends zero strict bs h = absurd (omega arith)
  array-Ends (suc f) strict bs h =
      Ends-bind (Ends-lift (read_longstr bs) λ (s, rest) e. longstr-length bs rest s e)
        λ (s, rest) p.
          Ends-bind (values-Ends f strict s (omega arith)) λ vs q. returns (omega arith)

  values-Ends :
      (f : ℕ) (strict : Bool) (bs : List ℕ)
      → length bs + 1 < f
      → Ends (λ (vs : Values). Unit {0}) (read_values f strict bs)
  values-Ends zero strict bs h = absurd (omega arith)
  values-Ends (suc f) strict [] h = returns tt
  values-Ends (suc f) strict (b ∷ bs) h =
      Ends-bind (value-Ends f strict (b ∷ bs) (omega arith))
        λ (v, rest) p. Ends-bind (values-Ends f strict rest (omega arith)) λ vs q. returns tt

  table-Ends :
      (f : ℕ) (strict : Bool) (bs : List ℕ)
      → length bs < f
      → Ends
          (λ ((ps, rest) : Table × List ℕ). length rest ≤ length bs)
          (read_table_with f strict bs)
  table-Ends zero strict bs h = absurd (omega arith)
  table-Ends (suc f) strict bs h =
      Ends-bind (Ends-lift (read_longstr bs) λ (s, rest) e. longstr-length bs rest s e)
        λ (s, rest) p.
          Ends-bind (pairs-Ends f strict [] s (omega arith)) λ ps q. returns (omega arith)

  pairs-Ends :
      (f : ℕ) (strict : Bool) (seen : List GoString) (bs : List ℕ)
      → length bs + 1 < f
      → Ends (λ (ps : Table). Unit {0}) (read_pairs f strict seen bs)
  pairs-Ends zero strict seen bs h = absurd (omega arith)
  pairs-Ends (suc f) strict seen [] h = returns tt
  pairs-Ends (suc f) strict seen (b ∷ bs) h =
      Ends-bind
        (Ends-lift (read_shortstr (b ∷ bs)) λ (s, rest) e. shortstr-length (b ∷ bs) rest s e)
        λ (key, rest) p. unless_seen (is_seen key seen) (
          Ends-bind (value-Ends f strict rest (omega arith)) λ (v, rest') q.
            Ends-bind (pairs-Ends f strict (key ∷ seen) rest' (omega arith)) λ ps u. returns tt)

-- ReadTable ends on every input, in either mode: the fuel of a unit for each byte and one more is
-- enough however the input nests its arrays and tables. What it leaves of the input is no longer than
-- the input.
pub read_table-Ends :
    (strict : Bool) (bs : List ℕ)
    → Ends (λ ((ps, rest) : Table × List ℕ). length rest ≤ length bs) (read_table strict bs)
unfolding read_table
read_table-Ends strict bs = table-Ends (length bs + 1) strict bs (omega arith)
