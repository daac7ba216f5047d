-- ===== src/Binding/Routes.antt =====
-- What a topic binding matches, said by parts and not by the expression that is compiled.
use mathlib.Core.List.{append-nil}
use dispatchd.Binding.Topic.{
  Piece, literal, one_word, any_text, dot, compile_part, compile_parts, match_pieces,
}
use dispatchd.Common.{
  All, Bool-cases, GoString, List, [], ap, arith, bytes, if◌then◌else◌, inl, inr, map, refl, true,
  ◌++◌, ◌==◌, ◌∙◌, ◌∷◌, ◌≡◌, ◌≢◌, nat_eq, str_eq, pair_eq,
}

-- What one part of a key matches: * a word that is not empty, # any text on one line, and any other
-- part itself.
abbrev pub PartMatches : GoString → GoString → Type 0
PartMatches w v =
    if w == bytes "*"
    then (v ≢ []) × All (λ c. c ≢ dot) v
    else if w == bytes "#"
    then All (λ c. c ≢ 10) v
    else v ≡ w

-- A routing key falls into one piece for each part, with a dot between two.
abbrev pub Routes : List GoString → GoString → Type 0
Routes [] s = s ≡ []
Routes (w ∷ []) s = PartMatches w s
Routes (w ∷ x ∷ ws) s =
    (v : GoString) × (r : GoString) × (s ≡ v ++ (dot ∷ r)) × PartMatches w v × Routes (x ∷ ws) r

-- A text that the first pieces match, and a rest for the others.
abbrev Splits : GoString → List Piece → GoString → Type 0
Splits w qs s =
    (v : GoString) × (r : GoString) × (s ≡ v ++ r) × PartMatches w v × (match_pieces qs r ≡ true)

literals_sound :
    (w : GoString) (qs : List Piece) (s : GoString)
    → match_pieces (map literal w ++ qs) s ≡ true
    → (r : GoString) × (s ≡ w ++ r) × (match_pieces qs r ≡ true)
unfolding match_pieces
literals_sound [] qs s h = (s, refl, h)
literals_sound (b ∷ w) qs [] h = absurd (ground arith)
literals_sound (b ∷ w) qs (c ∷ s) h =
    let (r, e, m) = literals_sound w qs s (ground arith) in (r, ground arith, m)

literals_complete :
    (w : GoString) (qs : List Piece) (r : GoString)
    → match_pieces qs r ≡ true
    → match_pieces (map literal w ++ qs) (w ++ r) ≡ true
unfolding match_pieces
literals_complete [] qs r h = h
literals_complete (b ∷ w) qs r h = ground (arith, literals_complete w qs r)

one_word_sound :
    (qs : List Piece) (s : GoString)
    → match_pieces (one_word ∷ qs) s ≡ true
    → (v : GoString) × (r : GoString) × (s ≡ v ++ r)
      × ((v ≢ []) × All (λ c. c ≢ dot) v)
      × (match_pieces qs r ≡ true)
unfolding match_pieces
one_word_sound qs [] h = absurd (ground arith)
one_word_sound qs (c ∷ s) h = elim (Bool-cases (match_pieces qs s)) [
  | inl m ↦ (c ∷ [], s, refl, (λ e. cc, (ground arith, tt)), m)
  | inr n ↦
      let (v, r, e, p, m) = one_word_sound qs s (ground arith) in
      (c ∷ v, r, ap (◌∷◌ c) e, (λ e. cc, (ground arith, p.1)), m)
]

one_word_complete :
    (qs : List Piece) (v r : GoString)
    → v ≢ []
    → All (λ c. c ≢ dot) v
    → match_pieces qs r ≡ true
    → match_pieces (one_word ∷ qs) (v ++ r) ≡ true
unfolding match_pieces
one_word_complete qs [] r n p h = absurd (n refl)
one_word_complete qs (c ∷ []) r n p h = ground arith
one_word_complete qs (c ∷ d ∷ v) r n p h =
    ground (arith, one_word_complete qs (d ∷ v) r (λ e. cc) p.1 h)

any_text_sound :
    (qs : List Piece) (s : GoString)
    → match_pieces (any_text ∷ qs) s ≡ true
    → (v : GoString) × (r : GoString) × (s ≡ v ++ r)
      × All (λ c. c ≢ 10) v
      × (match_pieces qs r ≡ true)
unfolding match_pieces
any_text_sound qs [] h = ([], [], refl, tt, h)
any_text_sound qs (c ∷ s) h = elim (Bool-cases (match_pieces qs (c ∷ s))) [
  | inl m ↦ ([], c ∷ s, refl, tt, m)
  | inr n ↦
      let (v, r, e, p, m) = any_text_sound qs s (ground arith) in
      (c ∷ v, r, ap (◌∷◌ c) e, (ground arith, p), m)
]

any_text_complete :
    (qs : List Piece) (v r : GoString)
    → All (λ c. c ≢ 10) v
    → match_pieces qs r ≡ true
    → match_pieces (any_text ∷ qs) (v ++ r) ≡ true
unfolding match_pieces
any_text_complete qs [] [] p h = h
any_text_complete qs [] (c ∷ r) p h = ground arith
any_text_complete qs (c ∷ v) r p h = ground (arith, any_text_complete qs v r p.1 h)

part_sound :
    (w : GoString) (qs : List Piece) (s : GoString)
    → match_pieces (compile_part w ++ qs) s ≡ true
    → Splits w qs s
unfolding compile_part
part_sound w qs s h = elim (Bool-cases (w == bytes "*")) [
  | inl star ↦ rw star (one_word_sound qs s (rw star at h))
  | inr a ↦ elim (Bool-cases (w == bytes "#")) [
    | inl hash ↦ rw (a, hash) (any_text_sound qs s (rw (a, hash) at h))
    | inr b ↦ let (r, e, m) = literals_sound w qs s (rw (a, b) at h) in rw (a, b) (w, r, e, refl, m)
  ]
]

part_complete :
    (w : GoString) (qs : List Piece) (v r : GoString)
    → PartMatches w v
    → match_pieces qs r ≡ true
    → match_pieces (compile_part w ++ qs) (v ++ r) ≡ true
unfolding compile_part
part_complete w qs v r p m = elim (Bool-cases (w == bytes "*")) [
  | inl star ↦ let q = rw star at p in rw star (one_word_complete qs v r q.0 q.1 m)
  | inr a ↦ elim (Bool-cases (w == bytes "#")) [
    | inl hash ↦ rw (a, hash) (any_text_complete qs v r (rw (a, hash) at p) m)
    | inr b ↦ let e : v ≡ w = rw (a, b) at p in rw (a, b, e) (literals_complete w qs r m)
  ]
]

rest_empty : (s : GoString) → match_pieces [] s ≡ true → s ≡ []
unfolding match_pieces
rest_empty [] h = refl
rest_empty (c ∷ s) h = absurd (ground arith)

after_dot :
    (qs : List Piece) (s : GoString)
    → match_pieces (literal dot ∷ qs) s ≡ true
    → (r : GoString) × (s ≡ dot ∷ r) × (match_pieces qs r ≡ true)
unfolding match_pieces
after_dot qs [] h = absurd (ground arith)
after_dot qs (c ∷ s) h = (s, ground arith, ground arith)

dot_first :
    (qs : List Piece) (r : GoString)
    → match_pieces qs r ≡ true
    → match_pieces (literal dot ∷ qs) (dot ∷ r) ≡ true
unfolding match_pieces
dot_first qs r h = ground arith

pub match_sound :
    (parts : List GoString) (s : GoString)
    → match_pieces (compile_parts parts) s ≡ true
    → Routes parts s
unfolding compile_parts
match_sound [] s h = rest_empty s h
match_sound (w ∷ []) s h =
    let (v, r, e, p, m) = part_sound w [] s (rw append-nil h) in
    rw (e, rest_empty r m, append-nil) p
match_sound (w ∷ x ∷ ws) s h =
    let (v, t, e, p, m) = part_sound w (literal dot ∷ compile_parts (x ∷ ws)) s h in
    let (r, d, n) = after_dot (compile_parts (x ∷ ws)) t m in
    (v, r, e ∙ ap (◌++◌ v) d, p, match_sound (x ∷ ws) r n)

pub match_complete :
    (parts : List GoString) (s : GoString)
    → Routes parts s
    → match_pieces (compile_parts parts) s ≡ true
unfolding compile_parts match_pieces
match_complete [] s h = rw h
match_complete (w ∷ []) s h =
    let m = part_complete w [] s [] h refl in
    let e : match_pieces (compile_part w ++ []) (s ++ []) ≡ true = m in
    rw append-nil at (rw append-nil at e)
match_complete (w ∷ x ∷ ws) s (v, r, e, p, t) = rw e (
    part_complete w (literal dot ∷ compile_parts (x ∷ ws)) v (dot ∷ r) p
      (dot_first (compile_parts (x ∷ ws)) r (match_complete (x ∷ ws) r t)))
