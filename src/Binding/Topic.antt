-- ===== src/Binding/Topic.antt =====
-- binding/binding.go, NewBinding: the check of a topic key, and the regular expression that is built
-- from it, with the part of package regexp that such an expression uses.
use dispatchd.Common.{
  Bool, GoString, List, [], bytes, false, if◌then◌else◌, leb, map, not, true, ℕ, ◌&&◌, ◌++◌, ◌==◌,
  ◌||◌, ◌∷◌, nat_eq, str_eq, pair_eq,
}

abbrev pub dot : ℕ
dot = b'.'

-- \w
unfoldable pub is_word_char : ℕ → Bool
is_word_char c =
    (leb b'0' c && leb c b'9')
    || (leb b'A' c && leb c b'Z')
    || c == b'_'
    || (leb b'a' c && leb c b'z')

unfoldable pub all_word_chars : GoString → Bool
unfolding is_word_char
all_word_chars [] = true
all_word_chars (c ∷ s) = is_word_char c && all_word_chars s

-- (\w+|\*|#)
unfoldable pub valid_part : GoString → Bool
unfolding all_word_chars
valid_part w = (not (w == []) && all_word_chars w) || w == bytes "*" || w == bytes "#"

unfoldable pub cons_head : ℕ → List GoString → List GoString
cons_head c [] = (c ∷ []) ∷ []
cons_head c (w ∷ ws) = (c ∷ w) ∷ ws

-- strings.Split(key, ".")
unfoldable pub split : GoString → List GoString
unfolding cons_head
split [] = [] ∷ []
split (c ∷ s) = let rest = split s in if c == dot then [] ∷ rest else cons_head c rest

all_valid : List GoString → Bool
unfolding valid_part
all_valid [] = true
all_valid (w ∷ ws) = valid_part w && all_valid ws

-- ^((\w+|\*|#)(\.(\w+|\*|#))*|)$. No part holds a dot, so the parts are what `split` gives.
unfoldable pub valid_key : GoString → Bool
unfolding split all_valid
valid_key key = all_valid (split key) || key == []

-- What the compiled expression is made of: a literal byte, [^\.]+ and .*
pub data Piece : Type 0 where
  literal : ℕ → Piece
  one_word any_text : Piece

unfoldable pub compile_part : GoString → List Piece
compile_part w =
    if w == bytes "*"
    then one_word ∷ []
    else if w == bytes "#"
    then any_text ∷ []
    else map literal w

-- strings.Join(parts, `\.`)
unfoldable pub compile_parts : List GoString → List Piece
unfolding compile_part
compile_parts [] = []
compile_parts (w ∷ []) = compile_part w
compile_parts (w ∷ v ∷ ws) = compile_part w ++ (literal dot ∷ compile_parts (v ∷ ws))

unfoldable pub compile_key : GoString → List Piece
unfolding split compile_parts
compile_key key = compile_parts (split key)

-- MatchString of ^pieces$. The dot of `.*` is any byte but a line feed.
unfoldable pub match_pieces : List Piece → GoString → Bool
match_pieces [] [] = true
match_pieces [] (c ∷ s) = false
match_pieces (literal b ∷ ps) [] = false
match_pieces (literal b ∷ ps) (c ∷ s) = b == c && match_pieces ps s
match_pieces (one_word ∷ ps) [] = false
match_pieces (one_word ∷ ps) (c ∷ s) =
    not (c == dot) && (match_pieces ps s || match_pieces (one_word ∷ ps) s)
match_pieces (any_text ∷ ps) [] = match_pieces ps []
match_pieces (any_text ∷ ps) (c ∷ s) =
    match_pieces ps (c ∷ s) || (not (c == 10) && match_pieces (any_text ∷ ps) s)
