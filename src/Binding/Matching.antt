-- ===== src/Binding/Matching.antt =====
-- Which messages a topic binding that NewBinding made matches.
use dispatchd.Amqp.Table.{Table}
use dispatchd.Amqp.Types.{BasicPublish}
use dispatchd.Binding.{Binding, binding_of, new_binding, match_topic}
use dispatchd.Binding.Made.{binding_of-new_binding}
use dispatchd.Binding.Topic.{dot, cons_head, split, compile_key}
use dispatchd.Binding.Routes.{Routes, match_sound, match_complete}
use dispatchd.Common.{
  GoString, List, [], arith, done, if◌then◌else◌, length, refl, some, str_beq_iff, true, ℕ, ◌++◌,
  ◌+◌, ◌<◌, ◌==◌, ◌↔◌, ◌∷◌, ◌≡◌, ◌≤◌, nat_eq, str_eq, pair_eq,
}

unfoldable pub count_dots : GoString → ℕ
count_dots [] = 0
count_dots (c ∷ s) = (if c == dot then 1 else 0) + count_dots s

count_dots-append : (s t : GoString) → count_dots (s ++ t) ≡ count_dots s + count_dots t
unfolding count_dots
count_dots-append [] t = omega arith
count_dots-append (c ∷ s) t = omega (arith, count_dots-append s t)

Routes-count_dots :
    (parts : List GoString) (s : GoString) → Routes parts s → length parts ≤ count_dots s + 1
unfolding count_dots
Routes-count_dots [] s h = omega arith
Routes-count_dots (w ∷ []) s h = omega arith
Routes-count_dots (w ∷ x ∷ ws) s (v, r, e, p, t) =
    rw e (omega (arith, count_dots-append v (dot ∷ r), Routes-count_dots (x ∷ ws) r t))

length-cons_head :
    (c : ℕ) (ws : List GoString) → 0 < length ws → length (cons_head c ws) ≡ length ws
unfolding cons_head
length-cons_head c [] h = absurd (omega arith)
length-cons_head c (w ∷ ws) h = refl

length-split : (key : GoString) → length (split key) ≡ count_dots key + 1
unfolding split count_dots
length-split [] = omega arith
length-split (c ∷ s) = ground (arith, length-split s, length-cons_head c (split s))

module _ (queue exchange key : GoString) (arguments : Table) {b : Binding}
    (made : new_binding queue exchange key arguments true ≡ done (some b)) where
  fields : binding_of queue exchange key arguments true ≡ some b
  fields = binding_of-new_binding queue exchange key arguments true b made

  pub match_topic-Routes :
      (m : BasicPublish)
      → (match_topic b m ≡ done true) ↔ ((exchange ≡ m.exchange) × Routes (split key) m.routing_key)
  unfolding match_topic binding_of compile_key
  match_topic-Routes m = (
    λ h. (
      ground (arith, fields, str_beq_iff exchange m.exchange),
      match_sound (split key) m.routing_key
          (ground (arith, fields, str_beq_iff exchange m.exchange)),
    ),
    λ h. ground (
      arith,
      fields,
      str_beq_iff exchange m.exchange,
      match_complete (split key) m.routing_key h.1,
    ),
  )

  -- What a topic binding matches has at least as many dots as the binding key: no part, # included,
  -- stands for zero words together with its dot.
  pub match_topic-count_dots :
      (m : BasicPublish) → match_topic b m ≡ done true → count_dots key ≤ count_dots m.routing_key
  match_topic-count_dots m h = omega (
    arith,
    length-split key,
    Routes-count_dots (split key) m.routing_key ((match_topic-Routes m).0 h).1,
  )
