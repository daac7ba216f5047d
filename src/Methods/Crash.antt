-- ===== src/Methods/Crash.antt =====
-- The bindings of server/queueMethods.go that make the server panic.
use dispatchd.Amqp.Table.{Table}
use dispatchd.Binding.{Binding, binding_of, new_binding}
use dispatchd.Binding.Id.{calc_id, write_queue_bind}
use dispatchd.Binding.Topic.{valid_key}
use dispatchd.Exchange.{Exchange, is_topic}
use dispatchd.Queue.{Queue}
use dispatchd.Wire.{write_shortstr}
use dispatchd.Wire.FieldWriter.{write_table}
use dispatchd.Wire.Fields.RoundTrip.{write_shortstr_fits}
use dispatchd.Methods.{Session, queue_name}
use dispatchd.Methods.Queues.{QueueBind, is_locked, queue_bind, bind_found}
use dispatchd.Common.{
  Bool, Bool-cases, GoString, List, Option-cases, Outcome-cases, arith, false, find, inl, inr,
  length, ltb, none, not, panic, refl, some, true, ℕ, ◌<◌, ◌^◌, ◌||◌, ◌↔◌, ◌≡◌, ◌⊎◌, nat_eq, str_eq,
  pair_eq,
}

abbrev IsShort : GoString → Type 0
IsShort s = length s < 2 ^ 8

shortstr-IsShort :
    (s : GoString)
    → ((bs : List ℕ) × IsShort s × (write_shortstr s ≡ some bs))
      ⊎ (¬ IsShort s × (write_shortstr s ≡ none))
unfolding write_shortstr
shortstr-IsShort s = elim (Bool-cases (ltb 255 (length s))) [
  | inl long ↦ inr (λ h. absurd (ground (arith, h, long)), rw long refl)
  | inr short ↦ let h : IsShort s = ground (arith, short) in inl (_, h, write_shortstr_fits s h)
]

-- The strings fit, and the arguments cannot be encoded.
abbrev pub IsDeadlyCall : GoString → GoString → GoString → Table → Type 0
IsDeadlyCall q e k a = IsShort q × IsShort e × IsShort k × (write_table a ≡ panic)

calc_id_panics : (q e k : GoString) (a : Table) → (calc_id q e k a ≡ panic) ↔ IsDeadlyCall q e k a
unfolding calc_id write_queue_bind
calc_id_panics q e k a = elim (shortstr-IsShort q) [
  | inr (long, f) ↦ (λ h. absurd (ground (arith, f, h)), λ h. absurd (long h.0))
  | inl (qs, qh, f) ↦ elim (shortstr-IsShort e) [
    | inr (long, g) ↦ (λ h. absurd (ground (arith, f, g, h)), λ h. absurd (long h.1))
    | inl (es, eh, g) ↦ elim (shortstr-IsShort k) [
      | inr (long, l) ↦ (λ h. absurd (ground (arith, f, g, l, h)), λ h. absurd (long h.2))
      | inl (ks, kh, l) ↦ elim (Outcome-cases (write_table a)) [
        | inr crash ↦ (λ h. (qh, eh, kh, crash), λ h. rw (f, g, l, crash) refl)
        | inl (none, w) ↦
            (λ h. absurd (ground (arith, f, g, l, w, h)), λ h. absurd (ground (arith, w, h.3)))
        | inl (some bs, w) ↦
            (λ h. absurd (ground (arith, f, g, l, w, h)), λ h. absurd (ground (arith, w, h.3)))
      ]
    ]
  ]
]

-- The key is one that NewBinding takes.
unfoldable pub is_taken : Bool → GoString → Bool
is_taken topic key = not topic || valid_key key

binding_of-is_taken :
    (q e k : GoString) (a : Table) (t : Bool)
    → ((b : Binding) × (is_taken t k ≡ true) × (binding_of q e k a t ≡ some b))
      ⊎ ((is_taken t k ≡ false) × (binding_of q e k a t ≡ none))
unfolding binding_of is_taken
binding_of-is_taken q e k a t = elim (Option-cases (binding_of q e k a t)) [
  | inl bad ↦ inr (ground (arith, bad), bad)
  | inr (b, made) ↦ inl (b, ground (arith, made), made)
]

new_binding_panics :
    (q e k : GoString) (a : Table) (t : Bool)
    → (new_binding q e k a t ≡ panic) ↔ ((is_taken t k ≡ true) × IsDeadlyCall q e k a)
unfolding new_binding
new_binding_panics q e k a t = elim (binding_of-is_taken q e k a t) [
  | inr (bad, f) ↦ (λ h. absurd (ground (arith, f, h)), λ h. absurd (ground (arith, bad, h.0)))
  | inl (b, valid, f) ↦ elim (Outcome-cases (calc_id q e k a)) [
    | inr crash ↦
        (λ h. (valid, (calc_id_panics q e k a).0 crash), λ h. rw (new_binding, f, crash) refl)
    | inl (id, w) ↦ (
      λ h. absurd (ground (arith, f, w, h)),
      λ h. absurd (ground (arith, w, (calc_id_panics q e k a).1 h.1)),
    )
  ]
]

-- What a queue.bind has to find to be fatal.
abbrev pub IsFatal : Session → QueueBind → Type 0
IsFatal s m =
    (name : GoString) × (ex : Exchange) × (q : Queue) × (queue_name s m.queue ≡ some name)
    × (find m.exchange s.server.exchanges ≡ some ex)
    × (find name s.server.queues ≡ some q)
    × ((q.closed || is_locked s q) ≡ false)
    × (is_taken (is_topic ex) m.routing_key ≡ true)
    × IsDeadlyCall name m.exchange m.routing_key m.arguments

module _ (s : Session) (m : QueueBind) (saved : Bool) where
  found_panics :
      (name : GoString) (ex : Exchange) (q : Queue)
      → bind_found s m name saved ex q ≡ panic
      → ((q.closed || is_locked s q) ≡ false)
        × (is_taken (is_topic ex) m.routing_key ≡ true)
        × IsDeadlyCall name m.exchange m.routing_key m.arguments
  unfolding bind_found
  found_panics name ex q h = elim (Bool-cases (q.closed || is_locked s q)) [
    | inl shut ↦ absurd (ground (arith, h, shut))
    | inr open_q ↦
        elim (Outcome-cases (new_binding name m.exchange m.routing_key m.arguments (is_topic ex))) [
          | inl (made, e) ↦ absurd (ground (arith, h, open_q, e))
          | inr crash ↦
              let (valid, deadly) =
                (new_binding_panics name m.exchange m.routing_key m.arguments (is_topic ex)).0
                  crash in
              (open_q, valid, deadly)
        ]
  ]

  -- Binding a queue makes the server panic exactly when the queue and the exchange are there, the
  -- queue is open and not locked to another connection, the key is taken by the exchange, the three
  -- names fit into short strings and the table of the arguments cannot be encoded.
  pub queue_bind_panics : (queue_bind s m saved ≡ panic) ↔ IsFatal s m
  unfolding queue_bind bind_found
  queue_bind_panics = (
    λ h. elim (Option-cases (queue_name s m.queue)) [
      | inl no_name ↦ absurd (ground (arith, h, no_name))
      | inr (name, n) ↦ elim (Option-cases (find m.exchange s.server.exchanges)) [
        | inl no_ex ↦ absurd (ground (arith, h, n, no_ex))
        | inr (ex, fe) ↦ elim (Option-cases (find name s.server.queues)) [
          | inl no_q ↦ absurd (ground (arith, h, n, fe, no_q))
          | inr (q, fq) ↦
              let (open_q, valid, deadly) = found_panics name ex q (ground (arith, h, n, fe, fq)) in
              (name, ex, q, n, fe, fq, open_q, valid, deadly)
        ]
      ]
    ],
    λ (name, ex, q, n, fe, fq, open_q, valid, deadly). ground (
      arith,
      n,
      fe,
      fq,
      open_q,
      (new_binding_panics name m.exchange m.routing_key m.arguments (is_topic ex)).1
          (valid, deadly),
    ),
  )
