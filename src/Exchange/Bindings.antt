-- ===== src/Exchange/Bindings.antt =====
-- The list of bindings of an exchange: no two equal ones, under every operation that changes it.
use dispatchd.Binding.{Binding, equals}
use dispatchd.Exchange.{
  Exchange, has_binding, add_binding, bindings_for_queue, remove_bindings_for_queue, remove_first,
  remove_binding,
}
use dispatchd.Common.{
  Bool, Bool-cases, GoString, List, [], arith, false, if◌then◌else◌, inl, inr, keep, keep-keep, not,
  refl, str_beq_iff, true, ◌&&◌, ◌++◌, ◌==◌, ◌||◌, ◌∙◌, ◌∷◌, ◌≡◌, nat_eq, str_eq, pair_eq,
}

-- No two of the bindings are equal.
abbrev pub IsDistinct : List Binding → Type 0
IsDistinct [] = Unit {0}
IsDistinct (b ∷ bs) = (has_binding b bs ≡ false) × IsDistinct bs

equals_sym : (b c : Binding) → equals b c ≡ equals c b
unfolding equals
equals_sym b c = ground (
  arith,
  str_beq_iff b.queue_name c.queue_name,
  str_beq_iff c.queue_name b.queue_name,
  str_beq_iff b.exchange_name c.exchange_name,
  str_beq_iff c.exchange_name b.exchange_name,
  str_beq_iff b.key c.key,
  str_beq_iff c.key b.key,
)

has_binding-append :
    (b : Binding) (bs cs : List Binding)
    → has_binding b (bs ++ cs) ≡ (has_binding b bs || has_binding b cs)
unfolding has_binding
has_binding-append b [] cs = refl
has_binding-append b (c ∷ bs) cs = ground (arith, has_binding-append b bs cs)

IsDistinct-snoc :
    (bs : List Binding) (b : Binding)
    → has_binding b bs ≡ false
    → IsDistinct bs
    → IsDistinct (bs ++ b ∷ [])
unfolding has_binding
IsDistinct-snoc [] b h d = (refl, tt)
IsDistinct-snoc (c ∷ bs) b h d = (
  ground (arith, has_binding-append c bs (b ∷ []), equals_sym b c),
  IsDistinct-snoc bs b (ground arith) d.1,
)

has_binding-keep :
    (p : Binding → Bool) (b : Binding) (bs : List Binding)
    → has_binding b bs ≡ false
    → has_binding b (keep p bs) ≡ false
unfolding has_binding keep
has_binding-keep p b [] h = refl
has_binding-keep p b (c ∷ bs) h = ground (arith, has_binding-keep p b bs)

IsDistinct-keep : (p : Binding → Bool) (bs : List Binding) → IsDistinct bs → IsDistinct (keep p bs)
unfolding keep
IsDistinct-keep p [] d = tt
IsDistinct-keep p (c ∷ bs) d = ground (arith, IsDistinct-keep p bs d.1, has_binding-keep p c bs d.0)

has_binding-remove_first :
    (b c : Binding) (bs : List Binding)
    → has_binding c bs ≡ false
    → has_binding c (remove_first b bs) ≡ false
unfolding has_binding remove_first
has_binding-remove_first b c [] h = refl
has_binding-remove_first b c (x ∷ bs) h = ground (arith, has_binding-remove_first b c bs)

IsDistinct-remove_first :
    (b : Binding) (bs : List Binding) → IsDistinct bs → IsDistinct (remove_first b bs)
unfolding remove_first
IsDistinct-remove_first b [] d = tt
IsDistinct-remove_first b (c ∷ bs) d =
    ground (arith, IsDistinct-remove_first b bs d.1, has_binding-remove_first b c bs d.0)

equals_trans : (b c d : Binding) → equals b c ≡ true → equals b d ≡ equals c d
unfolding equals
equals_trans b c d h = ground (
  arith,
  str_beq_iff b.queue_name c.queue_name,
  str_beq_iff b.exchange_name c.exchange_name,
  str_beq_iff b.key c.key,
)

-- An equal binding is found already.
absorbed :
    (bs : List Binding) (c b : Binding)
    → has_binding b bs ≡ true
    → has_binding c bs ≡ (equals c b || has_binding c bs)
unfolding has_binding
absorbed [] c b h = absurd (ground arith)
absorbed (x ∷ bs) c b h =
    ground (arith, absorbed bs c b, equals_sym c b, equals_trans b c x, equals_trans c b x)

has_binding_of_equals :
    (b c : Binding) (bs : List Binding) → equals b c ≡ true → has_binding b bs ≡ has_binding c bs
unfolding has_binding
has_binding_of_equals b c [] h = refl
has_binding_of_equals b c (x ∷ bs) h =
    ground (arith, equals_trans b c x, has_binding_of_equals b c bs)

has_binding-remove_first_distinct :
    (b c : Binding) (bs : List Binding)
    → IsDistinct bs
    → has_binding c (remove_first b bs) ≡ (not (equals b c) && has_binding c bs)
unfolding has_binding remove_first
has_binding-remove_first_distinct b c [] d = ground arith
has_binding-remove_first_distinct b c (x ∷ bs) d = ground (
  arith,
  has_binding-remove_first_distinct b c bs d.1,
  equals_sym b c,
  equals_trans b c x,
  equals_trans b x c,
  equals_sym c x,
  has_binding_of_equals c x bs,
)

-- What the server does to the bindings of an exchange.
pub data BindingCall : Type 0 where
  adds removes : Binding → BindingCall
  removes_queue : GoString → BindingCall

unfoldable pub call : Exchange → BindingCall → Exchange
call ex (adds b) = add_binding ex b
call ex (removes b) = (remove_binding ex b).0
call ex (removes_queue q) = remove_bindings_for_queue ex q

unfoldable pub calls : Exchange → List BindingCall → Exchange
unfolding call
calls ex [] = ex
calls ex (c ∷ cs) = calls (call ex c) cs

call-IsDistinct :
    (ex : Exchange) (c : BindingCall) → IsDistinct ex.bindings → IsDistinct (call ex c).bindings
unfolding call add_binding remove_binding remove_bindings_for_queue
call-IsDistinct ex (adds b) d = ground (arith, IsDistinct-snoc ex.bindings b)
call-IsDistinct ex (removes b) d = IsDistinct-remove_first b ex.bindings d
call-IsDistinct ex (removes_queue q) d =
    IsDistinct-keep (λ b. not (b.queue_name == q)) ex.bindings d

-- Whatever is bound, unbound or removed with its queue, in any order, no two bindings of an exchange
-- are equal, if none were at the start.
pub calls-IsDistinct :
    (ex : Exchange) (cs : List BindingCall)
    → IsDistinct ex.bindings
    → IsDistinct (calls ex cs).bindings
unfolding calls
calls-IsDistinct ex [] d = d
calls-IsDistinct ex (c ∷ cs) d = calls-IsDistinct (call ex c) cs (call-IsDistinct ex c d)

-- After AddBinding the exchange has the binding, and of every other binding just what it had.
pub has_binding-add_binding :
    (ex : Exchange) (b c : Binding)
    → has_binding c (add_binding ex b).bindings ≡ (equals c b || has_binding c ex.bindings)
unfolding add_binding has_binding
has_binding-add_binding ex b c = elim (Bool-cases (has_binding b ex.bindings)) [
  | inl old ↦ rw old (absorbed ex.bindings c b old)
  | inr new ↦ rw new (ground (arith, has_binding-append c ex.bindings (b ∷ [])))
]

-- After RemoveBinding the exchange has the binding no more, and of every other binding just what it
-- had, if no two of its bindings were equal.
pub has_binding-remove_binding :
    (ex : Exchange) (b c : Binding)
    → IsDistinct ex.bindings
    → has_binding c (remove_binding ex b).0.bindings
      ≡ (not (equals b c) && has_binding c ex.bindings)
unfolding remove_binding
has_binding-remove_binding ex b c d = has_binding-remove_first_distinct b c ex.bindings d

keep_cases :
    (q r : GoString) (bs : List Binding)
    → keep (λ b. not (b.queue_name == q) && b.queue_name == r) bs
      ≡ (if q == r then [] else keep (λ b. b.queue_name == r) bs)
unfolding keep
keep_cases q r [] = ground arith
keep_cases q r (b ∷ bs) = ground (
  arith,
  keep_cases q r bs,
  str_beq_iff b.queue_name q,
  str_beq_iff b.queue_name r,
  str_beq_iff q r,
)

-- RemoveBindingsForQueue leaves no binding of the queue, and all those of the other queues, in order.
pub bindings_for_queue-remove :
    (ex : Exchange) (q r : GoString)
    → bindings_for_queue (remove_bindings_for_queue ex q) r
      ≡ (if q == r then [] else bindings_for_queue ex r)
unfolding bindings_for_queue remove_bindings_for_queue
bindings_for_queue-remove ex q r =
    keep-keep (λ b. b.queue_name == r) (λ b. not (b.queue_name == q)) ex.bindings
    ∙ keep_cases q r ex.bindings
