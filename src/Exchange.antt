-- ===== src/Exchange.antt =====
-- exchange/exchange.go: an exchange, its list of bindings, and the queues of a published message.
pub mod Bindings
pub mod Publish
pub mod Unique
pub mod AutoDelete
use dispatchd.Amqp.Table.{Table, equivalent_tables}
use dispatchd.Amqp.Types.{BasicPublish}
use dispatchd.Binding.{Binding, equals, match_direct, match_topic}
use dispatchd.Common.{
  Bool, GoString, List, Map, Option, Outcome, [], bool_beq, bytes, contains, done, false,
  if◌then◌else◌, keep, none, not, panic, put, some, true, ℕ, ◌&&◌, ◌++◌, ◌==◌, ◌>>=◌, ◌||◌, ◌∷◌,
  nat_eq, str_eq, pair_eq,
}

abbrev pub ex_type_direct : ℕ
ex_type_direct = 1

abbrev pub ex_type_fanout : ℕ
ex_type_fanout = 2

abbrev pub ex_type_topic : ℕ
ex_type_topic = 3

abbrev pub ex_type_headers : ℕ
ex_type_headers = 4

-- `delete_active` is a time in nanoseconds, 0 for time.Unix(0, 0) and for the zero time.
pub record Exchange : Type 0 where
  pub name : GoString
  pub ex_type : ℕ
  pub durable : Bool
  pub auto_delete : Bool
  pub internal : Bool
  pub arguments : Table
  pub system : Bool
  pub bindings : List Binding
  pub closed : Bool
  pub delete_active : ℕ

unfoldable pub new_exchange : GoString → ℕ → Bool → Bool → Bool → Table → Bool → Exchange
new_exchange name ex_type durable auto_delete internal arguments system = record {
  name = name;
  ex_type = ex_type;
  durable = durable;
  auto_delete = auto_delete;
  internal = internal;
  arguments = arguments;
  system = system;
  bindings = [];
  closed = false;
  delete_active = 0;
}

unfoldable pub close : Exchange → Exchange
close ex = record ex { closed = true }

unfoldable pub is_topic : Exchange → Bool
is_topic ex = ex.ex_type == ex_type_topic

unfoldable pub exchange_name_to_type : GoString → Option ℕ
exchange_name_to_type et =
    if et == bytes "direct"
    then some ex_type_direct
    else if et == bytes "fanout"
    then some ex_type_fanout
    else if et == bytes "topic"
    then some ex_type_topic
    else if et == bytes "headers"
    then some ex_type_headers
    else none

unfoldable pub exchange_type_to_name : ℕ → Option GoString
exchange_type_to_name et =
    if et == ex_type_direct
    then some (bytes "direct")
    else if et == ex_type_fanout
    then some (bytes "fanout")
    else if et == ex_type_topic
    then some (bytes "topic")
    else if et == ex_type_headers
    then some (bytes "headers")
    else none

-- Auto-delete is left out of the comparison.
unfoldable pub equivalent_exchanges : Exchange → Exchange → Bool
equivalent_exchanges x y =
    x.name == y.name
    && x.ex_type == y.ex_type
    && bool_beq x.durable y.durable
    && bool_beq x.internal y.internal
    && equivalent_tables x.arguments y.arguments

-- The loops of QueuesForPublish, one for each type of exchange; `queues` is the map that they fill.
direct_queues : List Binding → BasicPublish → Map GoString Bool → Map GoString Bool
direct_queues [] m queues = queues
direct_queues (b ∷ bs) m queues =
    let rest = direct_queues bs m queues in
    if match_direct b m then put b.queue_name true queues else rest

fanout_queues : List Binding → Map GoString Bool → Map GoString Bool
fanout_queues [] queues = queues
fanout_queues (b ∷ bs) queues = fanout_queues bs (put b.queue_name true queues)

add_unseen : GoString → Map GoString Bool → Map GoString Bool
unfolding contains
add_unseen q queues = if contains q queues then queues else put q true queues

topic_queues : List Binding → BasicPublish → Map GoString Bool → Outcome (Map GoString Bool)
unfolding add_unseen
topic_queues [] m queues = done queues
topic_queues (b ∷ bs) m queues = do
  matches ← match_topic b m
  topic_queues bs m (if matches then add_unseen b.queue_name queues else queues)

unfoldable pub queues_for_publish : Exchange → BasicPublish → Outcome (Map GoString Bool)
unfolding direct_queues fanout_queues topic_queues
queues_for_publish ex m =
    if not (m.exchange == ex.name)
    then done []
    else if ex.ex_type == ex_type_direct
    then done (direct_queues ex.bindings m [])
    else if ex.ex_type == ex_type_fanout
    then done (fanout_queues ex.bindings [])
    else if ex.ex_type == ex_type_topic
    then topic_queues ex.bindings m []
    else panic

unfoldable pub has_binding : Binding → List Binding → Bool
has_binding b [] = false
has_binding b (c ∷ bs) = equals b c || has_binding b bs

unfoldable pub add_binding : Exchange → Binding → Exchange
unfolding has_binding
add_binding ex b = if has_binding b ex.bindings then ex else record ex {
  bindings = ex.bindings ++ b ∷ [];
  delete_active = if ex.auto_delete then 0 else ex.delete_active;
}

unfoldable pub bindings_for_queue : Exchange → GoString → List Binding
bindings_for_queue ex q = keep (λ b. b.queue_name == q) ex.bindings

unfoldable pub remove_bindings_for_queue : Exchange → GoString → Exchange
remove_bindings_for_queue ex q = record ex {
  bindings = keep (λ b. not (b.queue_name == q)) ex.bindings;
}

unfoldable pub remove_first : Binding → List Binding → List Binding
remove_first b [] = []
remove_first b (c ∷ bs) = let rest = remove_first b bs in if equals b c then bs else c ∷ rest

unfoldable pub is_nil {ℓ} : {A : Type ℓ} → List A → Bool
is_nil [] = true
is_nil (x ∷ xs) = false

-- The flag says that the goroutine of the auto-delete timeout is started.
unfoldable pub remove_binding : Exchange → Binding → Exchange × Bool
unfolding has_binding remove_first is_nil
remove_binding ex b =
    let rest = remove_first b ex.bindings in
    (record ex { bindings = rest }, has_binding b ex.bindings && ex.auto_delete && is_nil rest)

-- The two ends of autodeleteTimeout: it notes the time, and after the pause it asks for the exchange
-- to be deleted if nothing has overwritten that note.
unfoldable pub autodelete_start : Exchange → ℕ → Exchange
autodelete_start ex now = record ex { delete_active = now }

unfoldable pub autodelete_fires : Exchange → ℕ → Bool
autodelete_fires ex now = ex.delete_active == now
