-- ===== src/Methods/Default.antt =====
-- The default exchange can be replaced and lost.
use dispatchd.Exchange.{
  Exchange, new_exchange, equivalent_exchanges, exchange_name_to_type, ex_type_topic,
}
use dispatchd.Server.{Server}
use dispatchd.Methods.{Session, Answer, check_name}
use dispatchd.Methods.Exchanges.{
  ExchangeDeclare, exchange_declare, exchange_delete, has_prefix, add_exchange,
}
use dispatchd.Methods.Replacing.{fresh, from_method, declare_there, puts_over}
use dispatchd.Methods.Queues.{QueueDeclare, queue_of, queue_declare, declare_active}
use dispatchd.Methods.Declaring.{declared_name, add_queue_lost}
use dispatchd.Common.{
  Bool, GoString, [], ap, arith, bytes, false, find, find-put, find-remove, none, panic, refl,
  remove, some, str_beq, str_beq_iff, true, ◌∙◌, ◌≡◌, nat_eq, str_eq, pair_eq,
}

module _ (s : Session) (ex : Exchange) (m : ExchangeDeclare) (d : QueueDeclare) (random : GoString)
    (saved no_wait : Bool) where
  abbrev replaced : Session
  replaced = (exchange_declare s m saved).0

  abbrev dropped : Session
  dropped = (exchange_delete replaced [] no_wait).0

  replaced_server :
      find [] s.server.exchanges ≡ some ex
      → ex.ex_type ≡ ex_type_topic
      → ex.durable ≡ true
      → m.exchange ≡ []
      → m.type_name ≡ bytes "topic"
      → m.passive ≡ false
      → m.durable ≡ false
      → replaced.server ≡ add_exchange s.server (fresh m ex_type_topic)
  unfolding new_exchange
  replaced_server f t dur e ty p nd =
      let valid : check_name m.exchange ≡ true = unfold check_name in rw e refl in
      let typed : exchange_name_to_type m.type_name ≡ some ex_type_topic =
        unfold exchange_name_to_type str_beq in rw ty refl in
      let there : find m.exchange s.server.exchanges ≡ some ex = rw e f in
      let free : has_prefix (bytes "amq.") m.exchange ≡ false = unfold has_prefix in rw e refl in
      let differs : equivalent_exchanges ex (fresh m ex_type_topic) ≡ false =
        unfold equivalent_exchanges in ground (arith, dur, nd) in
      ap (λ (a : Answer). a.0.server)
        (declare_there s m saved ex_type_topic valid (from_method m ex_type_topic typed refl) ex
          there)
      ∙ puts_over s m (fresh m ex_type_topic) saved ex t differs p free

  deletes :
      (t : Session) (e : Exchange)
      → find [] t.server.exchanges ≡ some e
      → e.system ≡ false
      → ((exchange_delete t [] no_wait).1 ≡ none)
        × ((exchange_delete t [] no_wait).0.server
            ≡ record t.server { exchanges = remove [] t.server.exchanges })
  unfolding exchange_delete
  deletes t e f n = ground (arith, f, n)

  declare_panics :
      (t : Session)
      → find [] t.server.exchanges ≡ none
      → d.passive ≡ false
      → check_name (declared_name d random) ≡ true
      → find (declared_name d random) t.server.queues ≡ none
      → queue_declare t d random ≡ panic
  unfolding queue_declare declare_active
  declare_panics t f dp dv absent =
      ground
        (arith, dp, dv, absent, add_queue_lost t.server (queue_of t d (declared_name d random)) f)

  -- A client that declares the default exchange as one that is not durable replaces it by one without
  -- bindings, which it can then delete; after that any declaration of a new queue makes the server
  -- panic.
  pub default_exchange_lost :
      find [] s.server.exchanges ≡ some ex
      → ex.ex_type ≡ ex_type_topic
      → ex.durable ≡ true
      → m.exchange ≡ []
      → m.type_name ≡ bytes "topic"
      → m.passive ≡ false
      → m.durable ≡ false
      → d.passive ≡ false
      → check_name (declared_name d random) ≡ true
      → find (declared_name d random) s.server.queues ≡ none
      → (find [] replaced.server.exchanges ≡ some (fresh m ex_type_topic))
        × ((exchange_delete replaced [] no_wait).1 ≡ none)
        × (find [] dropped.server.exchanges ≡ none)
        × (queue_declare dropped d random ≡ panic)
  unfolding add_exchange new_exchange
  default_exchange_lost f t dur e ty p nd dp dv absent =
      let after = replaced_server f t dur e ty p nd in
      let there : find [] replaced.server.exchanges ≡ some (fresh m ex_type_topic) =
        ap (λ (v : Server). find [] v.exchanges) after
        ∙ find-put [] m.exchange (fresh m ex_type_topic) s.server.exchanges
        ∙ ground (arith, e, str_beq_iff m.exchange []) in
      let (fine, left) = deletes replaced (fresh m ex_type_topic) there refl in
      let gone : find [] dropped.server.exchanges ≡ none =
        ap (λ (v : Server). find [] v.exchanges) left
        ∙ find-remove [] [] replaced.server.exchanges
        ∙ ground (arith, str_beq_iff [] []) in
      let same : dropped.server.queues ≡ s.server.queues =
        ap (λ (v : Server). v.queues) left ∙ ap (λ (v : Server). v.queues) after in
      (there, fine, gone, declare_panics dropped gone dp dv (rw same absent))
