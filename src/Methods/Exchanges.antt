-- ===== src/Methods/Exchanges.antt =====
-- server/exchangeMethods.go, and addExchange and genDefaultExchange of server/server.go. What the
-- database says to a write is the argument `saved`.
use dispatchd.Amqp.Table.{Table, end}
use dispatchd.Exchange.{
  Exchange, new_exchange, exchange_name_to_type, equivalent_exchanges, ex_type_headers,
  ex_type_topic,
}
use dispatchd.Server.{Server, delete_exchange}
use dispatchd.Methods.{
  Session, Answer, answer, refuse, refuse_hard, check_name, exchange_declare_ok, exchange_delete_ok,
}
use dispatchd.Common.{
  Bool, GoString, Option, [], bytes, contains, false, find, if◌then◌else◌, none, not, put, some,
  suc, true, zero, ℕ, ◌&&◌, ◌==◌, ◌∷◌, nat_eq, str_eq, pair_eq,
}

-- The fields of the methods that are read.
pub record ExchangeDeclare : Type 0 where
  pub exchange : GoString
  pub type_name : GoString
  pub passive : Bool
  pub durable : Bool
  pub auto_delete : Bool
  pub internal : Bool
  pub no_wait : Bool
  pub arguments : Table

-- NewFromMethod of exchange/exchange.go; `none` is its error.
unfoldable pub new_from_method : ExchangeDeclare → Bool → Option Exchange
unfolding new_exchange exchange_name_to_type
new_from_method m system = elim (exchange_name_to_type m.type_name) [
  | none ↦ none
  | some t ↦
      if t == ex_type_headers
      then none
      else some (new_exchange m.exchange t m.durable m.auto_delete m.internal m.arguments system)
]

unfoldable pub add_exchange : Server → Exchange → Server
add_exchange s ex = record s { exchanges = put ex.name ex s.exchanges }

-- The type that is asked for is not used.
unfoldable pub gen_default_exchange : Server → GoString → ℕ → Server
unfolding add_exchange new_exchange contains
gen_default_exchange s name typ =
    if contains name s.exchanges
    then s
    else add_exchange s (new_exchange name ex_type_topic true false false end true)

unfoldable pub has_prefix : GoString → GoString → Bool
has_prefix [] s = true
has_prefix (p ∷ ps) [] = false
has_prefix (p ∷ ps) (c ∷ s) = p == c && has_prefix ps s

-- The part after the checks against an exchange that is there.
unfoldable pub declare_exchange : Session → ExchangeDeclare → Exchange → Bool → Answer
unfolding answer refuse add_exchange has_prefix
declare_exchange s m ex saved =
    if m.passive
    then answer s m.no_wait exchange_declare_ok
    else if has_prefix (bytes "amq.") m.exchange
    then refuse s 403 40 10
    else let s' = record s { server = add_exchange s.server ex } in
      if not saved then refuse s' 500 40 10 else answer s' m.no_wait exchange_declare_ok

unfoldable pub redeclare_exchange : Session → ExchangeDeclare → Exchange → Bool → Exchange → Answer
unfolding declare_exchange answer refuse refuse_hard
redeclare_exchange s m ex saved existing =
    if not (existing.ex_type == ex.ex_type)
    then refuse_hard s 530 40 10
    else if equivalent_exchanges existing ex
    then answer s m.no_wait exchange_declare_ok
    else if m.passive
    then refuse s 406 40 10
    else declare_exchange s m ex saved

unfoldable pub exchange_declare : Session → ExchangeDeclare → Bool → Answer
unfolding redeclare_exchange declare_exchange new_from_method refuse refuse_hard
exchange_declare s m saved =
    if not (check_name m.exchange) then refuse s 406 40 10 else elim (new_from_method m false) [
      | none ↦ refuse_hard s 503 40 10
      | some ex ↦ elim (find ex.name s.server.exchanges) [
        | none ↦ if m.passive then refuse s 404 40 10 else declare_exchange s m ex saved
        | some existing ↦ redeclare_exchange s m ex saved existing
      ]
    ]

-- What is sent after deleteExchange.
unfoldable pub exchange_deleted : Session → Bool → Server × ℕ → Answer
unfolding answer refuse
exchange_deleted s no_wait (server, zero) =
    answer (record s { server = server }) no_wait exchange_delete_ok
exchange_deleted s no_wait (server, suc code) =
    refuse (record s { server = server }) (suc code) 40 20

unfoldable pub exchange_delete : Session → GoString → Bool → Answer
unfolding exchange_deleted delete_exchange
exchange_delete s name no_wait = exchange_deleted s no_wait (delete_exchange s.server name)
