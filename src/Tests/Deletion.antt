-- ===== src/Tests/Deletion.antt =====
-- The deletion of a queue on a concrete input.
use dispatchd.Queue.{runs}
use dispatchd.Exchange.{is_nil}
use dispatchd.Server.{Server, delete_queue, delete_exchange, delete_queues_for_conn}
use dispatchd.Server.Closing.{belongs, delete_queues_for_conn_all}
use dispatchd.Server.Deletion.{IsUnbound, delete_queue-IsUnbound}
use dispatchd.Tests.Data.{a_queue, some_parties}
use dispatchd.Common.{
  GoString, [], arith, contains, bytes, done, false, find, if◌then◌else◌, inl, none, refl, str_beq,
  true, ◌==◌, ◌∷◌, ◌≡◌, nat_eq, str_eq, pair_eq,
}

abbrev a_server : Server
a_server = record {
  queues = (bytes "q", a_queue) ∷ [];
  exchanges = [];
  consumers = some_parties.consumers;
}

-- The queue has a consumer, and the client asks for the deletion only if it is unused.
delete_queue-IsUnbound_example :
    (s' : Server) × (delete_queue a_server (bytes "q") true false 9 ≡ done (runs (s', 0, 406)))
    × ((m : GoString)
        → find m s'.queues ≡ (if bytes "q" == m then none else find m a_server.queues))
    × IsUnbound (bytes "q") s'.exchanges
unfolding find str_beq is_nil
delete_queue-IsUnbound_example =
    delete_queue-IsUnbound a_server (bytes "q") a_queue true false 9 refl refl (inl refl)

delete_exchange_test : delete_exchange a_server (bytes "e") ≡ (a_server, 404)
unfolding delete_exchange find
delete_exchange_test = refl

-- The queue "q" belongs to connection 4, the queue "p" to none.
abbrev two_queues : Server
two_queues = record {
  queues =
      (bytes "q", record a_queue { conn_id = 4 })
      ∷ (bytes "p", record a_queue { name = bytes "p" })
      ∷ [];
  exchanges = [];
  consumers = some_parties.consumers;
}

delete_queues_for_conn_all_example :
    (s' : Server) × (delete_queues_for_conn two_queues 4 ≡ done (runs s'))
    × ((m : GoString)
        → find m s'.queues
          ≡ (if belongs 4 (find m two_queues.queues) then none else find m two_queues.queues))
unfolding find contains str_beq
delete_queues_for_conn_all_example =
    delete_queues_for_conn_all two_queues 4 (refl, (refl, tt)) (refl, (refl, tt))
      (λ n q here own. ground (arith, here))
