-- ===== src/Tests/Routing.antt =====
-- Bindings and exchanges on concrete inputs.
use dispatchd.Amqp.Table.{end}
use dispatchd.Binding.Made.{new_binding-end}
use dispatchd.Binding.{
  Binding, binding_of, new_binding, match_topic, run_matcher, match_direct, equals,
}
use dispatchd.Binding.Topic.{split, valid_key, compile_key, match_pieces}
use dispatchd.Binding.Routes.{Routes}
use dispatchd.Binding.Matching.{match_topic-Routes, match_topic-count_dots, count_dots}
use dispatchd.Exchange.{Exchange, ex_type_direct, ex_type_topic, queues_for_publish, has_binding}
use dispatchd.Exchange.Bindings.{IsDistinct, adds, removes, removes_queue, calls, calls-IsDistinct}
use dispatchd.Exchange.Publish.{Bound, publish_topic}
use dispatchd.Tests.Data.{publish_to}
use dispatchd.Common.{
  Bool, GoString, List, Map, [], bytes, contains, done, false, keep, none, put, refl, remove, some,
  str_beq, true, ℕ, ◌↔◌, ◌∷◌, ◌≡◌, ◌≤◌, nat_eq, str_eq, pair_eq,
}

abbrev stocks : Binding
stocks = record {
  queue_name = bytes "q";
  exchange_name = bytes "e";
  key = bytes "*.stock.#";
  arguments = end;
  topic = true;
  topic_matcher = some (compile_key (bytes "*.stock.#"));
}

abbrev plain : GoString → Binding
plain q = record {
  queue_name = q;
  exchange_name = bytes "e";
  key = bytes "k";
  arguments = end;
  topic = false;
  topic_matcher = none;
}

abbrev exchange_of : ℕ → List Binding → Exchange
exchange_of t bs = record {
  name = bytes "e";
  ex_type = t;
  durable = false;
  auto_delete = true;
  internal = false;
  arguments = end;
  system = false;
  bindings = bs;
  closed = false;
  delete_active = 0;
}

stocks_made : new_binding (bytes "q") (bytes "e") (bytes "*.stock.#") end true ≡ done (some stocks)
unfolding binding_of valid_key str_beq
stocks_made = new_binding-end (bytes "q") (bytes "e") (bytes "*.stock.#") true stocks refl

nasdaq : match_topic stocks (publish_to (bytes "e") (bytes "usd.stock.nasdaq")) ≡ done true
unfolding match_topic run_matcher match_pieces compile_key str_beq
nasdaq = refl

zero_words_test : match_topic stocks (publish_to (bytes "e") (bytes "usd.stock")) ≡ done false
unfolding match_topic run_matcher match_pieces compile_key str_beq
zero_words_test = refl

match_topic-Routes_example :
    (match_topic stocks (publish_to (bytes "e") (bytes "usd.stock.nasdaq")) ≡ done true)
    ↔ ((bytes "e" ≡ bytes "e") × Routes (split (bytes "*.stock.#")) (bytes "usd.stock.nasdaq"))
match_topic-Routes_example =
    match_topic-Routes (bytes "q") (bytes "e") (bytes "*.stock.#") end stocks_made
      (publish_to (bytes "e") (bytes "usd.stock.nasdaq"))

match_topic-count_dots_example :
    count_dots (bytes "*.stock.#") ≤ count_dots (bytes "usd.stock.nasdaq")
match_topic-count_dots_example =
    match_topic-count_dots (bytes "q") (bytes "e") (bytes "*.stock.#") end stocks_made
      (publish_to (bytes "e") (bytes "usd.stock.nasdaq")) nasdaq

calls-IsDistinct_example :
    IsDistinct
      (calls (exchange_of ex_type_direct []) (
        adds (plain (bytes "a"))
        ∷ adds (plain (bytes "a"))
        ∷ adds (plain (bytes "b"))
        ∷ removes (plain (bytes "a"))
        ∷ removes_queue (bytes "c")
        ∷ [])).bindings
calls-IsDistinct_example = calls-IsDistinct (exchange_of ex_type_direct []) _ tt

abbrev two : List Binding
two = plain (bytes "a") ∷ plain (bytes "b") ∷ []

two-IsDistinct : IsDistinct two
unfolding has_binding equals str_beq
two-IsDistinct = (refl, (refl, tt))

publish_topic_example :
    (r : Map GoString Bool) × (queues_for_publish
        (exchange_of ex_type_topic (stocks ∷ []))
        (publish_to (bytes "e") (bytes "usd.stock.nasdaq"))
      ≡ done r)
    × ((q : GoString)
        → (contains q r ≡ true)
          ↔ Bound
              (λ b. match_topic b (publish_to (bytes "e") (bytes "usd.stock.nasdaq")) ≡ done true)
              q
              (stocks ∷ []))
publish_topic_example =
    publish_topic (exchange_of ex_type_topic (stocks ∷ []))
      (publish_to (bytes "e") (bytes "usd.stock.nasdaq")) refl refl ((λ e. cc), tt)

abbrev matched : List Binding
matched = keep (λ b. match_direct b (publish_to (bytes "e") (bytes "k"))) two

only_a :
    queues_for_publish (exchange_of ex_type_direct two) (publish_to (bytes "e") (bytes "k"))
    ≡ done ((bytes "a", true) ∷ [])
unfolding queues_for_publish match_direct put remove str_beq
only_a = refl
