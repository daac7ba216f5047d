-- ===== src/Intake/Assembly.antt =====
-- The frames of a message, one after the other, publish it once and whole.
use mathlib.Core.List.{append_assoc}
use dispatchd.Amqp.Types.{ContentHeaderFrame, Message, WireFrame, AmqpError}
use dispatchd.MsgStore.{is_durable, new_queue_message}
use dispatchd.Exchange.{Exchange, queues_for_publish}
use dispatchd.Broker.{Broker}
use dispatchd.Broker.Balance.{IsConsistent}
use dispatchd.Broker.Publish.{Returned, publish}
use dispatchd.Broker.Publish.Enqueue.{IsNameList, with_added}
use dispatchd.Broker.Publish.Routed.{publish-IsConsistent}
use dispatchd.Intake.{
  Exchanges, Handled, set_current, payload_size, complete, handle_content_body, take_body,
  with_header,
}
use dispatchd.Common.{
  Bool, GoString, List, Map, Option, Outcome, [], ap, arith, contains, done, false, find,
  if◌then◌else◌, length, ltb, none, panic, refl, some, true, ℕ, ◌++◌, ◌+◌, ◌<◌, ◌>>=◌, ◌^◌, ◌∙◌,
  ◌∷◌, ◌≡◌, ◌≤◌, nat_eq, str_eq, pair_eq,
}

-- The frames of a body, handled one after the other.
unfoldable pub feed : Broker → Exchanges → List WireFrame → Outcome Broker
feed b exchanges [] = done b
feed b exchanges (f ∷ fs) = do
  (b', returned, err) ← handle_content_body b exchanges f
  feed b' exchanges fs

-- The length of the payloads, as a plain sum.
abbrev pub bytes_in : List WireFrame → ℕ
bytes_in [] = 0
bytes_in (f ∷ fs) = length f.payload + bytes_in fs

bytes_in-append : (fs gs : List WireFrame) → bytes_in (fs ++ gs) ≡ bytes_in fs + bytes_in gs
bytes_in-append [] gs = omega arith
bytes_in-append (f ∷ fs) gs = omega (arith, bytes_in-append fs gs)

pub payload_size-bytes_in :
    (fs : List WireFrame) → bytes_in fs < 2 ^ 64 → payload_size fs ≡ bytes_in fs
unfolding payload_size
payload_size-bytes_in [] h = refl
payload_size-bytes_in (f ∷ fs) h = omega (arith, payload_size-bytes_in fs (omega arith))

-- The broker alone.
abbrev first : Broker × Option Returned → Outcome Broker
first x = done x.0

abbrev handled : Broker × Option Returned → Handled
handled x = done (x.0, x.1, none)

abbrev first_of : Broker × Option Returned × Option AmqpError → Outcome Broker
first_of x = done x.0

drop_rest :
    (o : Outcome (Broker × Option Returned)) → ((o >>= handled) >>= first_of) ≡ (o >>= first)
drop_rest (done x) = refl
drop_rest panic = refl

module _ (exchanges : Exchanges) (msg : Message) (h : ContentHeaderFrame)
    (headed : msg.header ≡ some h) where
  -- The message with the frames that have come.
  abbrev partial : List WireFrame → Message
  partial p = record msg { payload = p }

  taken :
      (b : Broker) (p : List WireFrame) (f : WireFrame)
      → b.parties.channel.current_message ≡ some (partial p)
      → handle_content_body b exchanges f ≡ take_body b exchanges f (partial p) h
  unfolding handle_content_body
  taken b p f cur =
      rw (handle_content_body, cur) (ap (with_header b exchanges f (partial p)) headed)

  waits :
      (b : Broker) (p : List WireFrame) (f : WireFrame)
      → b.parties.channel.current_message ≡ some (partial p)
      → bytes_in (p ++ f ∷ []) < h.content_body_size
      → h.content_body_size < 2 ^ 64
      → handle_content_body b exchanges f
        ≡ done (set_current (some (partial (p ++ f ∷ []))) b, none, none)
  unfolding take_body
  waits b p f cur small wide =
      let size = payload_size-bytes_in (p ++ f ∷ []) (omega (arith, small, wide)) in
      let short : ltb (payload_size (p ++ f ∷ [])) h.content_body_size ≡ true =
        rw size (ground (arith, small)) in
      taken b p f cur ∙ rw (take_body, short) refl

  pub publishes :
      (b : Broker) (p : List WireFrame) (f : WireFrame)
      → b.parties.channel.current_message ≡ some (partial p)
      → h.content_body_size ≤ bytes_in (p ++ f ∷ [])
      → bytes_in (p ++ f ∷ []) < 2 ^ 64
      → handle_content_body b exchanges f ≡ (do
        (b', returned) ←
            complete
              (set_current (some (partial (p ++ f ∷ []))) b)
              exchanges
              (partial (p ++ f ∷ []))
        done (b', returned, none))
  unfolding take_body
  publishes b p f cur enough wide =
      let size = payload_size-bytes_in (p ++ f ∷ []) wide in
      let whole : ltb (payload_size (p ++ f ∷ [])) h.content_body_size ≡ false =
        rw size (ground (arith, enough)) in
      taken b p f cur ∙ rw (take_body, whole) refl

  -- What the last frame does.
  abbrev finish : Broker → List WireFrame → Outcome (Broker × Option Returned)
  finish b l = complete (set_current (some (partial l)) b) exchanges (partial l)

  -- The frames up to the last.
  fed :
      (b : Broker) (p fs : List WireFrame) (last : WireFrame)
      → b.parties.channel.current_message ≡ some (partial p)
      → bytes_in (p ++ fs) < h.content_body_size
      → h.content_body_size ≤ bytes_in (p ++ (fs ++ last ∷ []))
      → bytes_in (p ++ (fs ++ last ∷ [])) < 2 ^ 64
      → feed b exchanges (fs ++ last ∷ []) ≡ (finish b (p ++ (fs ++ last ∷ [])) >>= first)
  unfolding feed set_current
  fed b p [] last cur small enough wide =
      ap (λ (o : Handled). o >>= first_of) (publishes b p last cur enough wide)
      ∙ drop_rest (finish b (p ++ last ∷ []))
  fed b p (f ∷ fs) last cur small enough wide =
      let so_far = p ++ f ∷ [] in
      let few = append_assoc p (f ∷ []) fs in
      let all = append_assoc p (f ∷ []) (fs ++ last ∷ []) in
      ap (λ (o : Handled). o >>= λ x. feed x.0 exchanges (fs ++ last ∷ []))
        (waits b p f cur
          (omega (arith, bytes_in-append p (f ∷ fs), bytes_in-append p (f ∷ []), small))
          (omega (arith, enough, wide)))
      ∙ fed (set_current (some (partial so_far)) b) so_far fs last refl (rw few small)
          (rw all enough) (rw all wide)
      ∙ ap (λ (l : List WireFrame). finish b l >>= first) all

sent_away :
    (b : Broker) (ex : Exchange) (msg : Message) (exchanges : Exchanges) (b' : Broker)
    → find msg.method.exchange exchanges ≡ some ex
    → b.parties.channel.tx_mode ≡ false
    → publish b ex msg ≡ done (b', none)
    → complete b exchanges msg ≡ done (set_current none b', none)
unfolding complete
sent_away b ex msg exchanges b' f tx e = ground (arith, f, tx, e)

set_current-IsConsistent :
    (others : ℕ → ℕ) (m : Option Message) (b : Broker)
    → IsConsistent others b
    → IsConsistent others (set_current m b)
unfolding set_current
set_current-IsConsistent others m b ok = record {
  balanced = ok.balanced;
  queues_unique = ok.queues_unique;
  acks_unique = ok.acks_unique;
  named = ok.named;
}

pub feed-IsConsistent :
    (others : ℕ → ℕ) (b : Broker) (exchanges : Exchanges) (ex : Exchange) (msg : Message)
    (h : ContentHeaderFrame) (fs : List WireFrame) (last : WireFrame) (r : Map GoString Bool)
    → IsConsistent others b
    → b.parties.channel.tx_mode ≡ false
    → b.parties.channel.current_message ≡ some (record msg { payload = [] })
    → msg.header ≡ some h
    → bytes_in fs < h.content_body_size
    → h.content_body_size ≤ bytes_in (fs ++ last ∷ [])
    → bytes_in (fs ++ last ∷ []) < 2 ^ 64
    → find msg.method.exchange exchanges ≡ some ex
    → ex.closed ≡ false
    → find msg.id b.store.index ≡ none
    → msg.method.immediate ≡ false
    → msg.method.mandatory ≡ false
    → queues_for_publish ex msg.method ≡ done r
    → length r < 2 ^ 32
    → IsNameList r
    → (d : Bool) × (is_durable (record msg { payload = fs ++ last ∷ [] }) ≡ done d)
      × (b' : Broker) × (feed b exchanges (fs ++ last ∷ []) ≡ done b')
      × IsConsistent others b'
      × (b'.parties.channel.current_message ≡ none)
      × ((n : GoString)
          → find n b'.queues ≡ (
              if contains n r
              then with_added
                  (new_queue_message (record msg { payload = fs ++ last ∷ [] }) d)
                  (find n b.queues)
              else find n b.queues))
unfolding set_current
feed-IsConsistent others b exchanges ex msg h fs last r ok tx cur headed small enough wide f o fresh
      imm man e few named =
    let whole = record msg { payload = fs ++ last ∷ [] } in
    let b0 = set_current (some whole) b in
    let (d, durable, b', p, c, q) =
      publish-IsConsistent others b0 ex whole r (set_current-IsConsistent others (some whole) b ok)
        (ground (arith, headed)) fresh o imm e few named in
    let plain : publish b0 ex whole ≡ done (b', none) = p ∙ ground (arith, man) in
    (
      d,
      durable,
      set_current none b',
      fed exchanges msg h headed b [] fs last cur small enough wide
          ∙ ap (λ (x : Outcome (Broker × Option Returned)). x >>= first)
              (sent_away b0 ex whole exchanges b' f tx plain),
      set_current-IsConsistent others none b' c,
      refl,
      q,
    )
