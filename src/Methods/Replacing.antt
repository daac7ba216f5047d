-- ===== src/Methods/Replacing.antt =====
-- What declaring an exchange does to the server.
use dispatchd.Exchange.{
  Exchange, new_exchange, equivalent_exchanges, exchange_name_to_type, ex_type_headers,
}
use dispatchd.Server.{Server}
use dispatchd.Methods.{Session, check_name}
use dispatchd.Methods.Exchanges.{
  ExchangeDeclare, new_from_method, declare_exchange, redeclare_exchange, exchange_declare,
  has_prefix, add_exchange,
}
use dispatchd.Common.{
  Bool, Bool-cases, Option, Option-cases, arith, bytes, false, find, if◌then◌else◌, inl, inr, none,
  not, put, refl, some, sym, true, ℕ, ◌&&◌, ◌==◌, ◌||◌, ◌∙◌, ◌≡◌, ◌⊎◌, nat_eq, str_eq, pair_eq,
}

-- The exchange that a declaration asks for.
abbrev pub fresh : ExchangeDeclare → ℕ → Exchange
fresh m t = new_exchange m.exchange t m.durable m.auto_delete m.internal m.arguments false

pub from_method :
    (m : ExchangeDeclare) (t : ℕ)
    → exchange_name_to_type m.type_name ≡ some t
    → (t == ex_type_headers) ≡ false
    → new_from_method m false ≡ some (fresh m t)
unfolding new_from_method
from_method m t e h = rw (new_from_method, e, h) refl

module _ (s : Session) (m : ExchangeDeclare) (ex : Exchange) (saved : Bool) where
  keeps :
      (has_prefix (bytes "amq.") m.exchange ≡ true) ⊎ (m.passive ≡ true)
      → (declare_exchange s m ex saved).0.server ≡ s.server
  unfolding declare_exchange
  keeps h = ground (arith, h)

  puts :
      m.passive ≡ false
      → has_prefix (bytes "amq.") m.exchange ≡ false
      → (declare_exchange s m ex saved).0.server ≡ add_exchange s.server ex
  unfolding declare_exchange
  puts active free = ground (arith, active, free)

  keeps_old :
      (old : Exchange)
      → ((old.ex_type == ex.ex_type) ≡ false)
        ⊎ (equivalent_exchanges old ex ≡ true)
        ⊎ (m.passive ≡ true)
        ⊎ (has_prefix (bytes "amq.") m.exchange ≡ true)
      → (redeclare_exchange s m ex saved old).0.server ≡ s.server
  unfolding redeclare_exchange
  keeps_old old h = ground (arith, h)

  pub puts_over :
      (old : Exchange)
      → old.ex_type ≡ ex.ex_type
      → equivalent_exchanges old ex ≡ false
      → m.passive ≡ false
      → has_prefix (bytes "amq.") m.exchange ≡ false
      → (redeclare_exchange s m ex saved old).0.server ≡ add_exchange s.server ex
  unfolding redeclare_exchange
  puts_over old t e active free = ground (arith, t, e, active, free)

-- A declaration of a valid name and a known type, by what stands under the name.
module _ (s : Session) (m : ExchangeDeclare) (saved : Bool) (t : ℕ)
    (valid : check_name m.exchange ≡ true) (made : new_from_method m false ≡ some (fresh m t)) where
  name_of_fresh : (fresh m t).name ≡ m.exchange
  unfolding new_exchange
  name_of_fresh = refl

  declare_new :
      find m.exchange s.server.exchanges ≡ none
      → m.passive ≡ false
      → exchange_declare s m saved ≡ declare_exchange s m (fresh m t) saved
  unfolding exchange_declare new_exchange
  declare_new absent active = rw (exchange_declare, valid, made, absent, active) refl

  declare_absent :
      find m.exchange s.server.exchanges ≡ none
      → m.passive ≡ true
      → (exchange_declare s m saved).0.server ≡ s.server
  unfolding exchange_declare new_exchange
  declare_absent absent passive = rw (exchange_declare, valid, made, absent, passive) refl

  pub declare_there :
      (ex : Exchange)
      → find m.exchange s.server.exchanges ≡ some ex
      → exchange_declare s m saved ≡ redeclare_exchange s m (fresh m t) saved ex
  unfolding exchange_declare new_exchange
  declare_there ex here = rw (exchange_declare, valid, made, here) refl

-- Whether an exchange is made: what stands under the name gives way when there is nothing, or an
-- exchange of the type asked for that is not equivalent.
unfoldable pub gives_way : Option Exchange → ExchangeDeclare → ℕ → Bool
gives_way none m t = true
gives_way (some old) m t = (old.ex_type == t) && not (equivalent_exchanges old (fresh m t))

unfoldable pub creates : Session → ExchangeDeclare → ℕ → Bool
unfolding gives_way
creates s m t =
    check_name m.exchange
    && not m.passive
    && not (has_prefix (bytes "amq.") m.exchange)
    && not (t == ex_type_headers)
    && gives_way (find m.exchange s.server.exchanges) m t

-- The server that a declaration should leave.
unfoldable pub asked : Session → ExchangeDeclare → Server
unfolding creates
asked s m = elim (exchange_name_to_type m.type_name) [
  | none ↦ s.server
  | some t ↦
      if creates s m t
      then record s.server { exchanges = put m.exchange (fresh m t) s.server.exchanges }
      else s.server
]

module _ (s : Session) (m : ExchangeDeclare) where
  asked_unknown : exchange_name_to_type m.type_name ≡ none → asked s m ≡ s.server
  unfolding asked
  asked_unknown e = rw (asked, e) refl

  asked_kept :
      (t : ℕ)
      → exchange_name_to_type m.type_name ≡ some t
      → creates s m t ≡ false
      → asked s m ≡ s.server
  unfolding asked
  asked_kept t e kept = rw (asked, e, kept) refl

  asked_put :
      (t : ℕ)
      → exchange_name_to_type m.type_name ≡ some t
      → creates s m t ≡ true
      → asked s m ≡ add_exchange s.server (fresh m t)
  unfolding asked add_exchange new_exchange
  asked_put t e made = rw (asked, e, made) refl

no_type :
    (m : ExchangeDeclare)
    → exchange_name_to_type m.type_name ≡ none
    → new_from_method m false ≡ none
unfolding new_from_method
no_type m e = rw (new_from_method, e) refl

no_headers :
    (m : ExchangeDeclare) (t : ℕ)
    → exchange_name_to_type m.type_name ≡ some t
    → (t == ex_type_headers) ≡ true
    → new_from_method m false ≡ none
unfolding new_from_method
no_headers m t e h = rw (new_from_method, e, h) refl

abbrev Meets : Session → ExchangeDeclare → Bool → Type 0
Meets s m saved = (exchange_declare s m saved).0.server ≡ asked s m

module _ (s : Session) (m : ExchangeDeclare) (saved : Bool) (t : ℕ)
    (valid : check_name m.exchange ≡ true) (typed : exchange_name_to_type m.type_name ≡ some t)
    (plain : (t == ex_type_headers) ≡ false)
    (made : new_from_method m false ≡ some (fresh m t)) where
  when_absent : find m.exchange s.server.exchanges ≡ none → Meets s m saved
  unfolding creates gives_way
  when_absent absent = elim (Bool-cases m.passive) [
    | inl passive ↦
        declare_absent s m saved t valid made absent passive
        ∙ sym (asked_kept s m t typed (ground (arith, passive)))
    | inr active ↦
        let e = declare_new s m saved t valid made absent active in
        elim (Bool-cases (has_prefix (bytes "amq.") m.exchange)) [
          | inl reserved ↦ rw e (
              keeps s m (fresh m t) saved (inl reserved)
              ∙ sym (asked_kept s m t typed (ground (arith, reserved))))
          | inr free ↦ rw e (
              puts s m (fresh m t) saved active free
              ∙ sym (asked_put s m t typed (ground (arith, active, free, valid, plain, absent))))
        ]
  ]

  -- Whatever keeps the exchange that is there.
  blocked : Exchange → Bool
  blocked old =
      not (old.ex_type == (fresh m t).ex_type)
      || equivalent_exchanges old (fresh m t)
      || m.passive
      || has_prefix (bytes "amq.") m.exchange

  when_there : (old : Exchange) → find m.exchange s.server.exchanges ≡ some old → Meets s m saved
  unfolding blocked new_exchange creates gives_way
  when_there old here =
      let e = declare_there s m saved t valid made old here in
      elim (Bool-cases (blocked old)) [
        | inl b ↦ rw e (
            keeps_old s m (fresh m t) saved old (ground (arith, b))
            ∙ sym (asked_kept s m t typed (ground (arith, b, here))))
        | inr u ↦ rw e (
            puts_over s m (fresh m t) saved old (ground (arith, u)) (ground (arith, u))
              (ground (arith, u)) (ground (arith, u))
            ∙ sym (asked_put s m t typed (ground (arith, u, here, valid, plain))))
      ]

refused :
    (s : Session) (m : ExchangeDeclare) (saved : Bool)
    → (check_name m.exchange ≡ false) ⊎ (new_from_method m false ≡ none)
    → (exchange_declare s m saved).0.server ≡ s.server
unfolding exchange_declare
refused s m saved (inl bad) = rw (exchange_declare, bad) refl
refused s m saved (inr none_made) = elim (Bool-cases (check_name m.exchange)) [
  | inl valid ↦ rw (exchange_declare, valid, none_made) refl
  | inr bad ↦ rw (exchange_declare, bad) refl
]

-- Declaring an exchange puts one under its name exactly when the type is known and not the headers
-- type, the passive flag is not set, the name is valid and without the prefix `amq.`, and there is no
-- exchange under it or one of the same type that is not equivalent. The exchange is then as it was
-- asked for, without bindings and not a system exchange. In every other case the server stays as it
-- was.
pub exchange_declare_server :
    (s : Session) (m : ExchangeDeclare) (saved : Bool)
    → (exchange_declare s m saved).0.server ≡ asked s m
unfolding creates
exchange_declare_server s m saved = elim (Option-cases (exchange_name_to_type m.type_name)) [
  | inl unknown ↦ refused s m saved (inr (no_type m unknown)) ∙ sym (asked_unknown s m unknown)
  | inr (t, typed) ↦ elim (Bool-cases (check_name m.exchange)) [
    | inr bad ↦ refused s m saved (inl bad) ∙ sym (asked_kept s m t typed (ground (arith, bad)))
    | inl valid ↦ elim (Bool-cases (t == ex_type_headers)) [
      | inl headers ↦
          refused s m saved (inr (no_headers m t typed headers))
          ∙ sym (asked_kept s m t typed (ground (arith, headers)))
      | inr plain ↦
          let made = from_method m t typed plain in
          elim (Option-cases (find m.exchange s.server.exchanges)) [
            | inl absent ↦ when_absent s m saved t valid typed plain made absent
            | inr (old, here) ↦ when_there s m saved t valid typed plain made old here
          ]
    ]
  ]
]

-- Either way the server is as it was, or a fresh exchange was added.
pub exchange_declare_or :
    (s : Session) (m : ExchangeDeclare) (saved : Bool)
    → ((exchange_declare s m saved).0.server ≡ s.server)
      ⊎ ((t : ℕ) × ((exchange_declare s m saved).0.server ≡ add_exchange s.server (fresh m t)))
exchange_declare_or s m saved =
    let e = exchange_declare_server s m saved in
    elim (Option-cases (exchange_name_to_type m.type_name)) [
      | inl unknown ↦ inl (e ∙ asked_unknown s m unknown)
      | inr (t, typed) ↦ elim (Bool-cases (creates s m t)) [
        | inl made ↦ inr (t, e ∙ asked_put s m t typed made)
        | inr kept ↦ inl (e ∙ asked_kept s m t typed kept)
      ]
    ]
