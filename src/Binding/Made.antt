-- ===== src/Binding/Made.antt =====
-- What NewBinding gives.
use dispatchd.Amqp.Table.{Table, end}
use dispatchd.Binding.{Binding, binding_of, new_binding}
use dispatchd.Binding.Id.{calc_id, write_queue_bind}
use dispatchd.Wire.{write_shortstr, write_short, write_octet, write_longstr}
use dispatchd.Wire.FieldWriter.{write_table, write_value}
use dispatchd.Common.{
  Bool, GoString, List, Option, Option-cases, Outcome-cases, [], arith, done, inl, inr, none, panic,
  refl, some, ℕ, ◌++◌, ◌≡◌, ◌⊎◌,
}

module _ (q e k : GoString) (a : Table) (t : Bool) where
  pub new_binding-cases :
      (new_binding q e k a t ≡ panic)
      ⊎ (new_binding q e k a t ≡ done none)
      ⊎ ((b : Binding) × (binding_of q e k a t ≡ some b) × (new_binding q e k a t ≡ done (some b)))
  unfolding new_binding
  new_binding-cases = elim (Option-cases (binding_of q e k a t)) [
    | inl bad ↦ inr (inl (rw (new_binding, bad) refl))
    | inr (b, made) ↦ elim (Outcome-cases (calc_id q e k a)) [
      | inl (id, hashed) ↦ inr (inr (b, made, rw (new_binding, made, hashed) refl))
      | inr crash ↦ inl (rw (new_binding, made, crash) refl)
    ]
  ]

  pub binding_of-new_binding :
      (b : Binding) → new_binding q e k a t ≡ done (some b) → binding_of q e k a t ≡ some b
  binding_of-new_binding b h = elim new_binding-cases [
    | inl crash ↦ absurd (ground (arith, h, crash))
    | inr (inl bad) ↦ absurd (ground (arith, h, bad))
    | inr (inr (c, made, e)) ↦ ground (arith, h, made, e)
  ]

calc_id-end : (q e k : GoString) → (id : Option (List ℕ)) × (calc_id q e k end ≡ done id)
unfolding calc_id write_queue_bind write_table write_value
calc_id-end q e k = elim (Option-cases (write_shortstr q)) [
  | inl long ↦ (none, rw long refl)
  | inr (qs, f) ↦ elim (Option-cases (write_shortstr e)) [
    | inl long ↦ (none, rw (f, long) refl)
    | inr (es, g) ↦ elim (Option-cases (write_shortstr k)) [
      | inl long ↦ (none, rw (f, g, long) refl)
      | inr (ks, h) ↦ (
        some (write_short 0 ++ (qs ++ (es ++ (ks ++ (write_octet 0 ++ write_longstr []))))),
        rw (f, g, h) refl,
      )
    ]
  ]
]

-- Without arguments the encoding does not panic.
pub new_binding-end :
    (q e k : GoString) (t : Bool) (b : Binding)
    → binding_of q e k end t ≡ some b
    → new_binding q e k end t ≡ done (some b)
unfolding new_binding
new_binding-end q e k t b made =
    let (id, hashed) = calc_id-end q e k in rw (new_binding, made, hashed) refl
