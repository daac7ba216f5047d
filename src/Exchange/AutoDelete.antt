-- ===== src/Exchange/AutoDelete.antt =====
-- When an exchange starts its auto-delete timeout, and when that timeout has no effect.
use dispatchd.Binding.{Binding, equals}
use dispatchd.Exchange.{
  Exchange, has_binding, add_binding, remove_first, remove_binding, is_nil, autodelete_start,
  autodelete_fires,
}
use dispatchd.Common.{List, [], arith, false, refl, true, ℕ, ◌<◌, ◌↔◌, ◌∷◌, ◌≡◌}

only :
    (bs : List Binding) (b : Binding)
    → has_binding b bs ≡ true
    → is_nil (remove_first b bs) ≡ true
    → (c : Binding) × (bs ≡ c ∷ []) × (equals b c ≡ true)
unfolding has_binding remove_first is_nil
only [] b h n = absurd (ground arith)
only (c ∷ []) b h n = (c, refl, ground arith)
only (c ∷ d ∷ bs) b h n = absurd (ground arith)

one_removed :
    (b c : Binding)
    → equals b c ≡ true
    → (has_binding b (c ∷ []) ≡ true) × (remove_first b (c ∷ []) ≡ [])
unfolding has_binding remove_first
one_removed b c h = ground arith

-- RemoveBinding starts the timeout exactly if the exchange is auto-delete and had one binding, which
-- was the one to remove.
pub remove_binding-starts :
    (ex : Exchange) (b : Binding)
    → ((remove_binding ex b).1 ≡ true)
      ↔ ((ex.auto_delete ≡ true) × ((c : Binding) × (ex.bindings ≡ c ∷ []) × (equals b c ≡ true)))
unfolding remove_binding is_nil
remove_binding-starts ex b = (
  λ h. (ground arith, only ex.bindings b (ground arith) (ground arith)),
  λ h. let (c, e, q) = h.1 in rw e (ground (arith, one_removed b c q)),
)

-- A binding that an auto-delete exchange lacks and that is added during the pause keeps the
-- timeout from deleting the exchange.
pub autodelete_cancelled :
    (ex : Exchange) (b : Binding) (now : ℕ)
    → ex.auto_delete ≡ true
    → has_binding b ex.bindings ≡ false
    → 0 < now
    → autodelete_fires (add_binding (autodelete_start ex now) b) now ≡ false
unfolding autodelete_fires add_binding autodelete_start
autodelete_cancelled ex b now a n h = ground arith
