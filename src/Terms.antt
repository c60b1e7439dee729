-- ===== src/Terms.antt =====
-- The columns of an order that are fixed when it is placed, through orders.service.ts,
-- engine-event-consumer.service.ts, trade-settlement.service.ts and order-cancellation.service.ts of
-- apps/backend/src/modules.
pub mod Trades
pub mod Messages
use hau_cex.Common.{
  ℕ, ◌≡◌, ◌≢◌, ◌⊎◌, refl, sym, subst, ap, ◌∙◌, Bool, true, false, List, [], ◌∷◌, ◌++◌, none, some,
  inl, inr, pos, ◌==◌, ==_iff, Bool-cases, arith, if◌then◌else◌,
}
use hau_cex.Database.Schema.{Db, Order, OrderStatus}
use hau_cex.Database.Table.{
  find_first, update_first, update_many, find_first_holds, find_first-update_self,
  find_first-update_ne, find_first-update_many,
}
use hau_cex.EngineEvents.Settlement.{order_has_id}

-- An order with the columns blank that a fill, an answer of the engine or a cancellation changes.
abbrev pub terms : Order → Order
terms o = record o {
  status = OrderStatus.pending;
  filled_quantity = pos 0;
  remaining_quantity = pos 0;
  remaining_locked_amount = pos 0;
}

-- The same order, which is PENDING only if it was before.
abbrev pub Keeps : Order → Order → Type 0
Keeps o o' =
    (terms o' ≡ terms o) × ((o.status ≡ OrderStatus.pending) ⊎ (o'.status ≢ OrderStatus.pending))

status-cases : (s : OrderStatus) → (s ≡ OrderStatus.pending) ⊎ (s ≢ OrderStatus.pending)
status-cases OrderStatus.pending = inl refl
status-cases OrderStatus.open_ = inr (λ e. cc)
status-cases OrderStatus.partially_filled = inr (λ e. cc)
status-cases OrderStatus.filled = inr (λ e. cc)
status-cases OrderStatus.cancel_pending = inr (λ e. cc)
status-cases OrderStatus.cancelled = inr (λ e. cc)
status-cases OrderStatus.rejected = inr (λ e. cc)

Keeps-refl : (o : Order) → Keeps o o
Keeps-refl o = (refl, status-cases o.status)

Keeps-trans : (o p q : Order) → Keeps o p → Keeps p q → Keeps o q
Keeps-trans o p q (e, inl s) (f, t) = (f ∙ e, inl s)
Keeps-trans o p q (e, inr s) (f, inl t) = absurd (s t)
Keeps-trans o p q (e, inr s) (f, inr t) = (f ∙ e, inr t)

-- Every order of the first table is in the second, as the same order.
pub record Follows (before after : List Order) : Type 0 where
  pub order :
      (id : ℕ) (o : Order)
      → find_first (order_has_id id) before ≡ some o
      → (o' : Order) × (find_first (order_has_id id) after ≡ some o') × Keeps o o'

pub Follows-refl : (os : List Order) → Follows os os
Follows-refl os = record { order = λ id o e. (o, e, Keeps-refl o) }

pub Follows-trans : (os ps qs : List Order) → Follows os ps → Follows ps qs → Follows os qs
Follows-trans os ps qs h k = record {
  order = λ id o e.
      let (p, found, first) = h.order id o e in
      let (q, found', second) = k.order id p found in (q, found', Keeps-trans o p q first second);
}

-- The row of an id is updated.
pub update_first-Follows :
    (id : ℕ) (f : Order → Order) (os : List Order)
    → ((o : Order) → (f o).id ≡ o.id)
    → ((o : Order) → Keeps o (f o))
    → Follows os (update_first (order_has_id id) f os)
update_first-Follows id f os same may = record { order = order }
  where
    order :
        (j : ℕ) (o : Order)
        → find_first (order_has_id j) os ≡ some o
        → (o' : Order) × (find_first (order_has_id j) (update_first (order_has_id id) f os)
            ≡ some o')
          × Keeps o o'
    order j o e = elim (Bool-cases (j == id)) [
      | inl here ↦
          let at : j ≡ id = (==_iff j id).0 here in
          (
            f o,
            subst
                (λ i. find_first (order_has_id j) (update_first (order_has_id i) f os) ≡ some (f o))
                at
                (find_first-update_self (order_has_id j) f os o (λ y. ap (λ i. i == j) (same y)) e),
            may o,
          )
      | inr there ↦ (
        o,
        find_first-update_ne (order_has_id j) (order_has_id id) f os
              (λ y. ap (λ i. i == j) (same y)) (λ y h. ground (arith, there))
            ∙ e,
        Keeps-refl o,
      )
    ]

pub update_many-Follows :
    (q : Order → Bool) (f : Order → Order) (os : List Order)
    → ((o : Order) → (f o).id ≡ o.id)
    → ((o : Order) → q o ≡ true → Keeps o (f o))
    → Follows os (update_many q f os)
update_many-Follows q f os same may = record {
  order = λ j o e. (
    if q o then f o else o,
    find_first-update_many (order_has_id j) q f os o (λ y. ap (λ i. i == j) (same y)) e,
    elim (Bool-cases (q o)) [ inl yes_ ↦ rw yes_ (may o yes_) | inr no_ ↦ rw no_ (Keeps-refl o) ],
  );
}

find_first-append :
    (p : Order → Bool) (os ps : List Order) (o : Order)
    → find_first p os ≡ some o
    → find_first p (os ++ ps) ≡ some o
find_first-append p [] ps o e = cc
find_first-append p (x ∷ os) ps o e = ground (arith, find_first-append p os ps o)

pub append-Follows : (os ps : List Order) → Follows os (os ++ ps)
append-Follows os ps = record {
  order = λ j o e. (o, find_first-append (order_has_id j) os ps o e, Keeps-refl o);
}
