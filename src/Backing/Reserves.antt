-- ===== src/Backing/Reserves.antt =====
-- What the orders have locked, after an update of one of them.
use hau_cex.Common.{
  ℕ, ◌≡◌, ap, some-injective, pos_part, neg_part, List, [], ◌∷◌, ◌++◌, some, inl, inr, map, ℤ, pos,
  ◌+ℤ◌, ◌≤ℤ◌, ◌&&◌, ◌==◌, All, if◌then◌else◌, Bool-cases, int_laws, arith,
}
use hau_cex.Database.Schema.{Order}
use hau_cex.Database.Table.{find_first, update_first}
use hau_cex.EngineEvents.Settlement.{order_has_id}
use hau_cex.EngineEvents.Settlement.Measure.{Lock, lock_of}
use hau_cex.Backing.{reserved, IsReserve}
use hau_cex.Backing.Gap.{counted_at}

swap_last : (x r y : ℤ) → x +ℤ r +ℤ y ≡ y +ℤ r +ℤ x
swap_last x r y = omega int_laws

under_first : (x r s y z : ℤ) → r +ℤ y ≡ s +ℤ z → (x +ℤ r) +ℤ y ≡ (x +ℤ s) +ℤ z
under_first x r s y z e = omega (int_laws, ap pos_part e, ap neg_part e)

module _ (id : ℕ) (f : Order → Order) (o : Order) where
  pub reserved-update :
      (u a : ℕ) (os : List Order)
      → find_first (order_has_id id) os ≡ some o
      → (f o).user_id ≡ o.user_id
      → (f o).locked_asset_id ≡ o.locked_asset_id
      → reserved u a (map lock_of (update_first (order_has_id id) f os))
          +ℤ counted_at u a o.user_id o.locked_asset_id o.remaining_locked_amount
        ≡ reserved u a (map lock_of os)
          +ℤ counted_at u a o.user_id o.locked_asset_id (f o).remaining_locked_amount
  reserved-update u a [] e own asset = cc
  reserved-update u a (x ∷ os) e own asset = elim (Bool-cases (x.id == id)) [
    | inl here ↦
        rw (here, some-injective _ _ (rw here at e), own, asset)
          (swap_last _ (reserved u a (map lock_of os)) _)
    | inr there ↦
        rw there (under_first _ _ _ _ _ (reserved-update u a os (rw there at e) own asset))
  ]

  pub reserves-update :
      (os : List Order)
      → find_first (order_has_id id) os ≡ some o
      → pos 0 ≤ℤ (f o).remaining_locked_amount
      → All IsReserve (map lock_of os)
      → All IsReserve (map lock_of (update_first (order_has_id id) f os))
  reserves-update [] e h r = tt
  reserves-update (x ∷ os) e h r = ground (arith, reserves-update os)

pub reserve_found :
    (id : ℕ) (os : List Order) (o : Order)
    → find_first (order_has_id id) os ≡ some o
    → All IsReserve (map lock_of os)
    → pos 0 ≤ℤ o.remaining_locked_amount
reserve_found id [] o e r = cc
reserve_found id (x ∷ os) o e r = ground (arith, reserve_found id os o)

pub reserved-append :
    (u a : ℕ) (ls : List Lock) (l : Lock)
    → reserved u a (ls ++ l ∷ []) ≡ reserved u a ls +ℤ (if l.0 == u && l.1 == a then l.2 else pos 0)
reserved-append u a [] l = omega int_laws
reserved-append u a (x ∷ ls) l = rw (reserved-append u a ls l) (omega int_laws)

pub reserves-append :
    (ls : List Lock) (l : Lock) → All IsReserve ls → IsReserve l → All IsReserve (ls ++ l ∷ [])
reserves-append [] l r h = (h, tt)
reserves-append (x ∷ ls) l r h = (r.0, reserves-append ls l r.1 h)
