-- ===== src/System/Safety.antt =====
-- What holds in every state that the backend comes to.
use hau_cex.Common.{ℕ, ◌≡◌, refl, ap, ◌∙◌, map, Option}
use hau_cex.Platform.{Platform}
use hau_cex.Database.Schema.{Db}
use hau_cex.Wallets.Balance.Totals.{asset_total}
use hau_cex.EngineEvents.Messages.{Codec}
use hau_cex.EngineEvents.Settlement.Measure.{lock_of}
use hau_cex.Orders.Place.Conservation.{place_order_conserves}
use hau_cex.Auth.{AuthPlatform}
use hau_cex.Backing.{IsBacked}
use hau_cex.Backing.Gap.{same_backing}
use hau_cex.Backing.Placement.{place_order-IsBacked, cancel_order-IsBacked, cancel_order-wallets}
use hau_cex.Backing.Messages.{IsHonest, handle_message-IsBacked, handle_message-total}
use hau_cex.System.{System, Step, Reach, consumer_of}
use hau_cex.System.Frames.{
  money, bootstrap_markets-money, register-money, login-money, refresh-money, logout-money,
}

-- The database is backed, and the users hold together of each asset what they held in `first`.
record IsKept (first db : Db) : Type 0 where
  pub backed : IsBacked db
  pub totals : (a : ℕ) → asset_total a db.wallets ≡ asset_total a first.wallets

-- A step that touches no money.
unmoved : (first db after : Db) → IsKept first db → money after ≡ money db → IsKept first after
unmoved first db after k e = record {
  backed =
      same_backing db after (ap (λ m. m.0) e) (ap (λ m. m.1) e) (ap (λ m. map lock_of m.2) e)
        k.backed;
  totals = λ a. ap (λ m. asset_total a m.0) e ∙ k.totals a;
}

module _ {env : Platform} {codec : Codec} {treasury_user_id : Option ℕ} {auth : AuthPlatform} where
  Step-IsKept :
      {first : Db} {s t : System}
      → Step env codec treasury_user_id auth (IsHonest env codec treasury_user_id) s t
      → IsKept first s.db
      → IsKept first t.db
  Step-IsKept {first} {s} (Step.placed order_id user_id key dto fresh) k = record {
    backed = place_order-IsBacked env order_id user_id key dto fresh s.db k.backed;
    totals = λ a.
        (place_order_conserves env order_id user_id key dto fresh a s.db k.backed.valid).1
        ∙ k.totals a;
  }
  Step-IsKept {first} {s} (Step.cancel_requested user_id order_id fresh) k = record {
    backed = cancel_order-IsBacked user_id order_id fresh s.db k.backed;
    totals =
        λ a. ap (asset_total a) (cancel_order-wallets user_id order_id fresh s.db) ∙ k.totals a;
  }
  Step-IsKept {first} {s} (Step.delivered ms) k = k
  Step-IsKept {first} {s} (Step.handled m fresh honest) k = record {
    backed =
        handle_message-IsBacked env codec treasury_user_id fresh m (consumer_of s) honest k.backed;
    totals = λ a.
        handle_message-total env codec treasury_user_id fresh m (consumer_of s) honest k.backed a
        ∙ k.totals a;
  }
  Step-IsKept {first} {s} (Step.polled now outcome) k = unmoved first s.db _ k refl
  Step-IsKept {first} {s} (Step.started fresh) k =
      unmoved first s.db _ k (bootstrap_markets-money env fresh s.db)
  Step-IsKept {first} {s} (Step.registered dto fresh) k =
      unmoved first s.db _ k (register-money auth dto fresh s.db)
  Step-IsKept {first} {s} (Step.logged_in dto fresh) k =
      unmoved first s.db _ k (login-money auth dto fresh s.db)
  Step-IsKept {first} {s} (Step.refreshed token fresh) k =
      unmoved first s.db _ k (refresh-money auth token fresh s.db)
  Step-IsKept {first} {s} (Step.logged_out session_id now) k =
      unmoved first s.db _ k (logout-money auth session_id now s.db)

  Reach-IsKept :
      {s t : System}
      → Reach env codec treasury_user_id auth (IsHonest env codec treasury_user_id) s t
      → IsBacked s.db
      → IsKept s.db t.db
  Reach-IsKept {s} Reach.start b = record { backed = b; totals = λ a. refl }
  Reach-IsKept (Reach.later r step) b = Step-IsKept step (Reach-IsKept r b)

  -- In every state that the backend comes to from one whose database is backed, by any sequence of
  -- requests, honest messages of the engine, batches of the outbox and starts: each user's locked
  -- balance of each asset is what the user's orders have locked of it, no balance is negative, every
  -- balance is the sum of its ledger entries, and the users hold together of each asset what they
  -- held at the beginning.
  pub reachable_is_backed :
      {s t : System}
      → Reach env codec treasury_user_id auth (IsHonest env codec treasury_user_id) s t
      → IsBacked s.db
      → IsBacked t.db × ((a : ℕ) → asset_total a t.db.wallets ≡ asset_total a s.db.wallets)
  reachable_is_backed r b = let k = Reach-IsKept r b in (k.backed, k.totals)
