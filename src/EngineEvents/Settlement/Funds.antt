-- ===== src/EngineEvents/Settlement/Funds.antt =====
-- trade-settlement.service.ts: a settlement moves money between wallets and makes or loses none.
use hau_cex.Common.{
  ℕ, ◌≡◌, Bool, true, false, Option, some, ℤ, pos, neg_ℤ, ◌+ℤ◌, ◌-ℤ◌, ◌≤ℤ◌, ◌==◌, if◌then◌else◌,
  int_laws,
}
use hau_cex.Platform.{Platform, FitsPrecision}
use hau_cex.Database.Schema.{Db, TradingPair}
use hau_cex.Database.Table.{find_first}
use hau_cex.Database.Tx.{transaction}
use hau_cex.Wallets.Balance.Totals.{asset_total}
use hau_cex.EngineEvents.Settlement.{
  TradeCreatedPayload, Fresh, pair_has_id, settle_trade, quote_amount, buyer_fee_amount,
  seller_fee_amount,
}
use hau_cex.EngineEvents.Settlement.Validity.{IsValid}
use hau_cex.EngineEvents.Settlement.Measure.{Adds, settled}
use hau_cex.EngineEvents.Settlement.Walk.{legs, settle_trade-Adds}
use hau_cex.EngineEvents.Settlement.Conservation.{assets}

-- What the six movements of a settlement add up to, in units of each asset.
legs_cancel :
    (in_quote in_base : Bool) (quantity quote buyer_fee seller_fee buyer_net seller_net : ℤ)
    → buyer_net ≡ quantity -ℤ buyer_fee
    → seller_net ≡ quote -ℤ seller_fee
    → (if in_quote then pos 0 +ℤ neg_ℤ quote else pos 0)
        +ℤ ((if in_base then buyer_net +ℤ pos 0 else pos 0)
            +ℤ ((if in_base then pos 0 +ℤ neg_ℤ quantity else pos 0)
                +ℤ ((if in_quote then seller_net +ℤ pos 0 else pos 0)
                    +ℤ ((if in_base then buyer_fee +ℤ pos 0 else pos 0)
                        +ℤ (if in_quote then seller_fee +ℤ pos 0 else pos 0)))))
      ≡ pos 0
legs_cancel true true quantity quote bf sf bn sn e f = rw (e, f) (omega int_laws)
legs_cancel true false quantity quote bf sf bn sn e f = rw f (omega int_laws)
legs_cancel false true quantity quote bf sf bn sn e f = rw e (omega int_laws)
legs_cancel false false quantity quote bf sf bn sn e f = omega int_laws

module _ (env : Platform) (treasury_user_id : Option ℕ) (pair : TradingPair)
    (p : TradeCreatedPayload) where
  abbrev buyer_fee : ℤ
  buyer_fee = buyer_fee_amount env treasury_user_id pair p

  abbrev seller_fee : ℤ
  seller_fee = seller_fee_amount env treasury_user_id pair p

  abbrev quote : ℤ
  quote = quote_amount env treasury_user_id p

  -- No fee is negative, and what each side gets after its fee has at most 20 significant digits.
  pub record FeesAreExact : Type 0 where
    pub buyer_nonneg : pos 0 ≤ℤ buyer_fee
    pub seller_nonneg : pos 0 ≤ℤ seller_fee
    pub buyer_fits : FitsPrecision (p.executed_quantity -ℤ buyer_fee)
    pub seller_fits : FitsPrecision (quote -ℤ seller_fee)

  fees_cancel :
      (a buyer seller : ℕ)
      → FeesAreExact
      → legs (assets env a) treasury_user_id p pair buyer seller ≡ pos 0
  fees_cancel a buyer seller f =
      legs_cancel (pair.quote_asset_id == a) (pair.base_asset_id == a) p.executed_quantity quote
        buyer_fee seller_fee _ _ (env.minus_exact _ _ f.buyer_fits)
        (env.minus_exact _ _ f.seller_fits)

  pub settle_trade_adds_nothing :
      (message_id : ℕ) (fresh : Fresh) (a : ℕ) (db : Db)
      → find_first (pair_has_id p.trading_pair_id) db.trading_pairs ≡ some pair
      → FeesAreExact
      → IsValid db
      → Adds (assets env a) (pos 0) db (settle_trade env treasury_user_id p message_id fresh db)
  settle_trade_adds_nothing message_id fresh a db found f v =
      settle_trade-Adds (assets env a) treasury_user_id p pair message_id fresh db found
        (f.buyer_nonneg, f.seller_nonneg)
        λ buy_order sell_order _ _. (
          record { unique = v.unique; solvent = v.solvent; matches = v.matches },
          rw (fees_cancel a buy_order.user_id sell_order.user_id f) (omega int_laws),
        )

  -- A settlement, from a valid database, of a trade whose fees are exact: whether it succeeds or is
  -- rolled back, the wallets of every asset hold together what they held before, treasury included,
  -- no balance is negative, and every balance is the sum of its ledger entries.
  pub settle_trade_conserves :
      (message_id : ℕ) (fresh : Fresh) (a : ℕ) (db : Db)
      → find_first (pair_has_id p.trading_pair_id) db.trading_pairs ≡ some pair
      → FeesAreExact
      → IsValid db
      → let after = (transaction (settle_trade env treasury_user_id p message_id fresh) db).1 in
        IsValid after × (asset_total a after.wallets ≡ asset_total a db.wallets)
  settle_trade_conserves message_id fresh a db found f v =
      settled (assets env a) db (settle_trade env treasury_user_id p message_id fresh db) v
        (settle_trade_adds_nothing message_id fresh a db found f v)
