-- ===== src/Bootstrap/Restart.antt =====
-- open-market.bootstrap.service.ts: a backend that starts again asks for no market a second time.
use hau_cex.Common.{
  ℕ, ◌≡◌, ◌≢◌, ◌⊎◌, inl, inr, refl, sym, subst, ap, ◌∙◌, Bool, true, false, List, [], ◌∷◌, ◌++◌,
  ==_iff, filter, All, Bool-cases, if◌then◌else◌, arith,
}
use hau_cex.Platform.{Platform}
use hau_cex.Database.Schema.{Db, TradingPair, TradingPairStatus, OutboxEvent, CommandType}
use hau_cex.Database.Table.{exists}
use hau_cex.Database.Tx.{Result, ok, err, ◌>>◌, pure, transaction, transaction-ok}
use hau_cex.Orders.Commands.{Fresh, command_row}
use hau_cex.Bootstrap.{
  opens, is_recovering, create_command, open_market_payload, open_market, open_markets,
  bootstrap_markets,
}
use hau_cex.Bootstrap.Asked.{
  IsAsked, Has, AsksFor, AsksToRecover, IsAsked-Has, Appends, Appends-none, Appends-trans,
  Appends-map, exists-append_left, exists-append_last,
}

is_recovering-status :
    (t : TradingPair) → is_recovering t ≡ true → t.status ≡ TradingPairStatus.recovering
is_recovering-status t h = ground (arith, h)

module _ (env : Platform) where
  -- A step of one pair: the pair is asked for, what was asked for still is, and the pairs are kept.
  record Asks (t : TradingPair) (db after : Db) : Type 0 where
    pub asked : IsAsked after.outbox_events t
    pub added : Appends (AsksFor t) db after
    pub kept : (u : TradingPair) → IsAsked db.outbox_events u → IsAsked after.outbox_events u
    pub pairs : after.trading_pairs ≡ db.trading_pairs

  abbrev row : TradingPair → Fresh → Db → OutboxEvent
  row t fresh db =
      command_row fresh CommandType.open_market t.id (db.cmd_seq t.id)
        (open_market_payload env t fresh.now)

  created :
      (t : TradingPair) (fresh : Fresh) (db : Db)
      → (create_command env t fresh db).0 ≡ ok tt
      → ((create_command env t fresh db).1.outbox_events ≡ db.outbox_events ++ row t fresh db ∷ [])
        × ((create_command env t fresh db).1.trading_pairs ≡ db.trading_pairs)
  created t fresh db h = ground arith

  row-opens : (t : TradingPair) (fresh : Fresh) (db : Db) → opens t.id (row t fresh db) ≡ true
  row-opens t fresh db = rw ((==_iff t.id t.id).1 refl) refl

  create_command-Asks :
      (t : TradingPair) (fresh : Fresh) (db : Db)
      → (create_command env t fresh db).0 ≡ ok tt
      → Asks t db (create_command env t fresh db).1
  create_command-Asks t fresh db h =
      let (outbox, pairs) = created t fresh db h in
      record {
        asked =
            rw outbox
              (exists-append_last t.id (row t fresh db) db.outbox_events (row-opens t fresh db));
        added = (row t fresh db ∷ [], outbox, ((refl, refl, refl), tt));
        kept = λ u k. rw outbox (exists-append_left u.id (row t fresh db) db.outbox_events k);
        pairs = pairs;
      }

  open_market-Asks :
      (t : TradingPair) (fresh : Fresh) (db : Db)
      → (open_market env t fresh db).0 ≡ ok tt
      → Asks t db (open_market env t fresh db).1
  unfolding open_market
  open_market-Asks t fresh db h = of_existing (exists (opens t.id) db.outbox_events) refl h
    where
      of_existing :
          (there : Bool)
          → exists (opens t.id) db.outbox_events ≡ there
          → ((if there then pure tt else create_command env t fresh) db).0 ≡ ok tt
          → Asks t db ((if there then pure tt else create_command env t fresh) db).1
      of_existing true e done = record {
        asked = e;
        added = Appends-none (AsksFor t) db;
        kept = λ u k. k;
        pairs = refl;
      }
      of_existing false e done = create_command-Asks t fresh db done

  -- What the pairs of a list were asked for, all of them.
  record AskedAll (ts : List TradingPair) (db after : Db) : Type 0 where
    pub all : All (IsAsked after.outbox_events) ts
    pub added : Appends (λ e. Has (λ t. AsksFor t e) ts) db after
    pub kept : (u : TradingPair) → IsAsked db.outbox_events u → IsAsked after.outbox_events u
    pub pairs : after.trading_pairs ≡ db.trading_pairs

  open_markets-AskedAll :
      (fresh : ℕ → Fresh) (ts : List TradingPair) (db : Db)
      → (open_markets env fresh ts db).0 ≡ ok tt
      → AskedAll ts db (open_markets env fresh ts db).1
  unfolding open_markets
  open_markets-AskedAll fresh [] db h = record {
    all = tt;
    added = Appends-none _ db;
    kept = λ u k. k;
    pairs = refl;
  }
  open_markets-AskedAll fresh (t ∷ ts) db h =
      go_on (transaction (open_market env t (fresh t.id)) db) first (open_markets-AskedAll fresh ts)
        h
    where
      first :
          (transaction (open_market env t (fresh t.id)) db).0 ≡ ok tt
          → Asks t db (transaction (open_market env t (fresh t.id)) db).1
      first done =
          let same = transaction-ok (open_market env t (fresh t.id)) db tt done in
          rw same (open_market-Asks t (fresh t.id) db (ap (λ r. r.0) (sym same) ∙ done))

      go_on :
          (r : Result (Unit {0}) × Db)
          → (r.0 ≡ ok tt → Asks t db r.1)
          → ((d : Db)
              → (open_markets env fresh ts d).0 ≡ ok tt
              → AskedAll ts d (open_markets env fresh ts d).1)
          → (((λ _. r) >> open_markets env fresh ts) db).0 ≡ ok tt
          → AskedAll (t ∷ ts) db (((λ _. r) >> open_markets env fresh ts) db).1
      go_on (err e, after) asks others done = cc
      go_on (ok _, after) asks others done =
          let rest = others after done in
          let a = asks refl in
          record {
            all = (rest.kept t a.asked, rest.all);
            added =
                Appends-trans (λ e. Has (λ u. AsksFor u e) (t ∷ ts)) db after
                  (open_markets env fresh ts after).1
                  (Appends-map (AsksFor t) (λ e. Has (λ u. AsksFor u e) (t ∷ ts)) db after
                    (λ e h. inl h) a.added)
                  (Appends-map (λ e. Has (λ u. AsksFor u e) ts)
                    (λ e. Has (λ u. AsksFor u e) (t ∷ ts)) after (open_markets env fresh ts after).1
                    (λ e h. inr h) rest.added);
            kept = λ u k. rest.kept u (a.kept u k);
            pairs = rest.pairs ∙ a.pairs;
          }

  asked_already :
      (t : TradingPair) (fresh : Fresh) (db : Db)
      → IsAsked db.outbox_events t
      → transaction (open_market env t fresh) db ≡ (ok tt, db)
  unfolding open_market
  asked_already t fresh db h = rw h refl

  nothing_new :
      (fresh : ℕ → Fresh) (ts : List TradingPair) (db : Db)
      → All (IsAsked db.outbox_events) ts
      → open_markets env fresh ts db ≡ (ok tt, db)
  unfolding open_markets
  nothing_new fresh [] db h = refl
  nothing_new fresh (t ∷ ts) db h =
      ap (λ r. ((λ _. r) >> open_markets env fresh ts) db) (asked_already t (fresh t.id) db h.0)
      ∙ nothing_new fresh ts db h.1

  of_filter :
      (es : List OutboxEvent) (ts : List TradingPair)
      → All (IsAsked es) (filter is_recovering ts)
      → All (λ t. (t.status ≢ TradingPairStatus.recovering) ⊎ Has (AsksFor t) es) ts
  of_filter es [] h = tt
  of_filter es (t ∷ ts) h = elim (Bool-cases (is_recovering t)) [
    | inl b ↦
        let (asked, others) = subst (All (IsAsked es)) (filter_true b) h in
        (inr (IsAsked-Has t es asked), of_filter es ts others)
    | inr b ↦ (
      inl (λ s. ground (arith, b, s)),
      of_filter es ts (subst (All (IsAsked es)) (filter_false b) h),
    )
  ]
    where
      filter_true :
          is_recovering t ≡ true → filter is_recovering (t ∷ ts) ≡ t ∷ filter is_recovering ts
      filter_true b = rw b refl

      filter_false :
          is_recovering t ≡ false → filter is_recovering (t ∷ ts) ≡ filter is_recovering ts
      filter_false b = rw b refl

  Has-filter :
      (e : OutboxEvent) (ts : List TradingPair)
      → Has (λ t. AsksFor t e) (filter is_recovering ts)
      → Has (AsksToRecover e) ts
  Has-filter e [] h = h
  Has-filter e (t ∷ ts) h = of_status (is_recovering t) refl (Has-filter e ts) h
    where
      of_status :
          (b : Bool)
          → is_recovering t ≡ b
          → (Has (λ u. AsksFor u e) (filter is_recovering ts) → Has (AsksToRecover e) ts)
          → Has
              (λ u. AsksFor u e)
              (if b then t ∷ filter is_recovering ts else filter is_recovering ts)
          → Has (AsksToRecover e) (t ∷ ts)
      of_status true r more (inl a) = inl (is_recovering-status t r, a)
      of_status true r more (inr a) = inr (more a)
      of_status false r more a = inr (more a)

  -- A bootstrap that succeeds leaves the pairs as they are, and for every pair that is RECOVERING
  -- the outbox then has a PENDING OpenMarket command of the pair. What was in the outbox stays; each
  -- row that is appended is a PENDING OpenMarket command of a pair that is RECOVERING. A second
  -- bootstrap, before the commands are published, changes nothing.
  pub bootstrap_markets_once :
      (fresh again : ℕ → Fresh) (db : Db)
      → (bootstrap_markets env fresh db).0 ≡ ok tt
      → let after = (bootstrap_markets env fresh db).1 in
        (after.trading_pairs ≡ db.trading_pairs)
        × All
            (λ t. (t.status ≢ TradingPairStatus.recovering) ⊎ Has (AsksFor t) after.outbox_events)
            db.trading_pairs
        × Appends (λ e. Has (AsksToRecover e) db.trading_pairs) db after
        × (bootstrap_markets env again after ≡ (ok tt, after))
  unfolding bootstrap_markets
  bootstrap_markets_once fresh again db h =
      let asked = open_markets-AskedAll fresh (filter is_recovering db.trading_pairs) db h in
      let after = (open_markets env fresh (filter is_recovering db.trading_pairs) db).1 in
      let all =
        subst (λ ps. All (IsAsked after.outbox_events) (filter is_recovering ps)) (sym asked.pairs)
          asked.all in
      (
        asked.pairs,
        of_filter after.outbox_events db.trading_pairs asked.all,
        Appends-map _ _ db after (λ e. Has-filter e db.trading_pairs) asked.added,
        nothing_new again (filter is_recovering after.trading_pairs) after all,
      )
