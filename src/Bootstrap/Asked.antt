-- ===== src/Bootstrap/Asked.antt =====
-- open-market.bootstrap.service.ts: the commands that ask for a market, and the rows that are appended.
use hau_cex.Common.{
  ℕ, ◌≡◌, ◌⊎◌, inl, inr, refl, sym, ap, ◌∙◌, true, ◌&&◌, List, [], ◌∷◌, ◌++◌, Option, none, some,
  ==_iff, All, All-map, append-nil, append_assoc, Bool-cases, arith,
}
use hau_cex.Database.Schema.{
  Db, TradingPair, TradingPairStatus, OutboxEvent, OutboxStatus, CommandType,
}
use hau_cex.Database.Table.{exists}
use hau_cex.Bootstrap.{opens, is_open_market, is_key, is_pending}

abbrev pub IsAsked : List OutboxEvent → TradingPair → Type 0
IsAsked es t = exists (opens t.id) es ≡ true

-- One item of a list.
abbrev pub Has {ℓ} : {A : Type ℓ} → (A → Type 0) → List A → Type 0
Has P [] = ⊥
Has P (x ∷ xs) = P x ⊎ Has P xs

-- A command that asks the engine to open the pair and is not sent yet.
abbrev pub AsksFor : TradingPair → OutboxEvent → Type 0
AsksFor t e =
    (e.message_type ≡ CommandType.open_market)
    × (e.partition_key ≡ some t.id)
    × (e.status ≡ OutboxStatus.pending)

-- A pair that is RECOVERING and is asked for.
abbrev pub AsksToRecover : OutboxEvent → TradingPair → Type 0
AsksToRecover e t = (t.status ≡ TradingPairStatus.recovering) × AsksFor t e

opens-AsksFor : (t : TradingPair) (e : OutboxEvent) → opens t.id e ≡ true → AsksFor t e
opens-AsksFor t e h = of_columns e.message_type e.partition_key e.status h
  where
    of_columns :
        (m : CommandType) (k : Option ℕ) (s : OutboxStatus)
        → (is_open_market m && is_key t.id k && is_pending s) ≡ true
        → (m ≡ CommandType.open_market) × (k ≡ some t.id) × (s ≡ OutboxStatus.pending)
    of_columns CommandType.open_market (some k) OutboxStatus.pending h =
        (refl, ap some ((==_iff k t.id).0 (ground (arith, h))), refl)
    of_columns CommandType.open_market (some k) OutboxStatus.published h = ground (arith, h)
    of_columns CommandType.open_market (some k) OutboxStatus.failed h = ground (arith, h)
    of_columns CommandType.open_market none s h = cc
    of_columns CommandType.place_order k s h = cc
    of_columns CommandType.cancel_order k s h = cc

pub IsAsked-Has : (t : TradingPair) (es : List OutboxEvent) → IsAsked es t → Has (AsksFor t) es
IsAsked-Has t [] h = ground (arith, h)
IsAsked-Has t (e ∷ es) h = elim (Bool-cases (opens t.id e)) [
  | inl b ↦ inl (opens-AsksFor t e b)
  | inr b ↦ inr (IsAsked-Has t es (ground (arith, b, h)))
]

All-append {ℓ} :
    {A : Type ℓ} (P : A → Type 0) (xs ys : List A) → All P xs → All P ys → All P (xs ++ ys)
All-append P [] ys h k = k
All-append P (x ∷ xs) ys h k = (h.0, All-append P xs ys h.1 k)

-- Rows of a kind are appended to the outbox.
abbrev pub Appends : (OutboxEvent → Type 0) → Db → Db → Type 0
Appends P db after =
    (added : List OutboxEvent) × (after.outbox_events ≡ db.outbox_events ++ added) × All P added

pub Appends-none : (P : OutboxEvent → Type 0) (db : Db) → Appends P db db
Appends-none P db = ([], sym (append-nil db.outbox_events), tt)

pub Appends-trans :
    (P : OutboxEvent → Type 0) (db d after : Db)
    → Appends P db d
    → Appends P d after
    → Appends P db after
Appends-trans P db d after (xs, e, h) (ys, f, k) = (
  xs ++ ys,
  f ∙ (ap (λ zs. zs ++ ys) e ∙ append_assoc db.outbox_events xs ys),
  All-append P xs ys h k,
)

pub Appends-map :
    (P Q : OutboxEvent → Type 0) (db after : Db)
    → ((e : OutboxEvent) → P e → Q e)
    → Appends P db after
    → Appends Q db after
Appends-map P Q db after f (xs, e, h) = (xs, e, All-map P Q xs f h)

pub exists-append_left :
    (id : ℕ) (e : OutboxEvent) (es : List OutboxEvent)
    → exists (opens id) es ≡ true
    → exists (opens id) (es ++ e ∷ []) ≡ true
exists-append_left id e [] h = cc
exists-append_left id e (x ∷ es) h = ground (arith, exists-append_left id e es)

pub exists-append_last :
    (id : ℕ) (e : OutboxEvent) (es : List OutboxEvent)
    → opens id e ≡ true
    → exists (opens id) (es ++ e ∷ []) ≡ true
exists-append_last id e [] h = rw h refl
exists-append_last id e (x ∷ es) h = ground (arith, exists-append_last id e es)
