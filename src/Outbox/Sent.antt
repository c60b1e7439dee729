-- ===== src/Outbox/Sent.antt =====
-- outbox-poller.service.ts: the rows that are in the stream, through the updates of the outbox.
use hau_cex.Common.{
  ℕ, zero, suc, ◌≡◌, refl, Bool, true, false, List, [], ◌∷◌, ◌++◌, Option, none, some, inl, inr,
  String, ◌==◌, ==_iff, take, filter, All, if◌then◌else◌, Bool-cases, arith,
}
use hau_cex.Database.Schema.{OutboxEvent, OutboxStatus}
use hau_cex.Database.Table.{find_first, update_first, exists}
use hau_cex.Database.Sorting.{order_by-All}
use hau_cex.Outbox.{StreamEntry, Poller, is_due, comes_first, fetch, has_id, mark_failed}

abbrev pub is_entry_of : ℕ → StreamEntry → Bool
is_entry_of message_id x = x.message_id == message_id

abbrev is_published : OutboxStatus → Bool
is_published OutboxStatus.published = true
is_published _ = false

-- A row that is marked as published is in the stream.
abbrev pub IsSent : List StreamEntry → OutboxEvent → Type 0
IsSent sent e = is_published e.status ≡ true → exists (is_entry_of e.message_id) sent ≡ true

abbrev UniqueIds : List OutboxEvent → Type 0
UniqueIds [] = Unit
UniqueIds (e ∷ es) = (exists (has_id e.id) es ≡ false) × UniqueIds es

pub record IsValid (p : Poller) : Type 0 where
  pub unique : UniqueIds p.events
  pub sent : All (IsSent p.sent) p.events

-- The message of the row of an id.
abbrev message_at : ℕ → List OutboxEvent → Option ℕ
message_at id [] = none
message_at id (e ∷ es) = if has_id id e then some e.message_id else message_at id es

-- A row as it was read: the row of its id is there, and of the same message.
abbrev pub IsRead : List OutboxEvent → OutboxEvent → Type 0
IsRead events row = message_at row.id events ≡ some row.message_id

-- An update that leaves the id and the message alone.
abbrev IsUpdate : (OutboxEvent → OutboxEvent) → Type 0
IsUpdate f = (e : OutboxEvent) → ((f e).id ≡ e.id) × ((f e).message_id ≡ e.message_id)

exists-append :
    (id : ℕ) (x : StreamEntry) (xs : List StreamEntry)
    → exists (is_entry_of id) xs ≡ true
    → exists (is_entry_of id) (xs ++ x ∷ []) ≡ true
exists-append id x [] h = cc
exists-append id x (y ∷ xs) h = ground (arith, exists-append id x xs)

pub exists-last :
    (x : StreamEntry) (xs : List StreamEntry)
    → exists (is_entry_of x.message_id) (xs ++ x ∷ []) ≡ true
exists-last x [] = rw ((==_iff x.message_id x.message_id).1 refl) refl
exists-last x (y ∷ xs) = ground (arith, exists-last x xs)

pub IsSent-append :
    (x : StreamEntry) (sent : List StreamEntry) (es : List OutboxEvent)
    → All (IsSent sent) es
    → All (IsSent (sent ++ x ∷ [])) es
IsSent-append x sent [] h = tt
IsSent-append x sent (e ∷ es) h =
    (λ p. exists-append e.message_id x sent (h.0 p), IsSent-append x sent es h.1)

module _ (f : OutboxEvent → OutboxEvent) (same : IsUpdate f) where
  exists-update :
      (id j : ℕ) (es : List OutboxEvent)
      → exists (has_id j) (update_first (has_id id) f es) ≡ exists (has_id j) es
  exists-update id j [] = refl
  exists-update id j (e ∷ es) = ground (arith, (same e).0, exists-update id j es)

  pub update-UniqueIds :
      (id : ℕ) (es : List OutboxEvent) → UniqueIds es → UniqueIds (update_first (has_id id) f es)
  update-UniqueIds id [] h = tt
  update-UniqueIds id (e ∷ es) h =
      ground (arith, (same e).0, exists-update id e.id es, update-UniqueIds id es)

  pub update-IsSent :
      (sent : List StreamEntry) (id : ℕ) (es : List OutboxEvent)
      → ((e : OutboxEvent) → find_first (has_id id) es ≡ some e → IsSent sent e → IsSent sent (f e))
      → All (IsSent sent) es
      → All (IsSent sent) (update_first (has_id id) f es)
  update-IsSent sent id [] k h = tt
  update-IsSent sent id (e ∷ es) k h = elim (Bool-cases (has_id id e)) [
    | inl b ↦ rw b (k e (rw b refl) h.0, h.1)
    | inr b ↦ rw b (h.0, update-IsSent sent id es (λ x q. k x (rw b q)) h.1)
  ]

  pub message_at-update :
      (j id : ℕ) (es : List OutboxEvent)
      → message_at j (update_first (has_id id) f es) ≡ message_at j es
  message_at-update j id [] = refl
  message_at-update j id (e ∷ es) =
      ground (arith, (same e).0, (same e).1, message_at-update j id es)

pub message_found :
    (id : ℕ) (es : List OutboxEvent) (e : OutboxEvent) (m : ℕ)
    → find_first (has_id id) es ≡ some e
    → message_at id es ≡ some m
    → e.message_id ≡ m
message_found id [] e m h g = cc
message_found id (x ∷ es) e m h g = ground (arith, message_found id es e m)

IsRead-cons :
    (e : OutboxEvent) (ys xs : List OutboxEvent)
    → exists (has_id e.id) xs ≡ false
    → All (IsRead ys) xs
    → All (IsRead (e ∷ ys)) xs
IsRead-cons e ys [] n h = tt
IsRead-cons e ys (x ∷ xs) n h = (ground (arith, h.0), IsRead-cons e ys xs (ground arith) h.1)

pub IsRead-unique : (es : List OutboxEvent) → UniqueIds es → All (IsRead es) es
IsRead-unique [] h = tt
IsRead-unique (e ∷ es) h =
    (rw ((==_iff e.id e.id).1 refl) refl, IsRead-cons e es es h.0 (IsRead-unique es h.1))

filter-All {ℓ} :
    {A : Type ℓ} (P : A → Type 0) (p : A → Bool) (xs : List A) → All P xs → All P (filter p xs)
filter-All P p [] h = tt
filter-All P p (x ∷ xs) h = elim (Bool-cases (p x)) [
  | inl b ↦ rw b (h.0, filter-All P p xs h.1)
  | inr b ↦ rw b (filter-All P p xs h.1)
]

take-All {ℓ} : {A : Type ℓ} (P : A → Type 0) (n : ℕ) (xs : List A) → All P xs → All P (take n xs)
take-All P zero xs h = tt
take-All P (suc n) [] h = tt
take-All P (suc n) (x ∷ xs) h = (h.0, take-All P n xs h.1)

pub fetch-All :
    (P : OutboxEvent → Type 0) (now : ℕ) (es : List OutboxEvent) → All P es → All P (fetch now es)
unfolding fetch
fetch-All P now es h =
    take-All P 50 _ (order_by-All comes_first P _ (filter-All P (is_due now) es h))

-- A row that cannot be marked as published was sent before, or is not marked.
pub failed-IsSent :
    (now : ℕ) (error : String) (n : ℕ) (sent : List StreamEntry) (e : OutboxEvent)
    → IsSent sent e
    → IsSent sent (mark_failed now error n e)
failed-IsSent now error n sent e h p = ground (arith, h)
