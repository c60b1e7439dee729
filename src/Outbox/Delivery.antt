-- ===== src/Outbox/Delivery.antt =====
-- outbox-poller.service.ts: a command is marked as published only after it has been sent, whatever
-- calls of Redis and of PostgreSQL fail.
use hau_cex.Common.{
  All-map, ℕ, ◌≡◌, refl, sym, ap, subst, ◌∙◌, Bool, true, false, List, [], ◌∷◌, ◌++◌, String, map,
  append-nil, append_assoc, All, if◌then◌else◌,
}
use hau_cex.Database.Schema.{OutboxEvent}
use hau_cex.Database.Tx.{Result, ok, err}
use hau_cex.Outbox.{
  Poller, Outcome, is_empty, fetch, entry_of, mark_published, mark_failed, publish, publish_rows,
  process_batch, send, update,
}
use hau_cex.Outbox.Sent.{
  IsValid, IsRead, exists-last, IsSent-append, update-UniqueIds, update-IsSent, message_at-update,
  message_found, IsRead-unique, fetch-All, failed-IsSent,
}

module _ (now : ℕ) (row : OutboxEvent) (p : Poller) where
  send-IsValid : IsValid p → IsValid (send row p)
  send-IsValid v = record {
    unique = v.unique;
    sent = IsSent-append (entry_of row) p.sent p.events v.sent;
  }

  failed-IsValid :
      (error : String)
      → IsValid p
      → IsValid (update row.id (mark_failed now error row.retry_count) p)
  failed-IsValid error v = record {
    unique =
        update-UniqueIds (mark_failed now error row.retry_count) (λ e. (refl, refl)) row.id p.events
          v.unique;
    sent =
        update-IsSent (mark_failed now error row.retry_count) (λ e. (refl, refl)) p.sent row.id
          p.events (λ e _. failed-IsSent now error row.retry_count p.sent e) v.sent;
  }

  published-IsValid :
      IsRead p.events row → IsValid p → IsValid (update row.id (mark_published now) (send row p))
  published-IsValid read v = record {
    unique = update-UniqueIds (mark_published now) (λ e. (refl, refl)) row.id p.events v.unique;
    sent =
        update-IsSent (mark_published now) (λ e. (refl, refl)) (p.sent ++ entry_of row ∷ []) row.id
          p.events
          (λ e found _ _.
            rw (message_found row.id p.events e row.message_id found read)
              (exists-last (entry_of row) p.sent))
          (IsSent-append (entry_of row) p.sent p.events v.sent);
  }

publish-IsValid :
    (now : ℕ) (outcome : Outcome) (row : OutboxEvent) (p : Poller)
    → IsRead p.events row
    → IsValid p
    → IsValid (publish now outcome row p).1
publish-IsValid now Outcome.published row p read v = published-IsValid now row p read v
publish-IsValid now (Outcome.redis_failed error) row p read v = failed-IsValid now row p error v
publish-IsValid now (Outcome.postgres_failed error) row p read v =
    failed-IsValid now row (send row p) error (send-IsValid now row p v)
publish-IsValid now (Outcome.redis_lost error) row p read v = v
publish-IsValid now (Outcome.postgres_lost error) row p read v = send-IsValid now row p v

publish-IsRead :
    (now : ℕ) (outcome : Outcome) (row : OutboxEvent) (p : Poller) (rows : List OutboxEvent)
    → All (IsRead p.events) rows
    → All (IsRead (publish now outcome row p).1.events) rows
publish-IsRead now Outcome.published row p rows =
    All-map _ _ rows
      λ x h. message_at-update (mark_published now) (λ e. (refl, refl)) x.id row.id p.events ∙ h
publish-IsRead now (Outcome.redis_failed error) row p rows = All-map _ _ rows λ x h.
    message_at-update (mark_failed now error row.retry_count) (λ e. (refl, refl)) x.id row.id
      p.events
    ∙ h
publish-IsRead now (Outcome.postgres_failed error) row p rows = All-map _ _ rows λ x h.
    message_at-update (mark_failed now error row.retry_count) (λ e. (refl, refl)) x.id row.id
      p.events
    ∙ h
publish-IsRead now (Outcome.redis_lost error) row p rows = λ read. read
publish-IsRead now (Outcome.postgres_lost error) row p rows = λ read. read

publish_rows-IsValid :
    (now : ℕ) (outcome : ℕ → Outcome) (rows : List OutboxEvent) (p : Poller)
    → All (IsRead p.events) rows
    → IsValid p
    → IsValid (publish_rows now outcome rows p).1
unfolding publish_rows
publish_rows-IsValid now outcome [] p read v = v
publish_rows-IsValid now outcome (row ∷ rows) p read v =
    go_on (publish_rows-IsValid now outcome rows) (publish now (outcome row.id) row p)
      (publish-IsRead now (outcome row.id) row p rows read.1)
      (publish-IsValid now (outcome row.id) row p read.0 v)
  where
    go_on :
        ((q : Poller)
          → All (IsRead q.events) rows
          → IsValid q
          → IsValid (publish_rows now outcome rows q).1)
        → (r : Result (Unit {0}) × Poller) → All (IsRead r.1.events) rows
        → IsValid r.1
        → IsValid
            (elim r.0 as (λ _. Result (Unit {0}) × Poller) [
              | ok _ ↦ publish_rows now outcome rows r.1
              | err e ↦ (err e, r.1)
            ]).1
    go_on more (ok _, q) read v = more q read v
    go_on more (err e, q) read v = v

-- What `process_batch` makes of the rows' result.
abbrev outcome_of : Result (Unit {0}) × Poller → Result Bool × Poller
outcome_of r = elim r.0 [ ok _ ↦ (ok true, r.1) | err e ↦ (err e, r.1) ]

outcome_of-poller : (r : Result (Unit {0}) × Poller) → (outcome_of r).1 ≡ r.1
outcome_of-poller (ok _, q) = refl
outcome_of-poller (err e, q) = refl

-- Every row that is marked as PUBLISHED is in the stream, and ids stay unique, after a batch in
-- which any of the calls of Redis and any of the updates may have failed, the update that counts a
-- failure included, whose exception ends the batch.
pub process_batch-IsValid :
    (now : ℕ) (outcome : ℕ → Outcome) (p : Poller)
    → IsValid p
    → IsValid (process_batch now outcome p).1
unfolding process_batch
process_batch-IsValid now outcome p v = of_rows (is_empty (fetch now p.events))
  where
    of_rows :
        (none_due : Bool)
        → IsValid
            (if◌then◌else◌ {A = Result Bool × Poller} none_due
              (ok false, p)
              (outcome_of (publish_rows now outcome (fetch now p.events) p))).1
    of_rows true = v
    of_rows false =
        subst IsValid (sym (outcome_of-poller (publish_rows now outcome (fetch now p.events) p))) (
          publish_rows-IsValid now outcome (fetch now p.events) p
            (fetch-All (IsRead p.events) now p.events (IsRead-unique p.events v.unique)) v)

publish_rows-sent :
    (now : ℕ) (rows : List OutboxEvent) (p : Poller)
    → (publish_rows now (λ _. Outcome.published) rows p).1.sent ≡ p.sent ++ map entry_of rows
unfolding publish_rows
publish_rows-sent now [] p = sym (append-nil p.sent)
publish_rows-sent now (row ∷ rows) p =
    publish_rows-sent now rows (publish now Outcome.published row p).1
    ∙ append_assoc p.sent (entry_of row ∷ []) (map entry_of rows)

-- When no call fails, a batch appends one entry for each of its rows to the stream, in the order in
-- which it took them.
pub process_batch_sends :
    (now : ℕ) (p : Poller)
    → (process_batch now (λ _. Outcome.published) p).1.sent
      ≡ p.sent ++ map entry_of (fetch now p.events)
unfolding process_batch
process_batch_sends now p = of_rows (fetch now p.events)
  where
    of_rows :
        (rows : List OutboxEvent)
        → (if◌then◌else◌ {A = Result Bool × Poller}
            (is_empty rows)
            (ok false, p)
            (outcome_of (publish_rows now (λ _. Outcome.published) rows p))).1.sent
          ≡ p.sent ++ map entry_of rows
    of_rows [] = sym (append-nil p.sent)
    of_rows (row ∷ rows) =
        ap (λ q. q.sent)
          (outcome_of-poller (publish_rows now (λ _. Outcome.published) (row ∷ rows) p))
        ∙ publish_rows-sent now (row ∷ rows) p
