-- ===== src/Outbox/Retry.antt =====
-- outbox-poller.service.ts: a command that cannot be published.
use hau_cex.Common.{
  ℕ, zero, suc, ◌+◌, ◌*◌, ◌^◌, ◌<◌, ◌≤◌, ◌≡◌, refl, false, some, String, leb, if◌then◌else◌, arith,
}
use hau_cex.Database.Schema.{OutboxEvent, OutboxStatus}
use hau_cex.Outbox.{is_due, delay_seconds, second, mark_failed}

module _ (times : ℕ → ℕ) (errors : ℕ → String) where
  -- The row after so many failures, each of the row as the one before has left it.
  abbrev pub fails : ℕ → OutboxEvent → OutboxEvent
  fails zero e = e
  fails (suc k) e = let f = fails k e in mark_failed (times k) (errors k) f.retry_count f

  abbrev pub status_after : ℕ → OutboxStatus
  status_after k = if leb 5 k then OutboxStatus.failed else OutboxStatus.pending

  retries : (k : ℕ) (e : OutboxEvent) → e.retry_count ≡ 0 → (fails k e).retry_count ≡ k
  retries zero e h = h
  retries (suc k) e h = omega (arith, retries k e h)

  statuses :
      (k : ℕ) (e : OutboxEvent)
      → e.retry_count ≡ 0
      → e.status ≡ OutboxStatus.pending
      → (fails k e).status ≡ status_after k
  statuses zero e h s = s
  statuses (suc k) e h s = ground (arith, retries k e h, statuses k e h s)

  delay : (k : ℕ) → k < 5 → delay_seconds k ≡ 2 ^ k
  delay zero h = refl
  delay (suc zero) h = refl
  delay (suc (suc zero)) h = refl
  delay (suc (suc (suc zero))) h = refl
  delay (suc (suc (suc (suc zero)))) h = refl
  delay (suc (suc (suc (suc (suc k))))) h = absurd (omega (arith, h))

  -- A command that has failed `k` times is PENDING for the next try up to its fourth failure and
  -- FAILED from its fifth on, and then is never due again. After its first five failures it waits
  -- 1, 2, 4, 8 and 16 seconds, so the limit of 32 seconds is never reached.
  pub fails_five_times :
      (k : ℕ) (e : OutboxEvent)
      → e.retry_count ≡ 0
      → e.status ≡ OutboxStatus.pending
      → ((fails k e).retry_count ≡ k)
        × ((fails k e).status ≡ status_after k)
        × (5 ≤ k → (now : ℕ) → is_due now (fails k e) ≡ false)
        × (k < 5 → (fails (suc k) e).next_retry_at ≡ some (times k + 2 ^ k * second))
  fails_five_times k e h s = (
    retries k e h,
    statuses k e h s,
    λ five now. rw (statuses k e h s) (ground (arith, five)),
    λ more. rw (retries k e h, delay k more) refl,
  )
