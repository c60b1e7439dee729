-- ===== src/EngineEvents/Consumer/Drain.antt =====
-- engine-event-consumer.service.ts: `drainPending` comes to an end.
use hau_cex.Common.{
  ℕ, zero, suc, ◌≤◌, ◌≡◌, refl, Bool, not, List, [], ◌∷◌, Option, some, ◌==◌, ==_iff, length, take,
  filter, arith,
}
use hau_cex.Platform.{Platform}
use hau_cex.Database.Tx.{Result, ok, err}
use hau_cex.EngineEvents.Settlement.{Fresh}
use hau_cex.EngineEvents.Messages.{Message, Codec, State}
use hau_cex.EngineEvents.Consumer.{handle_message, handle_messages, drain_from, drain_pending}
use hau_cex.EngineEvents.Consumer.Delivery.{handle_message_acks}

length-filter : {A : Type 0} (p : A → Bool) (xs : List A) → length (filter p xs) ≤ length xs
length-filter p [] = omega arith
length-filter p (x ∷ xs) = ground (arith, length-filter p xs)

module _ (env : Platform) (codec : Codec) (treasury_user_id : Option ℕ) (fresh : ℕ → Fresh) where
  -- At most so many messages are left pending.
  abbrev Leaves : ℕ → Result (Unit {0}) × State → Type 0
  Leaves n after = after.0 ≡ ok tt → length after.1.redis.pending ≤ n

  abbrev go_on : List Message → Result (Unit {0}) × State → Result (Unit {0}) × State
  go_on ms r = elim r.0 [
    | ok _ ↦ handle_messages env codec treasury_user_id fresh ms r.1
    | err e ↦ (err e, r.1)
  ]

  after_first :
      (n : ℕ) (r : Result (Unit {0}) × State) (ms : List Message)
      → Leaves n r
      → Leaves (length r.1.redis.pending) (handle_messages env codec treasury_user_id fresh ms r.1)
      → Leaves n (go_on ms r)
  after_first n (err e, s') ms h k = λ done. cc
  after_first n (ok _, s') ms h k = λ done. omega (arith, h refl, k done)

  -- A batch delivers nothing new.
  handle_messages-Leaves :
      (ms : List Message) (s : State)
      → Leaves (length s.redis.pending) (handle_messages env codec treasury_user_id fresh ms s)
  unfolding handle_messages
  handle_messages-Leaves [] s = λ done. omega arith
  handle_messages-Leaves (m ∷ ms) s =
      let after = handle_message env codec treasury_user_id (fresh m.id) m s in
      after_first (length s.redis.pending) after ms
        (λ done.
          rw ((handle_message_acks env codec treasury_user_id (fresh m.id) m s).0 done)
            (length-filter (λ x. not (x.id == m.id)) s.redis.pending))
        (handle_messages-Leaves ms after.1)

  filter_first :
      (m : Message) (waiting : List Message)
      → length (filter (λ x. not (x.id == m.id)) (m ∷ waiting)) ≤ length waiting
  filter_first m waiting = rw ((==_iff m.id m.id).1 refl) (length-filter _ waiting)

  -- A batch that starts with the first pending message leaves fewer.
  first_done :
      (m : Message) (waiting ms : List Message) (s : State)
      → s.redis.pending ≡ m ∷ waiting
      → Leaves (length waiting) (handle_messages env codec treasury_user_id fresh (m ∷ ms) s)
  unfolding handle_messages
  first_done m waiting ms s e =
      let after = handle_message env codec treasury_user_id (fresh m.id) m s in
      after_first (length waiting) after ms
        (λ done.
          rw ((handle_message_acks env codec treasury_user_id (fresh m.id) m s).0 done, e)
            (filter_first m waiting))
        (handle_messages-Leaves ms after.1)

  -- Where a drain ends.
  abbrev Ends : Option (Result (Unit {0}) × State) → Type 0
  Ends drained =
      (r : Result (Unit {0}) × State) × (drained ≡ some r) × (r.0 ≡ ok tt → r.1.redis.pending ≡ [])

  next_round :
      (fuel : ℕ) (r : Result (Unit {0}) × State)
      → Leaves fuel r
      → ((s : State)
          → length s.redis.pending ≤ fuel
          → Ends (drain_from env codec treasury_user_id fuel fresh s s.redis.pending))
      → Ends (elim r.0 [
        | ok _ ↦ drain_from env codec treasury_user_id fuel fresh r.1 r.1.redis.pending
        | err e ↦ some (err e, r.1)
      ])
  next_round fuel (err e, s) h k = ((err e, s), refl, λ done. cc)
  next_round fuel (ok _, s) h k = k s (h refl)

  drain_from-Ends :
      (fuel : ℕ) (s : State) (waiting : List Message)
      → s.redis.pending ≡ waiting
      → length waiting ≤ fuel
      → Ends (drain_from env codec treasury_user_id fuel fresh s waiting)
  unfolding drain_from
  drain_from-Ends fuel s [] e h = ((ok tt, s), refl, λ done. e)
  drain_from-Ends zero s (m ∷ ms) e h = absurd (omega (arith, h))
  drain_from-Ends (suc fuel) s (m ∷ ms) e h =
      next_round fuel (handle_messages env codec treasury_user_id fresh (take 10 (m ∷ ms)) s)
        (λ done. omega (arith, first_done m ms (take 9 ms) s e done, h))
        (λ s' k. drain_from-Ends fuel s' s'.redis.pending refl k)

  -- The drain of the pending messages ends: one round for each of them is enough. Unless a message
  -- throws, none is pending at its end.
  pub drain_pending_ends :
      (s : State)
      → (r : Result (Unit {0}) × State) × (drain_pending env codec treasury_user_id
            (length s.redis.pending)
            fresh
            s
          ≡ some r)
        × (r.0 ≡ ok tt → r.1.redis.pending ≡ [])
  unfolding drain_pending
  drain_pending_ends s =
      drain_from-Ends (length s.redis.pending) s s.redis.pending refl (omega arith)
