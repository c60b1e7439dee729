-- ===== src/EngineEvents/Loop/Waiting.antt =====
-- engine-event-consumer.service.ts: what becomes of a batch in which a message throws.
use hau_cex.Common.{
  ℕ, zero, suc, ◌≡◌, refl, ap, ◌∙◌, Bool, true, false, not, List, [], ◌∷◌, ◌++◌, Option, filter,
  take, ◌==◌, All, arith,
}
use hau_cex.Platform.{Platform}
use hau_cex.Database.Table.{exists}
use hau_cex.Database.Tx.{Result, Error, ok, err}
use hau_cex.EngineEvents.Settlement.{Fresh}
use hau_cex.EngineEvents.Messages.{Message, Codec, State}
use hau_cex.EngineEvents.Consumer.{handle_message, handle_messages, process_batch, deliver}
use hau_cex.EngineEvents.Consumer.Delivery.{handle_message_acks}
use hau_cex.EngineEvents.Loop.{Pass, run_passes}

-- A message with the id.
abbrev pub is_message : ℕ → Message → Bool
is_message id m = m.id == id

-- The message is delivered and not acknowledged.
abbrev pub Waits : ℕ → State → Type 0
Waits id s = exists (is_message id) s.redis.pending ≡ true

abbrev pub Others : ℕ → List Message → Type 0
Others id = All (λ m. is_message id m ≡ false)

exists-filter :
    (id other : ℕ) (ms : List Message)
    → (other == id) ≡ false
    → exists (is_message id) ms ≡ true
    → exists (is_message id) (filter (λ m. not (m.id == other)) ms) ≡ true
exists-filter id other [] n h = h
exists-filter id other (m ∷ ms) n h = ground (arith, exists-filter id other ms n)

exists-append_left :
    (id : ℕ) (ms ns : List Message)
    → exists (is_message id) ms ≡ true
    → exists (is_message id) (ms ++ ns) ≡ true
exists-append_left id [] ns h = cc
exists-append_left id (m ∷ ms) ns h = ground (arith, exists-append_left id ms ns)

exists-append_right :
    (id : ℕ) (ms ns : List Message)
    → exists (is_message id) ns ≡ true
    → exists (is_message id) (ms ++ ns) ≡ true
exists-append_right id [] ns h = h
exists-append_right id (m ∷ ms) ns h = ground (arith, exists-append_right id ms ns h)

take-Others : (n id : ℕ) (ms : List Message) → Others id ms → Others id (take n ms)
take-Others zero id ms h = tt
take-Others (suc n) id [] h = tt
take-Others (suc n) id (m ∷ ms) h = (h.0, take-Others n id ms h.1)

module _ (env : Platform) (codec : Codec) (treasury_user_id : Option ℕ) (id : ℕ) where
  handle_message-Waits :
      (fresh : Fresh) (m : Message) (s : State)
      → is_message id m ≡ false
      → Waits id s
      → Waits id (handle_message env codec treasury_user_id fresh m s).1
  handle_message-Waits fresh m s other h =
      of_result (handle_message env codec treasury_user_id fresh m s).0 refl
    where
      acks :
          let after = handle_message env codec treasury_user_id fresh m s in
          (after.0 ≡ ok tt
            → after.1.redis.pending ≡ filter (λ x. not (x.id == m.id)) s.redis.pending)
          × ((e : Error) → after.0 ≡ err e → after.1.redis ≡ s.redis)
      acks =
          let (good, bad) = handle_message_acks env codec treasury_user_id fresh m s in
          (good, λ e f. (bad e f).0)

      of_result :
          (r : Result (Unit {0}))
          → (handle_message env codec treasury_user_id fresh m s).0 ≡ r
          → Waits id (handle_message env codec treasury_user_id fresh m s).1
      of_result (ok _) e = rw (acks.0 e) (exists-filter id m.id s.redis.pending other h)
      of_result (err x) e = rw (ap (λ r. r.pending) (acks.1 x e)) h

  handle_messages-Waits :
      (fresh : ℕ → Fresh) (ms : List Message) (s : State)
      → Others id ms
      → Waits id s
      → Waits id (handle_messages env codec treasury_user_id fresh ms s).1
  unfolding handle_messages
  handle_messages-Waits fresh [] s others h = h
  handle_messages-Waits fresh (m ∷ ms) s others h =
      rest (λ t. handle_messages-Waits fresh ms t others.1)
        (handle_message env codec treasury_user_id (fresh m.id) m s)
        (handle_message-Waits (fresh m.id) m s others.0 h)
    where
      rest :
          ((t : State)
            → Waits id t
            → Waits id (handle_messages env codec treasury_user_id fresh ms t).1)
          → (r : Result (Unit {0}) × State) → Waits id r.1
          → Waits id
              (elim r.0 as (λ _. Result (Unit {0}) × State) [
                | ok _ ↦ handle_messages env codec treasury_user_id fresh ms r.1
                | err e ↦ (err e, r.1)
              ]).1
      rest more (ok _, t) h = more t h
      rest more (err e, t) h = h

  run_passes-Waits :
      (passes : List Pass) (s : State)
      → All (λ (p : Pass). Others id p.0) passes
      → Waits id s
      → Waits id (run_passes env codec treasury_user_id passes s)
  unfolding process_batch
  run_passes-Waits [] s others h = h
  run_passes-Waits ((waiting, fresh) ∷ passes) s others h = run_passes-Waits passes _ others.1 (
      handle_messages-Waits fresh (take 10 waiting)
        (deliver env codec treasury_user_id (take 10 waiting) s)
        (take-Others 10 id waiting others.0)
        (exists-append_left id s.redis.pending (take 10 waiting) h))

  stopped :
      (fresh : ℕ → Fresh) (m : Message) (ms : List Message) (s : State) (e : Error)
      → (handle_message env codec treasury_user_id (fresh m.id) m s).0 ≡ err e
      → (handle_messages env codec treasury_user_id fresh (m ∷ ms) s).1.redis ≡ s.redis
  unfolding handle_messages
  stopped fresh m ms s e h =
      rest (handle_message env codec treasury_user_id (fresh m.id) m s) h
      ∙ ((handle_message_acks env codec treasury_user_id (fresh m.id) m s).1 e h).0
    where
      rest :
          (r : Result (Unit {0}) × State)
          → r.0 ≡ err e
          → (elim r.0 as (λ _. Result (Unit {0}) × State) [
            | ok _ ↦ handle_messages env codec treasury_user_id fresh ms r.1
            | err x ↦ (err x, r.1)
          ]).1.redis
            ≡ r.1.redis
      rest (ok _, t) f = cc
      rest (err x, t) f = refl

  -- When the first message of a batch throws, each message of the batch, this one and those behind
  -- it, stays pending through all later passes of the loop, as long as Redis gives every message an
  -- id of its own: the loop never reads it again.
  pub failed_batch-Waits :
      (fresh : ℕ → Fresh) (m : Message) (ms : List Message) (s : State) (e : Error)
      (passes : List Pass)
      → (handle_message env codec treasury_user_id
          (fresh m.id)
          m
          (deliver env codec treasury_user_id (take 10 (m ∷ ms)) s)).0
        ≡ err e
      → exists (is_message id) (take 10 (m ∷ ms)) ≡ true
      → All (λ (p : Pass). Others id p.0) passes
      → Waits id (
          run_passes env codec treasury_user_id passes
            (process_batch env codec treasury_user_id fresh (m ∷ ms) s).1)
  unfolding process_batch
  failed_batch-Waits fresh m ms s e passes h here others =
      let delivered = deliver env codec treasury_user_id (take 10 (m ∷ ms)) s in
      run_passes-Waits passes _ others (
        rw (ap (λ r. r.pending) (stopped fresh m (take 9 ms) delivered e h))
          (exists-append_right id s.redis.pending (take 10 (m ∷ ms)) here))
