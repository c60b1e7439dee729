-- ===== src/EngineEvents/Consumer/Delivery.antt =====
-- engine-event-consumer.service.ts: a message is applied once, and acknowledged when it is applied.
use hau_cex.Common.{
  ℕ, ◌≡◌, refl, sym, ap, ◌∙◌, Bool, true, false, not, List, [], ◌∷◌, ◌++◌, Option, none, some,
  String, ◌==◌, ==_iff, filter, arith,
}
use hau_cex.Platform.{Platform}
use hau_cex.Database.Schema.{Db, ProcessedEvent}
use hau_cex.Database.Table.{exists}
use hau_cex.Database.Tx.{
  Tx, Error, Result, ok, err, ◌>>◌, transaction, transaction-err, transaction-ok, when,
}
use hau_cex.EngineEvents.Settlement.{Fresh}
use hau_cex.EngineEvents.Messages.{
  Message, Fields, EventPayload, Codec, Redis, State, get, parse_field_array,
}
use hau_cex.EngineEvents.Consumer.{
  dispatch, in_tx, create_processed, is_event, processed, handle_message, handle_payload, finish,
  get_or, or_key, read_id, post_process_market_event,
}

exists-append :
    (id : ℕ) (es : List ProcessedEvent) (t : String)
    → exists (is_event id) (es ++ processed id t ∷ []) ≡ true
exists-append id [] t = rw ((==_iff id id).1 refl) refl
exists-append id (e ∷ es) t = ground (arith, exists-append id es t)

create_processed-ok :
    (id : ℕ) (t : String) (db : Db)
    → (create_processed id t db).0 ≡ ok tt
    → exists (is_event id) (create_processed id t db).1.processed_events ≡ true
create_processed-ok id t db h = ground (arith, exists-append id db.processed_events t)

-- A step followed by another: if the two succeed, the second succeeded.
then_ok :
    (P : Db → Type 0) (r : Result (Unit {0}) × Db) (k : Tx (Unit {0})) (db : Db)
    → ((after : Db) → (k after).0 ≡ ok tt → P (k after).1)
    → (((λ _. r) >> k) db).0 ≡ ok tt
    → P (((λ _. r) >> k) db).1
then_ok P (err e, after) k db h done = cc
then_ok P (ok _, after) k db h done = h after done

module _ (env : Platform) (codec : Codec) (treasury_user_id : Option ℕ) where
  unless_processed :
      (P : Db → Type 0) (seen : Bool) (m : Tx (Unit {0})) (db : Db)
      → (seen ≡ true → P db)
      → ((m db).0 ≡ ok tt → P (m db).1)
      → (when (not seen) m db).0 ≡ ok tt
      → P (when (not seen) m db).1
  unless_processed P true m db h k done = h refl
  unless_processed P false m db h k done = k done

  in_tx-ok :
      (id : ℕ) (message_type : Option String) (pair : Option ℕ) (payload : EventPayload)
      (fresh : Fresh) (db : Db)
      → (in_tx env codec treasury_user_id (some id) message_type pair payload fresh db).0 ≡ ok tt
      → exists
          (is_event id)
          (in_tx env codec treasury_user_id
            (some id)
            message_type
            pair
            payload
            fresh
            db).1.processed_events
        ≡ true
  unfolding in_tx
  in_tx-ok id none pair payload fresh db h = ground arith
  in_tx-ok id (some t) pair payload fresh db h =
      unless_processed (λ d. exists (is_event id) d.processed_events ≡ true)
        (exists (is_event id) db.processed_events)
        (dispatch env codec treasury_user_id t pair id payload fresh >> create_processed id t) db
        (λ seen. seen)
        (then_ok (λ d. exists (is_event id) d.processed_events ≡ true)
          (dispatch env codec treasury_user_id t pair id payload fresh db) (create_processed id t)
          db (create_processed-ok id t))
        h

  in_tx-seen :
      (id : ℕ) (message_type : Option String) (pair : Option ℕ) (payload : EventPayload)
      (fresh : Fresh) (db : Db)
      → exists (is_event id) db.processed_events ≡ true
      → in_tx env codec treasury_user_id (some id) message_type pair payload fresh db ≡ (ok tt, db)
  unfolding in_tx
  in_tx-seen id message_type pair payload fresh db seen = rw seen refl

  post_process-pending :
      (message_type pair : Option String) (payload : EventPayload) (r : Redis)
      → (post_process_market_event env codec treasury_user_id message_type pair payload r).pending
        ≡ r.pending
  unfolding post_process_market_event
  post_process-pending message_type pair payload r = ground arith

  finish-acks :
      (id : ℕ) (message_type pair : Option String) (payload : EventPayload) (s : State)
      (r : Result (Unit {0}) × Db)
      → let after = finish env codec treasury_user_id id message_type pair payload s.redis r in
        (after.0 ≡ ok tt → after.1.redis.pending ≡ filter (λ m. not (m.id == id)) s.redis.pending)
        × ((e : Error)
            → after.0 ≡ err e
            → (after.1.redis ≡ s.redis) × (r.0 ≡ err e) × (after.1.db ≡ r.1))
  finish-acks id message_type pair payload s (ok _, db) = (
    λ h.
        ap (filter (λ m. not (m.id == id)))
          (post_process-pending message_type pair payload s.redis),
    λ e h. cc,
  )
  finish-acks id message_type pair payload s (err x, db) = (λ h. cc, λ e h. (refl, cc, refl))

  abbrev Acks : Message → State → Result (Unit {0}) × State → Type 0
  Acks m s after =
      (after.0 ≡ ok tt → after.1.redis.pending ≡ filter (λ x. not (x.id == m.id)) s.redis.pending)
      × ((e : Error)
          → after.0 ≡ err e
          → (after.1.redis ≡ s.redis)
            × (after.1.db
                ≡ record s.db { order_seq = after.1.db.order_seq; cmd_seq = after.1.db.cmd_seq }))

  handle_payload-Acks :
      (fresh : Fresh) (m : Message) (s : State) (payload : Option EventPayload)
      → let fields = parse_field_array m.field_array in
        Acks m s (handle_payload env codec treasury_user_id m.id fields fresh s payload)
  handle_payload-Acks fresh m s none = (λ h. refl, λ e h. cc)
  handle_payload-Acks fresh m s (some payload) =
      let acks =
        finish-acks m.id (get "messageType" fields) pair payload s (transaction step s.db) in
      (
        acks.0,
        λ e h.
            let (same, thrown, db) = acks.1 e h in
            let back = transaction-err step s.db e thrown in
            (
              same,
              db
                  ∙ (back
                      ∙ ap (λ d. record s.db { order_seq = d.order_seq; cmd_seq = d.cmd_seq })
                          (sym (db ∙ back))),
            ),
      )
    where
      fields : Fields
      fields = parse_field_array m.field_array

      pair : Option String
      pair = or_key env codec treasury_user_id payload.trading_pair_id (get "partitionKey" fields)

      step : Tx (Unit {0})
      step =
          in_tx env codec treasury_user_id
            (read_id env codec treasury_user_id (get "messageId" fields)) (get "messageType" fields)
            (read_id env codec treasury_user_id pair) payload fresh

  -- A message that is handled is acknowledged, and no other message is. A message whose handling
  -- throws stays pending, with nothing written to Redis and every table as it was.
  pub handle_message_acks :
      (fresh : Fresh) (m : Message) (s : State)
      → let after = handle_message env codec treasury_user_id fresh m s in
        (after.0 ≡ ok tt → after.1.redis.pending ≡ filter (λ x. not (x.id == m.id)) s.redis.pending)
        × ((e : Error)
            → after.0 ≡ err e
            → (after.1.redis ≡ s.redis)
              × (after.1.db
                  ≡ record s.db { order_seq = after.1.db.order_seq; cmd_seq = after.1.db.cmd_seq }))
  unfolding handle_message
  handle_message_acks fresh m s = handle_payload-Acks fresh m s (
      codec.parse_json
        (get_or env codec treasury_user_id "{}" (get "payload" (parse_field_array m.field_array))))

  abbrev pub payload_text : Message → String
  payload_text m =
      get_or env codec treasury_user_id "{}" (get "payload" (parse_field_array m.field_array))

  finish-db :
      (id : ℕ) (message_type pair : Option String) (payload : EventPayload) (redis : Redis)
      (r : Result (Unit {0}) × Db)
      → let after = finish env codec treasury_user_id id message_type pair payload redis r in
        (after.0 ≡ r.0) × (after.1.db ≡ r.1)
  finish-db id message_type pair payload redis (ok _, db) = (refl, refl)
  finish-db id message_type pair payload redis (err e, db) = (refl, refl)

  -- The transaction of a message whose payload is read.
  abbrev pub step_of : Fresh → Message → EventPayload → Option String → Tx (Unit {0})
  step_of fresh m payload message_id =
      let fields = parse_field_array m.field_array in
      in_tx env codec treasury_user_id (read_id env codec treasury_user_id message_id)
        (get "messageType" fields)
        (read_id env codec treasury_user_id
          (or_key env codec treasury_user_id payload.trading_pair_id (get "partitionKey" fields)))
        payload fresh

  pub handle_message-db :
      (fresh : Fresh) (m : Message) (s : State) (payload : EventPayload)
      (message_id : Option String)
      → codec.parse_json (payload_text m) ≡ some payload
      → get "messageId" (parse_field_array m.field_array) ≡ message_id
      → let after = handle_message env codec treasury_user_id fresh m s in
        let r = transaction (step_of fresh m payload message_id) s.db in
        (after.0 ≡ r.0) × (after.1.db ≡ r.1)
  unfolding handle_message
  handle_message-db fresh m s payload message_id e f =
      let fields = parse_field_array m.field_array in
      rw (e, ← f)
        (finish-db m.id (get "messageType" fields)
          (or_key env codec treasury_user_id payload.trading_pair_id (get "partitionKey" fields))
          payload s.redis (transaction (step_of fresh m payload (get "messageId" fields)) s.db))

  step-ok :
      (fresh : Fresh) (m : Message) (payload : EventPayload) (message_id : Option String) (db : Db)
      → (step_of fresh m payload message_id db).0 ≡ ok tt
      → (text : String) × (message_id ≡ some text)
        × (exists
              (is_event (codec.read_uuid text))
              (step_of fresh m payload message_id db).1.processed_events
            ≡ true)
  unfolding in_tx
  step-ok fresh m payload none db h = ground arith
  step-ok fresh m payload (some text) db h = (
    text,
    refl,
    in_tx-ok (codec.read_uuid text) (get "messageType" (parse_field_array m.field_array))
        (read_id env codec treasury_user_id (
          or_key env codec treasury_user_id payload.trading_pair_id
            (get "partitionKey" (parse_field_array m.field_array))))
        payload fresh db h,
  )

  transaction-same :
      (m : Tx (Unit {0})) (db : Db) → m db ≡ (ok tt, db) → transaction m db ≡ (ok tt, db)
  transaction-same m db e = rw e refl

  -- A message whose event has been applied changes no table.
  seen_payload :
      (again : Fresh) (m : Message) (s : State) (text : String) (payload : Option EventPayload)
      → codec.parse_json (payload_text m) ≡ payload
      → get "messageId" (parse_field_array m.field_array) ≡ some text
      → exists (is_event (codec.read_uuid text)) s.db.processed_events ≡ true
      → let after = handle_message env codec treasury_user_id again m s in
        (after.0 ≡ ok tt) × (after.1.db ≡ s.db)
  unfolding handle_message
  seen_payload again m s text none e f seen = rw e (refl, refl)
  seen_payload again m s text (some payload) e f seen =
      let (result, db) = handle_message-db again m s payload (some text) e f in
      let same =
        transaction-same (step_of again m payload (some text)) s.db
          (in_tx-seen (codec.read_uuid text) _ _ payload again s.db seen) in
      (result ∙ ap (λ r. r.0) same, db ∙ ap (λ r. r.1) same)

  -- A message of the engine that has been applied and comes again, under whatever id of the stream,
  -- is acknowledged and changes no table.
  pub handle_message_once :
      (fresh again : Fresh) (m copy : Message) (s : State) (redis : Redis) (payload : EventPayload)
      → codec.parse_json (payload_text m) ≡ some payload
      → get "messageId" (parse_field_array copy.field_array)
        ≡ get "messageId" (parse_field_array m.field_array)
      → (handle_message env codec treasury_user_id fresh m s).0 ≡ ok tt
      → let applied = (handle_message env codec treasury_user_id fresh m s).1.db in
        let after =
          handle_message env codec treasury_user_id again copy
            (record { db = applied; redis = redis }) in
        (after.0 ≡ ok tt)
        × (after.1.db ≡ applied)
        × (after.1.redis.pending ≡ filter (λ x. not (x.id == copy.id)) redis.pending)
  handle_message_once fresh again m copy s redis payload e same h =
      let id = get "messageId" (parse_field_array m.field_array) in
      let (result, db) = handle_message-db fresh m s payload id e refl in
      let step = step_of fresh m payload id in
      let committed = transaction-ok step s.db tt (sym result ∙ h) in
      let (text, known, seen) =
        step-ok fresh m payload id s.db (ap (λ r. r.0) (sym committed) ∙ (sym result ∙ h)) in
      let applied = (handle_message env codec treasury_user_id fresh m s).1.db in
      let kept =
        seen_payload again copy (record { db = applied; redis = redis }) text
          (codec.parse_json (payload_text copy)) refl (same ∙ known)
          (ap (λ d. exists (is_event (codec.read_uuid text)) d.processed_events)
              (db ∙ ap (λ r. r.1) committed)
            ∙ seen) in
      (
        kept.0,
        kept.1,
        (handle_message_acks again copy (record { db = applied; redis = redis })).0 kept.0,
      )
