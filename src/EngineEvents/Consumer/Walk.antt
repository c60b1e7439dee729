-- ===== src/EngineEvents/Consumer/Walk.antt =====
-- engine-event-consumer.service.ts: a message of the engine, for a measured quantity: every handler
-- leaves it alone, if the settlement of the trade and the cancellation of the order do.
use hau_cex.Common.{
  ℕ, ◌≡◌, refl, ap, Bool, true, false, not, ◌&&◌, Option, none, some, inl, inr, String, str_eq,
  str_eq_iff, pos, if◌then◌else◌, Option-cases,
}
use hau_cex.Platform.{Platform}
use hau_cex.Database.Schema.{Db, Order, OrderStatus}
use hau_cex.Database.Table.{find_first, exists}
use hau_cex.Database.Tx.{Tx, Error, ◌>>◌, when, throw_if, modify}
use hau_cex.EngineEvents.Settlement.{Fresh, order_has_id, settle_trade}
use hau_cex.EngineEvents.Settlement.Measure.{
  Measure, Adds, Adds-then, found_row, when-Adds, quiet, settled, locks-update_first,
  locks-update_many,
}
use hau_cex.EngineEvents.Cancellation.{
  handle_order_cancelled, handle_cancel_order_rejected, is_cancel_pending, update_order_by_id,
  status_before_cancel,
}
use hau_cex.EngineEvents.Messages.{Message, EventPayload, Codec, State, get, parse_field_array}
use hau_cex.EngineEvents.Consumer.{
  dispatch, in_tx, create_processed, add_processed, is_event, with_id, handle_message,
  set_order_status, fits_order, is_pending,
}
use hau_cex.EngineEvents.Consumer.Delivery.{payload_text, step_of, handle_message-db}

pub when_not : (b : Bool) → not b ≡ true → b ≡ false
when_not true e = cc
when_not false e = refl

-- The id and the type that a message says.
abbrev pub id_of : Codec → Message → Option ℕ
id_of codec m = elim (get "messageId" (parse_field_array m.field_array)) [
  | none ↦ none
  | some s ↦ some (codec.read_uuid s)
]

abbrev pub type_of : Message → Option String
type_of m = get "messageType" (parse_field_array m.field_array)

module _ (env : Platform) (codec : Codec) (treasury_user_id : Option ℕ) where
  pub malformed :
      (fresh : Fresh) (m : Message) (s : State)
      → codec.parse_json (payload_text env codec treasury_user_id m) ≡ none
      → (handle_message env codec treasury_user_id fresh m s).1.db ≡ s.db
  unfolding handle_message
  malformed fresh m s e = rw e refl

module _ {env : Platform} (M : Measure env) where
  either :
      (c : Bool) (m n : Tx (Unit {0})) (db : Db)
      → (c ≡ true → Adds M (pos 0) db (m db))
      → Adds M (pos 0) db (n db)
      → Adds M (pos 0) db ((if c then m else n) db)
  either true m n db h k = h refl
  either false m n db h k = k

  with_id-Adds :
      (id : Option ℕ) (k : ℕ → Tx (Unit {0})) (db : Db)
      → ((i : ℕ) → id ≡ some i → Adds M (pos 0) db (k i db))
      → Adds M (pos 0) db (with_id id k db)
  with_id-Adds none k db h = tt
  with_id-Adds (some i) k db h = h i refl

  reverted :
      (id : ℕ) (db : Db) → M.Valid db → Adds M (pos 0) db (handle_cancel_order_rejected id db)
  unfolding handle_cancel_order_rejected
  reverted id db v =
      found_row M (pos 0) db (find_first (order_has_id id) db.orders) _
        (λ o. when (is_cancel_pending o.status) (step o))
        λ o _.
          when-Adds M (pos 0) db (is_cancel_pending o.status) (step o)
            (λ _. quiet M db _ v refl refl (
              locks-update_first (order_has_id o.id)
                (λ x. record x { status = status_before_cancel o }) (λ x. refl) db.orders))
            (λ _. quiet M db db v refl refl refl)
    where
      step : Order → Tx (Unit {0})
      step o = update_order_by_id o.id λ x. record x { status = status_before_cancel o }

  answered :
      (id : Option ℕ) (status : OrderStatus) (db : Db)
      → M.Valid db
      → Adds M (pos 0) db (set_order_status id status db)
  answered id status db v = quiet M db _ v refl refl (
      locks-update_many (λ o. fits_order id o && is_pending o.status)
        (λ o. record o { status = status }) (λ o. refl) db.orders)

  processed-Adds :
      (id : ℕ) (t : String) (db : Db) → M.Valid db → Adds M (pos 0) db (create_processed id t db)
  processed-Adds id t db v = taken (exists (is_event id) db.processed_events)
    where
      taken :
          (b : Bool)
          → Adds M
              (pos 0)
              db
              ((throw_if b Error.unique_violation >> modify (add_processed id t)) db)
      taken true = tt
      taken false = quiet M db _ v refl refl refl

module _ {env : Platform} (M : Measure env) (codec : Codec) (treasury_user_id : Option ℕ) where
  -- The two handlers that move money leave the quantity alone, if the message is for them and has not
  -- been processed.
  pub record LeavesAlone (message_id : Option ℕ) (t : Option String) (payload : EventPayload)
      (fresh : Fresh) (db : Db) : Type 0 where
    pub settles :
        (id : ℕ)
        → message_id ≡ some id
        → exists (is_event id) db.processed_events ≡ false
        → t ≡ some "TradeCreated"
        → Adds M (pos 0) db (settle_trade env treasury_user_id payload.trade id fresh db)
    pub cancels :
        (i : ℕ)
        → payload.order_id ≡ some i
        → Adds M (pos 0) db (handle_order_cancelled env fresh.operation_id i db)

  dispatch-Adds :
      (t : String) (pair : Option ℕ) (message_id : ℕ) (payload : EventPayload) (fresh : Fresh)
      (db : Db)
      → exists (is_event message_id) db.processed_events ≡ false
      → LeavesAlone (some message_id) (some t) payload fresh db
      → M.Valid db
      → Adds M (pos 0) db (dispatch env codec treasury_user_id t pair message_id payload fresh db)
  unfolding dispatch
  dispatch-Adds t pair message_id payload fresh db new h v =
      either M (str_eq t "MarketOpened") _ _ db (λ _. quiet M db _ v refl refl refl)
        (either M (str_eq t "OrderOpened") _ _ db
          (λ _. answered M payload.order_id OrderStatus.open_ db v)
          (either M (str_eq t "OrderRejected") _ _ db
            (λ _. answered M payload.order_id OrderStatus.rejected db v)
            (either M (str_eq t "EngineFailed") _ _ db (λ _. quiet M db _ v refl refl refl)
              (either M (str_eq t "TradeCreated") _ _ db
                (λ e. h.settles message_id refl new (ap some ((str_eq_iff t "TradeCreated").0 e)))
                (either M (str_eq t "OrderCancelled") _ _ db
                  (λ _. with_id-Adds M payload.order_id _ db h.cancels)
                  (either M (str_eq t "CancelOrderRejected") _ _ db
                    (λ _. with_id-Adds M payload.order_id _ db λ i _. reverted M i db v)
                    (quiet M db db v refl refl refl)))))))

  in_tx-Adds :
      (id : Option ℕ) (t : Option String) (pair : Option ℕ) (payload : EventPayload) (fresh : Fresh)
      (db : Db)
      → LeavesAlone id t payload fresh db
      → M.Valid db
      → Adds M (pos 0) db (in_tx env codec treasury_user_id id t pair payload fresh db)
  unfolding in_tx
  in_tx-Adds none t pair payload fresh db h v = tt
  in_tx-Adds (some id) none pair payload fresh db h v =
      when-Adds M (pos 0) db (not (exists (is_event id) db.processed_events)) _ (λ _. tt)
        (λ _. quiet M db db v refl refl refl)
  in_tx-Adds (some id) (some t) pair payload fresh db h v =
      when-Adds M (pos 0) db (not (exists (is_event id) db.processed_events))
        (dispatch env codec treasury_user_id t pair id payload fresh >> create_processed id t)
        (λ new.
          Adds-then M db (dispatch env codec treasury_user_id t pair id payload fresh db)
            (create_processed id t) (dispatch-Adds t pair id payload fresh db (when_not _ new) h v)
            (λ d w. processed-Adds M id t d w))
        (λ _. quiet M db db v refl refl refl)

  abbrev pub IsKept : State → State → Type 0
  IsKept s after = M.Valid after.db × (M.value after.db ≡ M.value s.db)

  handle_payload_keeps :
      (fresh : Fresh) (m : Message) (s : State) (payload : EventPayload)
      → codec.parse_json (payload_text env codec treasury_user_id m) ≡ some payload
      → LeavesAlone (id_of codec m) (type_of m) payload fresh s.db
      → M.Valid s.db
      → IsKept s (handle_message env codec treasury_user_id fresh m s).1
  handle_payload_keeps fresh m s payload e h v =
      let id = get "messageId" (parse_field_array m.field_array) in
      let (result, db) = handle_message-db env codec treasury_user_id fresh m s payload id e refl in
      let step = step_of env codec treasury_user_id fresh m payload id in
      rw db (settled M s.db (step s.db) v (in_tx-Adds _ _ _ payload fresh s.db h v))

  pub handle_message_keeps :
      (fresh : Fresh) (m : Message) (s : State)
      → ((payload : EventPayload)
          → codec.parse_json (payload_text env codec treasury_user_id m) ≡ some payload
          → LeavesAlone (id_of codec m) (type_of m) payload fresh s.db)
      → M.Valid s.db
      → IsKept s (handle_message env codec treasury_user_id fresh m s).1
  handle_message_keeps fresh m s h v =
      elim (Option-cases (codec.parse_json (payload_text env codec treasury_user_id m))) [
        | inl e ↦ rw (malformed env codec treasury_user_id fresh m s e) (v, refl)
        | inr (payload, e) ↦ handle_payload_keeps fresh m s payload e (h payload e) v
      ]
