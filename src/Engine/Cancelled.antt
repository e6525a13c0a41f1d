-- ===== src/Engine/Cancelled.antt =====
-- What `process_cancel` of src/engine/matching_engine.cpp leaves and returns.
use lob_engine.Prelude.{
  ◌≡◌, true, false, none, some, List, [], ◌∷◌, ◌++◌, if◌then◌else◌, erase_first,
}
use lob_engine.Core.{
  OrderId, Order, OrderStatus, Quantity, RejectReason, Rejection, ExecutionReport, CancelOrderEvent,
  Side, Price, is_resting,
}
use lob_engine.Book.{find_id}
use lob_engine.Book.Coherent.{view_at, lies_at}
use lob_engine.Engine.State.{Engine, MatchResult}
use lob_engine.Engine.Valid.{Valid, count_id}

-- A cancel is confirmed, with what was left of the order.
pub record Confirms (id : OrderId) (left : Quantity) (r : MatchResult) : Type 0 where
  pub report : ExecutionReport
  pub reported : r.reports ≡ report ∷ []
  pub named : report.order_id ≡ id
  pub status : report.status ≡ OrderStatus.cancelled
  pub remaining : report.remaining_qty ≡ left
  pub no_trade : r.trades ≡ []
  pub no_rejection : r.rejections ≡ []

pub record Refuses (id : OrderId) (why : RejectReason) (r : MatchResult) : Type 0 where
  pub rejection : Rejection
  pub rejected : r.rejections ≡ rejection ∷ []
  pub named : rejection.order_id ≡ id
  pub reason : rejection.reason ≡ why
  pub no_trade : r.trades ≡ []
  pub no_report : r.reports ≡ []

-- The id is neither pending nor in the book.
abbrev pub IsGone : OrderId → Engine → Type 0
IsGone id e = (count_id id e.pending_stops ≡ 0) × (find_id id e.book.id_map ≡ none)

-- The outcomes of a cancel: a pending stop goes and the other stops keep their order; a resting
-- order goes and every queue keeps its other ids in order; or the engine stays as it is.
pub data Outcome (e : Engine) (c : CancelOrderEvent) (e' : Engine) (r : MatchResult) : Type 0 where
  stop_gone :
      (before : List Order) (s : Order) (behind : List Order)
      → e.pending_stops ≡ before ++ s ∷ behind
      → s.id ≡ c.order_id
      → e' ≡ record e { pending_stops = before ++ behind }
      → IsGone c.order_id e'
      → Confirms c.order_id s.quantity r
      → Outcome e c e' r
  order_gone :
      (o : Order)
      → find_id c.order_id e.book.id_map ≡ some o
      → is_resting o ≡ true
      → e' ≡ record e { book = e'.book }
      → ((t : Side) (q : Price)
          → view_at e'.book t q ≡ (
              if lies_at t q o
              then erase_first c.order_id (view_at e.book t q)
              else view_at e.book t q))
      → IsGone c.order_id e'
      → Confirms c.order_id o.quantity r
      → Outcome e c e' r
  unknown :
      IsGone c.order_id e
      → e' ≡ e
      → Refuses c.order_id RejectReason.order_not_found r
      → Outcome e c e' r
  not_resting :
      (o : Order)
      → find_id c.order_id e.book.id_map ≡ some o
      → is_resting o ≡ false
      → e' ≡ e
      → Refuses c.order_id RejectReason.order_not_cancellable r
      → Outcome e c e' r
