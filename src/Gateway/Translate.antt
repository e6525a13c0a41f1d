-- ===== src/Gateway/Translate.antt =====
-- What events a processed message gives.
use lob_engine.Prelude.{
  ℕ, suc, ◌+◌, ◌≡◌, refl, ap, ◌∙◌, ◌&&◌, List, [], ◌∷◌, ◌++◌, map, if◌then◌else◌, arith, length,
  Bool-cases, inl, inr,
}
use lob_engine.Core.{Trade, Rejection, ExecutionReport, Timestamp}
use lob_engine.Book.{OrderBook}
use lob_engine.Engine.State.{MatchResult}
use lob_engine.Gateway.Events.{
  OrderMessage, ExchangeEvent, accepted, rejected, canceled, traded, book_updated, snapshot_taken,
}
use lob_engine.Gateway.Exchange.{
  translate_result, is_cancelled, is_new_order, no_rejections, canceled_events, traded_event,
  rejected_event, accepted_event, book_event,
}

-- How many events of each constructor a list has.
pub record Tally : Type 0 where
  pub accepts : ℕ
  pub rejects : ℕ
  pub cancels : ℕ
  pub trades : ℕ
  pub updates : ℕ
  pub snapshots : ℕ

abbrev nothing : Tally
nothing = record { accepts = 0; rejects = 0; cancels = 0; trades = 0; updates = 0; snapshots = 0 }

abbrev counted : {Symbol : Type 0} → ExchangeEvent Symbol → Tally → Tally
counted (accepted x) t = record t { accepts = suc t.accepts }
counted (rejected x) t = record t { rejects = suc t.rejects }
counted (canceled x) t = record t { cancels = suc t.cancels }
counted (traded x) t = record t { trades = suc t.trades }
counted (book_updated x) t = record t { updates = suc t.updates }
counted (snapshot_taken x) t = record t { snapshots = suc t.snapshots }

abbrev pub tally : {Symbol : Type 0} → List (ExchangeEvent Symbol) → Tally
tally [] = nothing
tally (x ∷ xs) = counted x (tally xs)

abbrev pub cancelled_count : List ExecutionReport → ℕ
cancelled_count [] = 0
cancelled_count (r ∷ rs) = let n = cancelled_count rs in if is_cancelled r.status then suc n else n

plus_zero : (n : ℕ) → n + 0 ≡ n
plus_zero n = omega arith

abbrev tally_of : ℕ → ℕ → ℕ → ℕ → Tally
tally_of a r c t = record {
  accepts = a;
  rejects = r;
  cancels = c;
  trades = t;
  updates = 1;
  snapshots = 0;
}

no_more :
    (res : MatchResult) (n : ℕ)
    → tally_of n
        (length res.rejections + 0)
        (cancelled_count res.reports + 0)
        (length res.trades + 0)
      ≡ tally_of n (length res.rejections) (cancelled_count res.reports) (length res.trades)
no_more res n =
    rw
      (
        plus_zero (length res.rejections),
        plus_zero (length res.trades),
        plus_zero (cancelled_count res.reports),
      )
      refl

module _ {Symbol : Type 0} (ts : Timestamp) (msg : OrderMessage Symbol) where
  tally-rejections :
      (rs : List Rejection) (xs : List (ExchangeEvent Symbol))
      → tally (map (rejected_event ts msg) rs ++ xs)
        ≡ record (tally xs) { rejects = length rs + (tally xs).rejects }
  tally-rejections [] xs = ap (λ n. record (tally xs) { rejects = n }) (omega arith)
  tally-rejections (r ∷ rs) xs =
      rw (tally-rejections rs xs) (ap (λ n. record (tally xs) { rejects = n }) (omega arith))

  tally-trades :
      (rs : List Trade) (xs : List (ExchangeEvent Symbol))
      → tally (map (traded_event ts msg) rs ++ xs)
        ≡ record (tally xs) { trades = length rs + (tally xs).trades }
  tally-trades [] xs = ap (λ n. record (tally xs) { trades = n }) (omega arith)
  tally-trades (r ∷ rs) xs =
      rw (tally-trades rs xs) (ap (λ n. record (tally xs) { trades = n }) (omega arith))

  tally-cancels :
      (rs : List ExecutionReport) (xs : List (ExchangeEvent Symbol))
      → tally (canceled_events ts msg rs ++ xs)
        ≡ record (tally xs) { cancels = cancelled_count rs + (tally xs).cancels }
  tally-cancels [] xs = ap (λ n. record (tally xs) { cancels = n }) (omega arith)
  tally-cancels (r ∷ rs) xs = elim (Bool-cases (is_cancelled r.status)) [
    | inl t ↦
        rw (t, tally-cancels rs xs) (ap (λ n. record (tally xs) { cancels = n }) (omega arith))
    | inr t ↦ rw t (tally-cancels rs xs)
  ]

  tally-parts :
      (res : MatchResult) (rest : List (ExchangeEvent Symbol))
      → tally (
          map (rejected_event ts msg) res.rejections
          ++ (canceled_events ts msg res.reports ++ (map (traded_event ts msg) res.trades ++ rest)))
        ≡ record (tally rest) {
          rejects = length res.rejections + (tally rest).rejects;
          cancels = cancelled_count res.reports + (tally rest).cancels;
          trades = length res.trades + (tally rest).trades;
        }
  tally-parts res rest =
      tally-rejections res.rejections _
      ∙ ap (λ (t : Tally). record t { rejects = length res.rejections + t.rejects })
          (tally-cancels res.reports _
            ∙ ap (λ (t : Tally). record t { cancels = cancelled_count res.reports + t.cancels })
                (tally-trades res.trades rest))

  -- A result gives one event for each rejection, one for each report of a cancel and one for each
  -- trade; one acceptance for a new order without a rejection, and none otherwise; and exactly one
  -- update of the book. It gives no snapshot.
  pub tally-translate_result :
      (res : MatchResult) (b : OrderBook)
      → tally (translate_result ts msg res b) ≡ record {
        accepts = if is_new_order msg.action && no_rejections res.rejections then 1 else 0;
        rejects = length res.rejections;
        cancels = cancelled_count res.reports;
        trades = length res.trades;
        updates = 1;
        snapshots = 0;
      }
  unfolding translate_result
  tally-translate_result res b =
      elim (Bool-cases (is_new_order msg.action && no_rejections res.rejections)) [
        | inl t ↦
            rw t
              (tally-parts res (accepted_event ts msg ∷ book_event ts msg b ∷ []) ∙ no_more res 1)
        | inr t ↦ rw t (tally-parts res (book_event ts msg b ∷ []) ∙ no_more res 0)
      ]
