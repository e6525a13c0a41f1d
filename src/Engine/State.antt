-- ===== src/Engine/State.antt =====
-- The state of src/engine/matching_engine.hpp, and the result of one submission.
-- `config_` is stored by the constructor and read by no method, so it is no field here.
use lob_engine.Prelude.{ℕ, List, [], ◌∷◌, ◌++◌}
use lob_engine.Core.{Order, Trade, ExecutionReport, Rejection}
use lob_engine.Book.{OrderBook, empty_book}

pub record MatchResult : Type 0 where
  pub trades : List Trade
  pub reports : List ExecutionReport
  pub rejections : List Rejection

abbrev pub no_result : MatchResult
no_result = record { trades = []; reports = []; rejections = [] }

-- The three `insert(end(), ...)` of a sub-result.
abbrev pub append_result : MatchResult → MatchResult → MatchResult
append_result r s = record {
  trades = r.trades ++ s.trades;
  reports = r.reports ++ s.reports;
  rejections = r.rejections ++ s.rejections;
}

abbrev pub push_trade : MatchResult → Trade → MatchResult
push_trade r t = record r { trades = r.trades ++ t ∷ [] }

abbrev pub push_report : MatchResult → ExecutionReport → MatchResult
push_report r x = record r { reports = r.reports ++ x ∷ [] }

abbrev pub push_rejection : MatchResult → Rejection → MatchResult
push_rejection r x = record r { rejections = r.rejections ++ x ∷ [] }

pub record Engine : Type 0 where
  pub book : OrderBook
  pub sequence : ℕ
  pub pending_stops : List Order

abbrev pub initial : Engine
initial = record { book = empty_book; sequence = 0; pending_stops = [] }
