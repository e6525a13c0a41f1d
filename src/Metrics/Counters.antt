-- ===== src/Metrics/Counters.antt =====
-- src/metrics/metrics.hpp: the counters beside the histogram. The doubles of the imbalance are a
-- parameter; the fetch_add of each counter is one step, so that the calls of several threads are a
-- sequence. What `print_summary` writes is left out.
use lob_engine.Prelude.{
  ℕ, suc, ◌+◌, ◌≤◌, ◌<◌, ◌≡◌, refl, ap, ◌∙◌, pos, List, [], ◌∷◌, length, arith, add64, add64-of_lt,
  u64_mod,
}
use lob_engine.Core.{Price}
use lob_engine.Metrics.{LatencyHistogram, record_latency, recorded}

pub record Metrics (Imbalance : Type 0) : Type 0 where
  pub latency : LatencyHistogram
  pub trade_count : ℕ
  pub rejection_count : ℕ
  pub cancel_count : ℕ
  pub last_spread : Price
  pub last_imbalance : Imbalance
  pub last_bid_depth : ℕ
  pub last_ask_depth : ℕ

-- The calls that change the object.
pub data Call (Imbalance : Type 0) : Type 0 where
  record_event_latency : (latency_ns : ℕ) → Call Imbalance
  record_trade : Call Imbalance
  record_rejection : Call Imbalance
  record_cancel : Call Imbalance
  update_spread : (spread : Price) → Call Imbalance
  update_imbalance : (imbalance : Imbalance) → Call Imbalance
  update_depth : (bid_levels : ℕ) → (ask_levels : ℕ) → Call Imbalance

module _ {Imbalance : Type 0} (no_imbalance : Imbalance) where
  unfoldable update : Metrics Imbalance → Call Imbalance → Metrics Imbalance
  update m (Call.record_event_latency ns) = record m { latency = record_latency m.latency ns }
  update m Call.record_trade = record m { trade_count = add64 m.trade_count 1 }
  update m Call.record_rejection = record m { rejection_count = add64 m.rejection_count 1 }
  update m Call.record_cancel = record m { cancel_count = add64 m.cancel_count 1 }
  update m (Call.update_spread spread) = record m { last_spread = spread }
  update m (Call.update_imbalance imbalance) = record m { last_imbalance = imbalance }
  update m (Call.update_depth bids asks) = record m { last_bid_depth = bids; last_ask_depth = asks }

  -- A new object behind some calls, the latest one first.
  unfoldable pub updated : List (Call Imbalance) → Metrics Imbalance
  unfolding update
  updated [] = record {
    latency = recorded [];
    trade_count = 0;
    rejection_count = 0;
    cancel_count = 0;
    last_spread = pos 0;
    last_imbalance = no_imbalance;
    last_bid_depth = 0;
    last_ask_depth = 0;
  }
  updated (call ∷ earlier) = update (updated earlier) call

  abbrev latencies : List (Call Imbalance) → List ℕ
  latencies [] = []
  latencies (Call.record_event_latency ns ∷ earlier) = ns ∷ latencies earlier
  latencies (_ ∷ earlier) = latencies earlier

  -- How many calls count a trade, a rejection and a cancel.
  abbrev tallies : List (Call Imbalance) → ℕ × ℕ × ℕ
  tallies [] = (0, 0, 0)
  tallies (Call.record_trade ∷ earlier) = let (t, r, c) = tallies earlier in (suc t, r, c)
  tallies (Call.record_rejection ∷ earlier) = let (t, r, c) = tallies earlier in (t, suc r, c)
  tallies (Call.record_cancel ∷ earlier) = let (t, r, c) = tallies earlier in (t, r, suc c)
  tallies (_ ∷ earlier) = tallies earlier

  -- Behind fewer than 2 ^ 64 calls the three counters are the numbers of their calls, and the
  -- histogram has recorded the latencies of its calls.
  updated-tallies :
      (calls : List (Call Imbalance))
      → length calls < u64_mod
      → ((updated calls).latency ≡ recorded (latencies calls))
        × ((updated calls).trade_count ≡ (tallies calls).0)
        × ((updated calls).rejection_count ≡ (tallies calls).1)
        × ((updated calls).cancel_count ≡ (tallies calls).2)
        × ((tallies calls).0 + (tallies calls).1 + (tallies calls).2 ≤ length calls)
  unfolding updated update recorded
  updated-tallies [] small = (refl, refl, refl, refl, omega arith)
  updated-tallies (Call.record_event_latency ns ∷ earlier) small =
      let (l, t, r, c, all) = updated-tallies earlier (omega (arith, small)) in
      (ap (λ h. record_latency h ns) l, t, r, c, omega (arith, all))
  updated-tallies (Call.record_trade ∷ earlier) small =
      let (l, t, r, c, all) = updated-tallies earlier (omega (arith, small)) in
      (
        l,
        add64-of_lt (updated earlier).trade_count 1 (omega (arith, t, all, small))
            ∙ omega (arith, t),
        r,
        c,
        omega (arith, all),
      )
  updated-tallies (Call.record_rejection ∷ earlier) small =
      let (l, t, r, c, all) = updated-tallies earlier (omega (arith, small)) in
      (
        l,
        t,
        add64-of_lt (updated earlier).rejection_count 1 (omega (arith, r, all, small))
            ∙ omega (arith, r),
        c,
        omega (arith, all),
      )
  updated-tallies (Call.record_cancel ∷ earlier) small =
      let (l, t, r, c, all) = updated-tallies earlier (omega (arith, small)) in
      (
        l,
        t,
        r,
        add64-of_lt (updated earlier).cancel_count 1 (omega (arith, c, all, small))
            ∙ omega (arith, c),
        omega (arith, all),
      )
  updated-tallies (Call.update_spread spread ∷ earlier) small =
      let (l, t, r, c, all) = updated-tallies earlier (omega (arith, small)) in
      (l, t, r, c, omega (arith, all))
  updated-tallies (Call.update_imbalance imbalance ∷ earlier) small =
      let (l, t, r, c, all) = updated-tallies earlier (omega (arith, small)) in
      (l, t, r, c, omega (arith, all))
  updated-tallies (Call.update_depth bids asks ∷ earlier) small =
      let (l, t, r, c, all) = updated-tallies earlier (omega (arith, small)) in
      (l, t, r, c, omega (arith, all))
