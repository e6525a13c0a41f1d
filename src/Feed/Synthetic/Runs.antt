-- ===== src/Feed/Synthetic/Runs.antt =====
-- The generator of src/feed/synthetic_gen.cpp in front of src/engine/matching_engine.cpp.
use lob_engine.Prelude.{
  ℕ, ◌++◌, append-nil, subst, sym, ◌+◌, ◌*◌, ◌≤◌, ◌<◌, ◌≡◌, ap, true, List, [], ◌∷◌, arith, ok,
  length, u64_mod, member, Bool-cases, inl, inr, ==_iff, ◌==◌,
}
use lob_engine.Core.{OrderId, OrderEvent}
use lob_engine.Engine.State.{Engine, MatchResult, initial}
use lob_engine.Engine.Submit.{submit_all}
use lob_engine.Engine.Weight.{load_as}
use lob_engine.Engine.Valid.{Frame, initial-Valid}
use lob_engine.Engine.Trace.{is_plain}
use lob_engine.Engine.History.{fresh, IsFresh, IsWithin, history_load}
use lob_engine.Book.Uncrossed.{empty-IsUncrossed, IsUncrossed, BestsApart}
use lob_engine.Engine.Uncrossed.{submit_all-IsUncrossed}
use lob_engine.Feed.Synthetic.{
  Draws, InRange, SyntheticGenerator, EngineConfig, generator, next_all,
}
use lob_engine.Feed.Synthetic.Feeds.{IsFeed, next_all_feeds}

IsFeed-IsFresh :
    (live : Frame) (next_id : OrderId) (evs : List OrderEvent) (used : List OrderId)
    → IsFeed live next_id evs
    → ((i : OrderId) → member i used ≡ true → i < next_id)
    → IsFresh used evs
IsFeed-IsFresh live next_id [] used f below = tt
IsFeed-IsFresh live next_id _ used (IsFeed.issued {evs = evs} o id t r lo hi f) below = (
  elim (Bool-cases (member o.id used)) [
    | inl m ↦ absurd (omega (arith, below o.id m, id))
    | inr m ↦ m
  ],
  IsFeed-IsFresh _ (next_id + 1) evs (o.id ∷ used) f (λ i h. elim (Bool-cases (i == o.id)) [
    | inl same ↦ omega (arith, (==_iff i o.id).0 same, id)
    | inr other ↦ omega (arith, below i (rw other at h))
  ]),
)
IsFeed-IsFresh live next_id _ used (IsFeed.withdrawn {evs = evs} c h f) below =
    IsFeed-IsFresh _ next_id evs used f below

IsFeed-IsWithin :
    {live : Frame} {next_id : OrderId} {evs : List OrderEvent}
    → IsFeed live next_id evs
    → IsWithin true evs
IsFeed-IsWithin IsFeed.ended = tt
IsFeed-IsWithin (IsFeed.issued o id t r lo hi f) = (λ _. ap is_plain t, IsFeed-IsWithin f)
IsFeed-IsWithin (IsFeed.withdrawn c h f) = IsFeed-IsWithin f

IsFeed-load :
    {live : Frame} {next_id : OrderId} {evs : List OrderEvent}
    → IsFeed live next_id evs
    → history_load evs ≤ 1002 * length evs
IsFeed-load IsFeed.ended = omega arith
IsFeed-load (IsFeed.issued o id t r lo hi f) =
    omega (arith, ap (λ k. load_as k o) t, r, hi, IsFeed-load f)
IsFeed-load (IsFeed.withdrawn c h f) = omega (arith, IsFeed-load f)

-- A first part of a feed is a feed.
IsFeed-first :
    (evs rest : List OrderEvent) {live : Frame} {next_id : OrderId}
    → IsFeed live next_id (evs ++ rest)
    → IsFeed live next_id evs
IsFeed-first [] rest f = IsFeed.ended
IsFeed-first (_ ∷ evs) rest (IsFeed.issued o id t r lo hi f) =
    IsFeed.issued o id t r lo hi (IsFeed-first evs rest f)
IsFeed-first (_ ∷ evs) rest (IsFeed.withdrawn c h f) =
    IsFeed.withdrawn c h (IsFeed-first evs rest f)

pub feed_submits :
    (evs rest : List OrderEvent) (fuel : ℕ)
    → IsFeed (λ _. 0) 1 (evs ++ rest)
    → 1002 * length evs + 1 < fuel
    → (a : Engine × List MatchResult) × (submit_all fuel initial evs ≡ ok a)
      × IsUncrossed a.0.book
      × BestsApart a.0.book
feed_submits evs rest fuel whole w =
    let f = IsFeed-first evs rest whole in
    submit_all-IsUncrossed fuel [] evs initial (initial-Valid (fresh []) (λ i. omega arith))
      empty-IsUncrossed (IsFeed-IsFresh _ 1 evs [] f (λ i h. absurd (cc h))) (IsFeed-IsWithin f)
      (omega (arith, w, IsFeed-load f))

-- What a generator gives, asked for a number of events, an engine that starts out empty runs
-- through on enough fuel: no null order is followed and no empty deque read, every live bid of the
-- book that is left is below every live ask, and its best bid is below its best ask. The generator
-- is made for at most 2 ^ 64 - 2 events, and its draws lie in the ranges of the distributions.
pub feed_runs :
    {Rng : Type 0} (d : Draws Rng) (config : EngineConfig) (seeded : Rng) (max_events n fuel : ℕ)
    → InRange d
    → max_events + 1 < u64_mod
    → 1002 * n + 1 < fuel
    → (r : List OrderEvent × SyntheticGenerator Rng) × (next_all d n
          (generator config seeded max_events)
        ≡ ok r)
      × (a : Engine × List MatchResult) × (submit_all fuel initial r.0 ≡ ok a)
      × IsUncrossed a.0.book
      × BestsApart a.0.book
feed_runs d config seeded max_events n fuel in_range small w =
    let (r, done, count, f) = next_all_feeds d config seeded max_events n in_range small in
    let (a, run, u, best) =
      feed_submits r.0 [] fuel (subst (IsFeed (λ _. 0) 1) (sym (append-nil r.0)) f)
        (omega (arith, w, count)) in
    (r, done, a, run, u, best)
