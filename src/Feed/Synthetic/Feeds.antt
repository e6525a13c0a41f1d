-- ===== src/Feed/Synthetic/Feeds.antt =====
-- The events of src/feed/synthetic_gen.cpp against a feed over the set of the live orders, which
-- forgets their order in the vector.
use lob_engine.Prelude.{
  ℕ, zero, suc, ◌+◌, ◌-◌, ◌≤◌, ◌<◌, ◌≡◌, refl, subst, ◌∙◌, true, false, some, List, [], ◌∷◌, ◌==◌,
  arith, Bool-cases, inl, inr, ok, length, min, leb, u64_mod, add64-of_lt, occurrences,
  occurrences-append, occurrences-swap_pop, get_elem?-some, back-some, if◌then◌else◌, set, pop_back,
  add64, Bool,
}
use lob_engine.Core.{OrderId, Order, OrderType, OrderEvent, CancelOrderEvent}
use lob_engine.Engine.Valid.{Frame, one, ◌⊕◌}
use lob_engine.Feed.Synthetic.{
  Draws, InRange, SyntheticGenerator, EngineConfig, generator, generate_new_order, generate_cancel,
  next, next_all, wants_cancel,
}

infixl 65 ◌⊖◌
abbrev ◌⊖◌ : Frame → Frame → Frame
(g ⊖ h) i = g i - h i

-- What the generator promises, over how often each id is live: new orders are limit orders of 1 to
-- 500 under the ids in sequence, and a cancel names a live order, which is so no longer.
pub data IsFeed : Frame → OrderId → List OrderEvent → Type 0 where
  ended : {live : Frame} {next_id : OrderId} → IsFeed live next_id []
  issued :
      {live : Frame} {next_id : OrderId} {evs : List OrderEvent} (o : Order)
      → o.id ≡ next_id
      → o.type ≡ OrderType.limit
      → o.reserve_qty ≡ 0
      → 1 ≤ o.quantity
      → o.quantity ≤ 500
      → IsFeed (live ⊕ one next_id) (next_id + 1) evs
      → IsFeed live next_id (OrderEvent.new_order_event o ∷ evs)
  withdrawn :
      {live : Frame} {next_id : OrderId} {evs : List OrderEvent} (c : CancelOrderEvent)
      → 0 < live c.order_id
      → IsFeed (live ⊖ one c.order_id) next_id evs
      → IsFeed live next_id (OrderEvent.cancel_order_event c ∷ evs)

module _ {Rng : Type 0} (d : Draws Rng) (in_range : InRange d) where
  -- The vector holds the live ids, and no counter has wrapped.
  pub record Tracks (g : SyntheticGenerator Rng) (live : Frame) : Type 0 where
    pub counts : (a : OrderId) → occurrences a g.live_orders ≡ live a
    pub numbered : g.next_order_id ≤ g.event_count + 1
    pub within : g.event_count ≤ g.max_events
    pub small : g.max_events + 1 < u64_mod

  -- One event, after which the feed goes on.
  record Issues (g : SyntheticGenerator Rng) (live : Frame) (ev : OrderEvent)
      (g' : SyntheticGenerator Rng) : Type 0 where
    left : Frame
    tracks : Tracks g' left
    counted : g'.event_count ≡ g.event_count
    bounded : g'.max_events ≡ g.max_events
    feeds :
        (evs : List OrderEvent)
        → IsFeed left g'.next_order_id evs
        → IsFeed live g.next_order_id (ev ∷ evs)

  generate_new_order-Issues :
      (g : SyntheticGenerator Rng) (live : Frame)
      → Tracks g live
      → g.next_order_id ≤ g.event_count
      → let r = generate_new_order d g in Issues g live r.0 r.1
  unfolding generate_new_order
  generate_new_order-Issues g live t n =
      let next_id : add64 g.next_order_id 1 ≡ g.next_order_id + 1 =
        add64-of_lt g.next_order_id 1 (omega (arith, n, t.within, t.small)) in
      let drawn = in_range.quantity (d.buys g.rng).1 in
      record {
        left = live ⊕ one g.next_order_id;
        tracks = record {
          counts = λ a.
              omega (arith, occurrences-append a g.live_orders (g.next_order_id ∷ []), t.counts a);
          numbered = omega (arith, next_id, n);
          within = t.within;
          small = t.small;
        };
        counted = refl;
        bounded = refl;
        feeds = λ evs f.
            IsFeed.issued _ refl refl refl drawn.0 drawn.1
              (subst (λ i. IsFeed (live ⊕ one g.next_order_id) i evs) next_id f);
      }

  generate_cancel-Issues :
      (g : SyntheticGenerator Rng) (live : Frame)
      → Tracks g live
      → 0 < length g.live_orders
      → (ev : OrderEvent) × (g' : SyntheticGenerator Rng) × (generate_cancel d g ≡ ok (ev, g'))
        × Issues g live ev g'
  unfolding generate_cancel
  generate_cancel-Issues g live t some_live =
      let xs = g.live_orders in
      let idx = (d.index (length xs) g.rng).0 in
      let (id, at) = get_elem?-some xs idx (in_range.index (length xs) g.rng some_live) in
      let (last, at_back) = back-some xs some_live in
      let swapped : (a : OrderId)
          → one id a + occurrences a (pop_back (set xs idx last)) ≡ occurrences a xs =
        λ a. occurrences-swap_pop a xs idx id last at at_back in
      let gone : CancelOrderEvent = record { order_id = id; timestamp = g.current_ts } in
      let g1 : SyntheticGenerator Rng = record g {
        live_orders = pop_back (set xs idx last);
        rng = (d.index (length xs) g.rng).1;
      } in
      (
        OrderEvent.cancel_order_event gone,
        g1,
        rw (at, at_back) refl,
        record {
          left = live ⊖ one id;
          tracks = record {
            counts = λ a. omega (arith, swapped a, t.counts a);
            numbered = t.numbered;
            within = t.within;
            small = t.small;
          };
          counted = refl;
          bounded = refl;
          feeds = λ evs f. IsFeed.withdrawn gone (ground (arith, swapped id, t.counts id)) f;
        },
      )

  wants_cancel-live :
      (g : SyntheticGenerator Rng) → (wants_cancel d g).0 ≡ true → 0 < length g.live_orders
  wants_cancel-live g h = elim (Bool-cases (length g.live_orders == 0)) [
    | inl z ↦ absurd (cc (rw z at h))
    | inr z ↦ ground (arith, z)
  ]

  event-Issues :
      (g : SyntheticGenerator Rng) (live : Frame) (do_cancel : Bool)
      → (do_cancel ≡ true → 0 < length g.live_orders)
      → Tracks g live
      → g.next_order_id ≤ g.event_count
      → (r : OrderEvent × SyntheticGenerator Rng) × ((if do_cancel
            then generate_cancel d g
            else ok (generate_new_order d g))
          ≡ ok r)
        × Issues g live r.0 r.1
  event-Issues g live true some_live t n =
      let (ev, g', done, x) = generate_cancel-Issues g live t (some_live refl) in
      ((ev, g'), done, x)
  event-Issues g live false some_live t n = (_, refl, generate_new_order-Issues g live t n)

  -- One call of `next` below the number of events.
  next-Issues :
      (g : SyntheticGenerator Rng) (live : Frame)
      → Tracks g live
      → g.event_count < g.max_events
      → (r : OrderEvent × SyntheticGenerator Rng) × (next d g ≡ ok (some r.0, r.1))
        × (left : Frame) × Tracks r.1 left
        × (r.1.event_count ≡ g.event_count + 1)
        × (r.1.max_events ≡ g.max_events)
        × ((evs : List OrderEvent)
            → IsFeed left r.1.next_order_id evs
            → IsFeed live g.next_order_id (r.0 ∷ evs))
  unfolding next
  next-Issues g live t more =
      let one_more : add64 g.event_count 1 ≡ g.event_count + 1 =
        add64-of_lt g.event_count 1 (omega (arith, more, t.small)) in
      let g1 : SyntheticGenerator Rng = record g {
        event_count = add64 g.event_count 1;
        current_ts = add64 g.current_ts 1000000;
      } in
      let g2 : SyntheticGenerator Rng = record g1 { rng = (wants_cancel d g1).1 } in
      let t2 : Tracks g2 live = record {
        counts = t.counts;
        numbered = omega (arith, one_more, t.numbered);
        within = omega (arith, one_more, more);
        small = t.small;
      } in
      let (r, done, x) =
        event-Issues g2 live (wants_cancel d g1).0 (wants_cancel-live g1) t2
          (omega (arith, one_more, t.numbered)) in
      let going : leb g.max_events g.event_count ≡ false = ground (arith, more) in
      (r, rw (going, done) refl, x.left, x.tracks, x.counted ∙ one_more, x.bounded, x.feeds)

  tracked_feeds :
      (n : ℕ) (g : SyntheticGenerator Rng) (live : Frame)
      → Tracks g live
      → (r : List OrderEvent × SyntheticGenerator Rng) × (next_all d n g ≡ ok r)
        × (length r.0 ≡ min n (g.max_events - g.event_count))
        × IsFeed live g.next_order_id r.0
  unfolding next_all next
  tracked_feeds zero g live t = (([], g), refl, omega arith, IsFeed.ended)
  tracked_feeds (suc n) g live t = elim (Bool-cases (leb g.max_events g.event_count)) [
    | inl full ↦ (([], g), rw full refl, ground (arith, full), IsFeed.ended)
    | inr going ↦
        let (r, done, left, t', c, m, feeds) = next-Issues g live t (ground (arith, going)) in
        let (rest, done', count, f) = tracked_feeds n r.1 left t' in
        (
          (r.0 ∷ rest.0, rest.1),
          rw (done, done') refl,
          ground (arith, count, c, m, going),
          feeds rest.0 f,
        )
  ]

-- A generator made for at most 2 ^ 64 - 2 events never reads outside of its vector, whatever is drawn within the ranges of the distributions. It gives that many events,
-- or as many as it was made for if that is fewer, and they are a feed: the orders are numbered from
-- 1 on, and every cancel names an order that was issued before and was not cancelled since.
pub next_all_feeds :
    {Rng : Type 0} (d : Draws Rng) (config : EngineConfig) (seeded : Rng) (max_events n : ℕ)
    → InRange d
    → max_events + 1 < u64_mod
    → (r : List OrderEvent × SyntheticGenerator Rng) × (next_all d n
          (generator config seeded max_events)
        ≡ ok r)
      × (length r.0 ≡ min n max_events)
      × IsFeed (λ _. 0) 1 r.0
next_all_feeds d config seeded max_events n in_range small =
    let (r, done, count, f) =
      tracked_feeds d in_range n (generator config seeded max_events) (λ _. 0)
        (record {
          counts = λ a. refl;
          numbered = omega arith;
          within = omega arith;
          small = small;
        }) in
    (r, done, omega (arith, count), f)
