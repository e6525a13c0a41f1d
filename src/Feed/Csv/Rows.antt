-- ===== src/Feed/Csv/Rows.antt =====
-- The rows of src/feed/csv_replay.cpp, written and read back.
use lob_engine.Prelude.{
  is_empty, ℕ, ◌≡◌, refl, ap, sym, EndsFull, false, some, List, [], ◌∷◌, Bytes, codes, join,
  pieces-join, member, All, ◌≢◌, ℤ, u64_mod, ◌<◌, ◌≤◌, ◌^◌, pos_part, neg_part,
}
use lob_engine.Core.{Side, OrderType, OrderStatus, OrderEvent}
use lob_engine.Feed.Csv.{
  split, Numbers, Parsed, parse_line, new_row, cancel_row, modify_row, parse_side, parse_order_type,
}

-- The range of int64_t.
abbrev pub Fits : ℤ → Type 0
Fits z = (pos_part z < 2 ^ 63) × (neg_part z ≤ 2 ^ 63)

-- Numbers as texts that the standard library reads back, without a comma and not empty.
pub record Written (numbers : Numbers) : Type 0 where
  pub digits : ℕ → Bytes
  pub signed : ℤ → Bytes
  pub reads_digits : (n : ℕ) → n < u64_mod → numbers.stoull (digits n) ≡ some n
  pub reads_signed : (z : ℤ) → Fits z → numbers.stoll (signed z) ≡ some z
  pub digits_clean : (n : ℕ) → member b',' (digits n) ≡ false
  pub signed_clean : (z : ℤ) → member b',' (signed z) ≡ false
  pub digits_full : (n : ℕ) → digits n ≢ []
  pub signed_full : (z : ℤ) → signed z ≢ []

abbrev side_name : Side → Bytes
side_name Side.buy = codes "BUY"
side_name Side.sell = codes "SELL"

abbrev type_name : OrderType → Bytes
type_name OrderType.limit = codes "LIMIT"
type_name OrderType.market = codes "MARKET"
type_name OrderType.stop = codes "STOP"
type_name OrderType.stop_limit = codes "STOPLIMIT"
type_name OrderType.iceberg = codes "ICEBERG"

parse_side-side_name : (s : Side) → parse_side (side_name s) ≡ some s
unfolding parse_side
parse_side-side_name Side.buy = refl
parse_side-side_name Side.sell = refl

parse_order_type-type_name : (t : OrderType) → parse_order_type (type_name t) ≡ some t
unfolding parse_order_type
parse_order_type-type_name OrderType.limit = refl
parse_order_type-type_name OrderType.market = refl
parse_order_type-type_name OrderType.stop = refl
parse_order_type-type_name OrderType.stop_limit = refl
parse_order_type-type_name OrderType.iceberg = refl

side_name_clean : (s : Side) → member b',' (side_name s) ≡ false
side_name_clean Side.buy = refl
side_name_clean Side.sell = refl

type_name_clean : (t : OrderType) → member b',' (type_name t) ≡ false
type_name_clean OrderType.limit = refl
type_name_clean OrderType.market = refl
type_name_clean OrderType.stop = refl
type_name_clean OrderType.stop_limit = refl
type_name_clean OrderType.iceberg = refl

is_empty-false : (t : Bytes) → t ≢ [] → is_empty t ≡ false
is_empty-false [] n = absurd (n refl)
is_empty-false (c ∷ cs) n = refl

module _ (numbers : Numbers) (w : Written numbers) where
  -- The fields of a row: type, order id, side, order type, price, quantity, peak, stop price,
  -- timestamp.
  abbrev fields_of : OrderEvent → List Bytes
  fields_of (OrderEvent.new_order_event o) =
      codes "NEW"
      ∷ w.digits o.id
      ∷ side_name o.side
      ∷ type_name o.type
      ∷ w.signed o.price
      ∷ w.digits o.quantity
      ∷ w.digits o.peak_qty
      ∷ w.signed o.stop_price
      ∷ w.digits o.timestamp
      ∷ []
  fields_of (OrderEvent.cancel_order_event c) =
      codes "CANCEL" ∷ w.digits c.order_id ∷ [] ∷ [] ∷ [] ∷ [] ∷ [] ∷ [] ∷ w.digits c.timestamp ∷ []
  fields_of (OrderEvent.modify_order_event m) =
      codes "MODIFY"
      ∷ w.digits m.order_id
      ∷ []
      ∷ []
      ∷ w.signed m.new_price
      ∷ w.digits m.new_quantity
      ∷ []
      ∷ []
      ∷ w.digits m.timestamp
      ∷ []
  fields_of (OrderEvent.replace_order_event x) = []

  abbrev pub row_of : OrderEvent → Bytes
  row_of ev = join b',' (fields_of ev)

  -- What a row can say: numbers of 64 bits, and an order as it comes in.
  abbrev pub IsWritable : OrderEvent → Type 0
  IsWritable (OrderEvent.new_order_event o) =
      (o.id < u64_mod)
      × Fits o.price
      × (o.quantity < u64_mod)
      × (o.peak_qty < u64_mod)
      × Fits o.stop_price
      × (o.timestamp < u64_mod)
      × (o ≡ record o { orig_qty = o.quantity; reserve_qty = 0; status = OrderStatus.new })
  IsWritable (OrderEvent.cancel_order_event c) = (c.order_id < u64_mod) × (c.timestamp < u64_mod)
  IsWritable (OrderEvent.modify_order_event m) =
      (m.order_id < u64_mod)
      × Fits m.new_price
      × (m.new_quantity < u64_mod)
      × (m.timestamp < u64_mod)
  IsWritable (OrderEvent.replace_order_event x) = ⊥

  fields_clean : (ev : OrderEvent) → All (λ t. member b',' t ≡ false) (fields_of ev)
  fields_clean (OrderEvent.new_order_event o) = (
    refl,
    (
      w.digits_clean o.id,
      (
        side_name_clean o.side,
        (
          type_name_clean o.type,
          (
            w.signed_clean o.price,
            (
              w.digits_clean o.quantity,
              (
                w.digits_clean o.peak_qty,
                (w.signed_clean o.stop_price, (w.digits_clean o.timestamp, tt)),
              ),
            ),
          ),
        ),
      ),
    ),
  )
  fields_clean (OrderEvent.cancel_order_event c) = (
    refl,
    (
      w.digits_clean c.order_id,
      (refl, (refl, (refl, (refl, (refl, (refl, (w.digits_clean c.timestamp, tt))))))),
    ),
  )
  fields_clean (OrderEvent.modify_order_event m) = (
    refl,
    (
      w.digits_clean m.order_id,
      (
        refl,
        (
          refl,
          (
            w.signed_clean m.new_price,
            (w.digits_clean m.new_quantity, (refl, (refl, (w.digits_clean m.timestamp, tt)))),
          ),
        ),
      ),
    ),
  )
  fields_clean (OrderEvent.replace_order_event x) = tt

  fields_full : (ev : OrderEvent) → EndsFull (fields_of ev)
  fields_full (OrderEvent.new_order_event o) = w.digits_full o.timestamp
  fields_full (OrderEvent.cancel_order_event c) = w.digits_full c.timestamp
  fields_full (OrderEvent.modify_order_event m) = w.digits_full m.timestamp
  fields_full (OrderEvent.replace_order_event x) = tt

  split-row_of : (ev : OrderEvent) → split (row_of ev) b',' ≡ fields_of ev
  split-row_of ev = pieces-join b',' (fields_of ev) (fields_clean ev) (fields_full ev)

  -- A row that a new order, a cancel or a modify is written as is read back as that event, when its
  -- numbers fit their types and a new order has the rest of its fields as they come in. There is no
  -- row for a replacement, which the reader does not know.
  pub parse_line-row_of :
      (ev : OrderEvent) → IsWritable ev → parse_line numbers (row_of ev) ≡ Parsed.event ev
  unfolding parse_line new_row cancel_row modify_row
  parse_line-row_of (OrderEvent.new_order_event o) (i, p, q, k, s, t, same) =
      rw
        (
          split-row_of (OrderEvent.new_order_event o),
          w.reads_digits o.id i,
          parse_side-side_name o.side,
          parse_order_type-type_name o.type,
          w.reads_signed o.price p,
          w.reads_digits o.quantity q,
          w.reads_digits o.peak_qty k,
          w.reads_signed o.stop_price s,
          w.reads_digits o.timestamp t,
        )
        (ap (λ x. Parsed.event (OrderEvent.new_order_event x)) (sym same))
  parse_line-row_of (OrderEvent.cancel_order_event c) (i, t) =
      rw
        (
          split-row_of (OrderEvent.cancel_order_event c),
          w.reads_digits c.order_id i,
          w.reads_digits c.timestamp t,
        )
        refl
  parse_line-row_of (OrderEvent.modify_order_event m) (i, p, q, t) =
      rw
        (
          split-row_of (OrderEvent.modify_order_event m),
          w.reads_digits m.order_id i,
          is_empty-false (w.signed m.new_price) (w.signed_full m.new_price),
          is_empty-false (w.digits m.new_quantity) (w.digits_full m.new_quantity),
          w.reads_signed m.new_price p,
          w.reads_digits m.new_quantity q,
          w.reads_digits m.timestamp t,
        )
        refl
  parse_line-row_of (OrderEvent.replace_order_event x) h = elim h [ ]
