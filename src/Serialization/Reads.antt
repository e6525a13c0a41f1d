-- ===== src/Serialization/Reads.antt =====
-- Which texts `deserialize_order` of src/serialization/serializer.cpp reads, and as what.
use lob_engine.Prelude.{
  ◌≡◌, refl, sym, ap, subst, ◌∙◌, ◌↔◌, Option, none, some, Bool-cases, inl, inr, Bytes, codes,
  same_bytes, same_bytes-eq, if◌then◌else◌,
}
use lob_engine.Prelude.Options.{>>=-eq-some}
use lob_engine.Core.{Side, OrderType}
use lob_engine.Gateway.Events.{OrderAction, OrderMessage}
use lob_engine.Serialization.{
  JsonReader, side_to_str, order_type_to_str, parse_side, parse_order_type, parse_action,
  deserialize_order,
}

abbrev action_name : OrderAction → Bytes
action_name OrderAction.new_order = codes "NEW_ORDER"
action_name OrderAction.cancel_order = codes "CANCEL_ORDER"

-- A chain of comparisons with names.
named :
    {A : Type 0} (s name : Bytes) (a b : A) (otherwise : Option A) (name_of : A → Bytes)
    → name_of a ≡ name
    → (otherwise ≡ some b → s ≡ name_of b)
    → (if same_bytes s name then some a else otherwise) ≡ some b
    → s ≡ name_of b
named s name a b otherwise name_of n rest h = elim (Bool-cases (same_bytes s name)) [
  | inl t ↦ let same : a ≡ b = cc (rw t at h) in same_bytes-eq s name t ∙ sym n ∙ ap name_of same
  | inr t ↦ rest (rw t at h)
]

some_injective : {A : Type 0} {x y : A} → ◌≡◌ {A = Option A} (some x) (some y) → x ≡ y
some_injective h = cc h

no_name : {A : Type 0} {b : A} {P : Type 0} → ◌≡◌ {A = Option A} none (some b) → P
no_name h = absurd (cc h)

parse_side-side_to_str : (x : Side) → parse_side (side_to_str x) ≡ some x
unfolding parse_side
parse_side-side_to_str Side.buy = refl
parse_side-side_to_str Side.sell = refl

parse_side-eq_some : (s : Bytes) (x : Side) → parse_side s ≡ some x → s ≡ side_to_str x
unfolding parse_side
parse_side-eq_some s x h =
    named s _ Side.buy x _ side_to_str refl
      (named s _ Side.sell x _ side_to_str refl (λ h. no_name h)) h

parse_order_type-order_type_to_str :
    (x : OrderType) → parse_order_type (order_type_to_str x) ≡ some x
unfolding parse_order_type
parse_order_type-order_type_to_str OrderType.limit = refl
parse_order_type-order_type_to_str OrderType.market = refl
parse_order_type-order_type_to_str OrderType.stop = refl
parse_order_type-order_type_to_str OrderType.stop_limit = refl
parse_order_type-order_type_to_str OrderType.iceberg = refl

parse_order_type-eq_some :
    (s : Bytes) (x : OrderType) → parse_order_type s ≡ some x → s ≡ order_type_to_str x
unfolding parse_order_type
parse_order_type-eq_some s x h =
    let name = order_type_to_str in
    named s _ OrderType.limit x _ name refl
      (named s _ OrderType.market x _ name refl (
        named s _ OrderType.stop x _ name refl (
          named s _ OrderType.stop_limit x _ name refl
            (named s _ OrderType.iceberg x _ name refl (λ h. no_name h)))))
      h

parse_action-action_name : (x : OrderAction) → parse_action (action_name x) ≡ some x
unfolding parse_action
parse_action-action_name OrderAction.new_order = refl
parse_action-action_name OrderAction.cancel_order = refl

parse_action-eq_some : (s : Bytes) (x : OrderAction) → parse_action s ≡ some x → s ≡ action_name x
unfolding parse_action
parse_action-eq_some s x h =
    named s _ OrderAction.new_order x _ action_name refl
      (named s _ OrderAction.cancel_order x _ action_name refl (λ h. no_name h)) h

-- The document has the fields of the message: the four that must be there, the prices, the peak and
-- the time as `value` gives them, and the names of the action, the side and the type.
pub record Describes (r : JsonReader) (j : r.Json) (m : OrderMessage Bytes) : Type 0 where
  pub order_id : r.at_u64 j (codes "order_id") ≡ some m.order_id
  pub client_id : r.at_u64 j (codes "client_id") ≡ some m.client_id
  pub symbol : r.at_string j (codes "symbol") ≡ some m.symbol
  pub quantity : r.at_u64 j (codes "quantity") ≡ some m.quantity
  pub price : r.value_i64 j (codes "price") ≡ some m.price
  pub stop_price : r.value_i64 j (codes "stop_price") ≡ some m.stop_price
  pub peak_qty : r.value_u64 j (codes "peak_qty") ≡ some m.peak_qty
  pub timestamp : r.value_u64 j (codes "timestamp") ≡ some m.timestamp
  pub action : r.at_string j (codes "action") ≡ some (action_name m.action)
  pub side : r.at_string j (codes "side") ≡ some (side_to_str m.side)
  pub type : r.at_string j (codes "type") ≡ some (order_type_to_str m.type)

module _ (r : JsonReader) where
  described_is_read :
      (text : Bytes) (j : r.Json) (m : OrderMessage Bytes)
      → r.parse text ≡ some j
      → Describes r j m
      → deserialize_order r text ≡ some m
  unfolding deserialize_order
  described_is_read text j m p d =
      rw
        (
          p,
          d.order_id,
          d.client_id,
          d.symbol,
          d.quantity,
          d.price,
          d.stop_price,
          d.peak_qty,
          d.timestamp,
          d.action,
          parse_action-action_name m.action,
          d.side,
          parse_side-side_to_str m.side,
          d.type,
          parse_order_type-order_type_to_str m.type,
        )
        refl

  read_is_described :
      (text : Bytes) (m : OrderMessage Bytes)
      → deserialize_order r text ≡ some m
      → (j : r.Json) × (r.parse text ≡ some j) × Describes r j m
  unfolding deserialize_order
  read_is_described text m h =
      let (j, p, h1) = >>=-eq-some (r.parse text) _ h in
      let (order_id, e1, h2) = >>=-eq-some (r.at_u64 j (codes "order_id")) _ h1 in
      let (client_id, e2, h3) = >>=-eq-some (r.at_u64 j (codes "client_id")) _ h2 in
      let (symbol, e3, h4) = >>=-eq-some (r.at_string j (codes "symbol")) _ h3 in
      let (quantity, e4, h5) = >>=-eq-some (r.at_u64 j (codes "quantity")) _ h4 in
      let (price, e5, h6) = >>=-eq-some (r.value_i64 j (codes "price")) _ h5 in
      let (stop_price, e6, h7) = >>=-eq-some (r.value_i64 j (codes "stop_price")) _ h6 in
      let (peak_qty, e7, h8) = >>=-eq-some (r.value_u64 j (codes "peak_qty")) _ h7 in
      let (timestamp, e8, h9) = >>=-eq-some (r.value_u64 j (codes "timestamp")) _ h8 in
      let (an, e9, h10) = >>=-eq-some (r.at_string j (codes "action")) _ h9 in
      let (action, e10, h11) = >>=-eq-some (parse_action an) _ h10 in
      let (sn, e11, h12) = >>=-eq-some (r.at_string j (codes "side")) _ h11 in
      let (side, e12, h13) = >>=-eq-some (parse_side sn) _ h12 in
      let (tn, e13, h14) = >>=-eq-some (r.at_string j (codes "type")) _ h13 in
      let (type, e14, h15) = >>=-eq-some (parse_order_type tn) _ h14 in
      let m0 : OrderMessage Bytes = record {
        order_id = order_id;
        client_id = client_id;
        symbol = symbol;
        side = side;
        type = type;
        quantity = quantity;
        price = price;
        stop_price = stop_price;
        peak_qty = peak_qty;
        timestamp = timestamp;
        action = action;
      } in
      let d : Describes r j m0 = record {
        order_id = e1;
        client_id = e2;
        symbol = e3;
        quantity = e4;
        price = e5;
        stop_price = e6;
        peak_qty = e7;
        timestamp = e8;
        action = e9 ∙ ap some (parse_action-eq_some an action e10);
        side = e11 ∙ ap some (parse_side-eq_some sn side e12);
        type = e13 ∙ ap some (parse_order_type-eq_some tn type e14);
      } in
      let same : m0 ≡ m = some_injective h15 in (j, p, subst (Describes r j) same d)

  -- A text is read as a message exactly if the JSON library parses it to a document that describes
  -- the message: the order id, the client id, the symbol and the quantity are there, the prices, the
  -- peak and the timestamp are what `value` gives, and the action, the side and the type are given by
  -- their names. Every other text gives no message, since whatever is thrown is caught.
  pub deserialize_order_iff :
      (text : Bytes) (m : OrderMessage Bytes)
      → (deserialize_order r text ≡ some m)
        ↔ ((j : r.Json) × (r.parse text ≡ some j) × Describes r j m)
  deserialize_order_iff text m =
      (read_is_described text m, λ (j, p, d). described_is_read text j m p d)
