-- ===== src/Serialization/Topics.antt =====
-- The topics of src/serialization/serializer.cpp, as a ZeroMQ subscription sees them: by the first
-- bytes of a message.
use lob_engine.Prelude.{
  ◌≡◌, refl, sym, ap, subst, ◌∙◌, ◌↔◌, ℕ, arith, if◌then◌else◌, Bool, true, false, ◌&&◌, [], ◌∷◌,
  ◌==◌, Bytes, codes,
}
use lob_engine.Gateway.Events.{ExchangeEvent}
use lob_engine.Serialization.{JsonWriter, serialize_event}

pub data Topic : Type 0 where
  accepted rejected canceled trade book snapshot : Topic

abbrev pub topic_text : Topic → Bytes
topic_text Topic.accepted = codes "ACCEPTED"
topic_text Topic.rejected = codes "REJECTED"
topic_text Topic.canceled = codes "CANCELED"
topic_text Topic.trade = codes "TRADE"
topic_text Topic.book = codes "BOOK"
topic_text Topic.snapshot = codes "SNAPSHOT"

abbrev pub topic_of : ExchangeEvent Bytes → Topic
topic_of (ExchangeEvent.accepted e) = Topic.accepted
topic_of (ExchangeEvent.rejected e) = Topic.rejected
topic_of (ExchangeEvent.canceled e) = Topic.canceled
topic_of (ExchangeEvent.traded e) = Topic.trade
topic_of (ExchangeEvent.book_updated e) = Topic.book
topic_of (ExchangeEvent.snapshot_taken e) = Topic.snapshot

-- The message begins with the subscribed bytes.
abbrev pub begins_with : Bytes → Bytes → Bool
begins_with [] message = true
begins_with (c ∷ cs) [] = false
begins_with (c ∷ cs) (d ∷ ds) = c == d && begins_with cs ds

-- The topics differ in their first bytes.
abbrev initial : Topic → ℕ
initial Topic.accepted = b'A'
initial Topic.rejected = b'R'
initial Topic.canceled = b'C'
initial Topic.trade = b'T'
initial Topic.book = b'B'
initial Topic.snapshot = b'S'

abbrev topic_at : ℕ → Topic
topic_at c =
    if c == b'A'
    then Topic.accepted
    else if c == b'R'
    then Topic.rejected
    else if c == b'C'
    then Topic.canceled
    else if c == b'T'
    then Topic.trade
    else if c == b'B'
    then Topic.book
    else Topic.snapshot

topic_at-initial : (t : Topic) → topic_at (initial t) ≡ t
topic_at-initial Topic.accepted = refl
topic_at-initial Topic.rejected = refl
topic_at-initial Topic.canceled = refl
topic_at-initial Topic.trade = refl
topic_at-initial Topic.book = refl
topic_at-initial Topic.snapshot = refl

starts :
    (t : Topic) (c : ℕ) (message : Bytes)
    → begins_with (topic_text t) (c ∷ message) ≡ true
    → initial t ≡ c
starts Topic.accepted c message h = ground (arith, h)
starts Topic.rejected c message h = ground (arith, h)
starts Topic.canceled c message h = ground (arith, h)
starts Topic.trade c message h = ground (arith, h)
starts Topic.book c message h = ground (arith, h)
starts Topic.snapshot c message h = ground (arith, h)

module _ (w : JsonWriter) where
  first_byte :
      (e : ExchangeEvent Bytes)
      → (rest : Bytes) × (serialize_event w e ≡ initial (topic_of e) ∷ rest)
  unfolding serialize_event
  first_byte (ExchangeEvent.accepted e) = (_, refl)
  first_byte (ExchangeEvent.rejected e) = (_, refl)
  first_byte (ExchangeEvent.canceled e) = (_, refl)
  first_byte (ExchangeEvent.traded e) = (_, refl)
  first_byte (ExchangeEvent.book_updated e) = (_, refl)
  first_byte (ExchangeEvent.snapshot_taken e) = (_, refl)

  own_topic :
      (e : ExchangeEvent Bytes) → begins_with (topic_text (topic_of e)) (serialize_event w e) ≡ true
  unfolding serialize_event
  own_topic (ExchangeEvent.accepted e) = refl
  own_topic (ExchangeEvent.rejected e) = refl
  own_topic (ExchangeEvent.canceled e) = refl
  own_topic (ExchangeEvent.traded e) = refl
  own_topic (ExchangeEvent.book_updated e) = refl
  own_topic (ExchangeEvent.snapshot_taken e) = refl

  -- A serialized event begins with the bytes of a topic exactly if it is of the kind of that topic,
  -- whatever the JSON library writes: a client that subscribes to a topic is sent the events of that
  -- kind and no others.
  pub serialize_event_subscribed :
      (e : ExchangeEvent Bytes) (t : Topic)
      → (begins_with (topic_text t) (serialize_event w e) ≡ true) ↔ (topic_of e ≡ t)
  serialize_event_subscribed e t =
      let (rest, split) = first_byte e in
      (
        λ h.
            let same = starts t (initial (topic_of e)) rest (rw split at h) in
            sym (topic_at-initial (topic_of e)) ∙ ap topic_at (sym same) ∙ topic_at-initial t,
        λ h. subst (λ u. begins_with (topic_text u) (serialize_event w e) ≡ true) h (own_topic e),
      )
