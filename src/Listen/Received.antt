-- ===== src/Listen/Received.antt =====
-- What `listen` reads of a PUBLISH packet as MQTT lays it out.
use gott.Common.{
  suc, ℕ, ◌+◌, ◌*◌, ◌<◌, true, false, List, [], ◌∷◌, ◌++◌, map, append_assoc, append-nil, length,
  length-append, Bytes, if◌then◌else◌, ◌==◌, ltb, ◌≡◌, refl, sym, ◌∙◌, ap, arith, Bool-cases, inl,
  inr,
}
use gott.Topic.Filter.{valid_topic_name, byte_at}
use gott.Packets.{put_uint16}
use gott.Extractors.{ok, slice, uint16_at}
use gott.Extractors.Filters.{slice-part, uint16-put, length-put_uint16}
use gott.Broker.{World}
use gott.Listen.{tcp, Arrival, done}
use gott.Listen.Read.{full, read_full}
use gott.Listen.Publish.{read_publication}

full-arrived :
    (arrived rest : List Arrival)
    → full (length arrived) (arrived ++ rest) ≡ (done (map (λ a. a.byte) arrived), rest)
unfolding full
full-arrived [] rest = refl
full-arrived (a ∷ arrived) rest = rw (full-arrived arrived rest) refl

length-map : {A B : Type 0} (f : A → B) (xs : List A) → length (map f xs) ≡ length xs
length-map f [] = refl
length-map f (x ∷ xs) = ap suc (length-map f xs)

-- Bytes that have arrived are read in full.
pub full-bytes :
    (n : ℕ) (bs : Bytes) (arrived rest : List Arrival)
    → map (λ a. a.byte) arrived ≡ bs
    → length bs ≡ n
    → full n (arrived ++ rest) ≡ (done bs, rest)
full-bytes n bs arrived rest e k =
    ap (λ i. full i (arrived ++ rest))
      (sym k ∙ (ap length (sym e) ∙ length-map (λ a. a.byte) arrived))
    ∙ (full-arrived arrived rest ∙ ap (λ b. (done b, rest)) e)

-- The identifier's bytes, which are there above QoS 0.
abbrev pub id_part : (qos packet_id : ℕ) → Bytes
id_part qos packet_id = if qos == 0 then [] else put_uint16 packet_id

-- What follows the remaining length: the topic after its length, the identifier and the payload.
abbrev pub publication_bytes : (qos : ℕ) (topic : Bytes) (packet_id : ℕ) (payload : Bytes) → Bytes
publication_bytes qos topic packet_id payload =
    put_uint16 (length topic) ++ (topic ++ (id_part qos packet_id ++ payload))

pub uint16_at-part :
    (b : Bytes) (low n : ℕ)
    → n < 65536
    → slice b low (low + 2) ≡ ok (put_uint16 n)
    → uint16_at b low ≡ ok n
unfolding uint16_at
uint16_at-part b low n h e = rw (e, uint16-put n h) refl

module _ (topic part payload : Bytes) where
  abbrev body : Bytes
  body = put_uint16 (length topic) ++ (topic ++ (part ++ payload))

  size_of : length body ≡ 2 + (length topic + (length part + length payload))
  size_of =
      rw
        (
          length-append (put_uint16 (length topic)) (topic ++ (part ++ payload)),
          length-put_uint16 (length topic),
          length-append topic (part ++ payload),
          length-append part payload,
        )
        refl

  size_part : slice body 0 (0 + 2) ≡ ok (put_uint16 (length topic))
  size_part =
      slice-part body [] (put_uint16 (length topic)) (topic ++ (part ++ payload)) 0 2 refl refl
        (rw (length-put_uint16 (length topic)) refl)

  topic_part : slice body 2 (2 + length topic) ≡ ok topic
  topic_part =
      slice-part body (put_uint16 (length topic)) topic (part ++ payload) 2 (2 + length topic) refl
        (rw (length-put_uint16 (length topic)) refl) (rw (length-put_uint16 (length topic)) refl)

  before : length (put_uint16 (length topic) ++ topic) ≡ 2 + length topic
  before =
      rw (length-append (put_uint16 (length topic)) topic, length-put_uint16 (length topic)) refl

  id_slice : slice body (2 + length topic) (2 + length topic + length part) ≡ ok part
  id_slice =
      slice-part body (put_uint16 (length topic) ++ topic) part payload _ _ (simp append_assoc)
        (sym before) (ap (λ n. n + length part) (sym before))

  before_payload :
      length ((put_uint16 (length topic) ++ topic) ++ part) ≡ 2 + length topic + length part
  before_payload = rw (length-append (put_uint16 (length topic) ++ topic) part, before) refl

  payload_slice : slice body (2 + length topic + length part) (length body) ≡ ok payload
  payload_slice =
      slice-part body ((put_uint16 (length topic) ++ topic) ++ part) payload [] _ _
        (simp (append_assoc, append-nil)) (sym before_payload)
        (rw (size_of, before_payload) (omega arith))

topic_ne : (topic : Bytes) → valid_topic_name topic ≡ true → (length topic == 0) ≡ false
unfolding valid_topic_name
topic_ne [] v = cc
topic_ne (x ∷ topic) v = ground arith

module _ (qos : ℕ) (topic part payload : Bytes) (arrived rest : List Arrival) (w : World)
    (bytes : map (λ a. a.byte) arrived ≡ body topic part payload)
    (valid : valid_topic_name topic ≡ true) (short : length topic < 65536)
    (sized : length part ≡ (if qos == 0 then 0 else 2)) where
  read_publication-body :
      read_publication qos (length arrived) (record { input = tcp (arrived ++ rest); world = w })
      ≡ (
        done (record {
          topic = topic;
          packet_id_bytes = part;
          packet_id = byte_at part 0 * 256 + byte_at part 1;
          payload = payload;
        }),
        record { input = tcp rest; world = w },
      )
  unfolding read_publication read_full
  read_publication-body =
      let long : ltb (length (body topic part payload)) (2 + length topic) ≡ false =
        rw (size_of topic part payload) (ground arith) in
      rw
        (
          full-arrived arrived rest,
          bytes,
          uint16_at-part (body topic part payload) 0 (length topic) short
              (size_part topic part payload),
          topic_ne topic valid,
          long,
          topic_part topic part payload,
          valid,
          sym sized,
          id_slice topic part payload,
          payload_slice topic part payload,
        )
        refl

id_part-length : (qos packet_id : ℕ) → length (id_part qos packet_id) ≡ (if qos == 0 then 0 else 2)
id_part-length qos i = elim (Bool-cases (qos == 0)) [
  | inl e ↦ rw e refl
  | inr e ↦ rw e (length-put_uint16 i)
]

id_part-value :
    (qos packet_id : ℕ)
    → packet_id < 65536
    → byte_at (id_part qos packet_id) 0 * 256 + byte_at (id_part qos packet_id) 1
      ≡ (if qos == 0 then 0 else packet_id)
unfolding byte_at put_uint16
id_part-value qos i h = elim (Bool-cases (qos == 0)) [
  | inl e ↦ rw e refl
  | inr e ↦ rw e (omega arith)
]

-- From the bytes of a PUBLISH packet with a valid topic name of less than 65536 bytes and an identifier
-- below 65536, `listen` reads back the topic, the identifier and the payload, and leaves the bytes
-- after the packet.
pub read_publication-bytes :
    (qos : ℕ) (topic : Bytes) (packet_id : ℕ) (payload : Bytes) (arrived rest : List Arrival)
    (w : World)
    → map (λ a. a.byte) arrived ≡ publication_bytes qos topic packet_id payload
    → valid_topic_name topic ≡ true
    → length topic < 65536
    → packet_id < 65536
    → read_publication qos (length arrived) (record { input = tcp (arrived ++ rest); world = w })
      ≡ (
        done (record {
          topic = topic;
          packet_id_bytes = id_part qos packet_id;
          packet_id = if qos == 0 then 0 else packet_id;
          payload = payload;
        }),
        record { input = tcp rest; world = w },
      )
read_publication-bytes qos topic i payload arrived rest w bytes valid short small =
    read_publication-body qos topic (id_part qos i) payload arrived rest w bytes valid short
      (id_part-length qos i)
    ∙ ap
        (λ n. (
          done (record {
            topic = topic;
            packet_id_bytes = id_part qos i;
            packet_id = n;
            payload = payload;
          }),
          record { input = tcp rest; world = w },
        ))
        (id_part-value qos i small)
