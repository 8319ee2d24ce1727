-- ===== src/Listen/Connected.antt =====
-- What `listen` reads of a CONNECT packet with an identifier, for a clean session and no more.
use gott.Common.{
  ℕ, ◌+◌, ◌*◌, ◌-◌, ◌<◌, true, false, List, [], ◌∷◌, ◌++◌, append-nil, map, length, length-append,
  Bytes, bytes_eq, ◌==◌, leb, ltb, ◌≡◌, ◌≢◌, refl, subst, ◌∙◌, ap, arith,
}
use gott.Common.Slices.{byte_in_slice}
use gott.Types.{ConnectFlags}
use gott.Session.{update, update_self}
use gott.Topic.Filter.{byte_at}
use gott.Packets.{put_uint16}
use gott.Bytes.{bit_is_set}
use gott.Extractors.{ok, slice, uint16, uint16_at, extract_connect_flags}
use gott.Extractors.Filters.{slice-part, length-put_uint16}
use gott.Broker.{World, Event}
use gott.Broker.Environment.{Environment}
use gott.Listen.{tcp, Arrival, Link, done}
use gott.Listen.Read.{read_full}
use gott.Listen.Received.{full-bytes, uint16_at-part}
use gott.Listen.Refusals.{connect_header}
use gott.Listen.Accepted.{Welcomed, accept-clean}
use gott.Listen.Connect.{
  read_client_id, read_will, read_username, read_password, accept, on_connect,
}

-- The flags of a packet for a clean session and no more.
abbrev pub only_clean : ConnectFlags
only_clean = record {
  clean_session = true;
  will_flag = false;
  will_retain = false;
  password_flag = false;
  user_name_flag = false;
  will_qos = 0;
}

abbrev pub identified : (client : ℕ) (id : Bytes) (keep_alive : ℕ) → World → World
identified client id keep_alive w =
    let w₁ = record w {
      clients =
          update w.clients client (record (w.clients client) { keep_alive_secs = keep_alive });
    } in
    record w₁ { clients = update w₁.clients client (record (w₁.clients client) { client_id = id }) }

-- The payload of such a packet.
abbrev pub connect_payload : (id : Bytes) → Bytes
connect_payload id = put_uint16 (length id) ++ id

size_ne : (id : Bytes) → id ≢ [] → (length id == 0) ≡ false
size_ne [] n = absurd (n refl)
size_ne (x ∷ id) n = ground arith

module _ (env : Environment) (client : ℕ) (id : Bytes) (named : id ≢ [])
    (short : length id < 65536) where
  abbrev payload : Bytes
  payload = connect_payload id

  size : length payload ≡ 2 + length id
  size = rw (length-append (put_uint16 (length id)) id, length-put_uint16 (length id)) refl

  id_size : uint16_at payload 0 ≡ ok (length id)
  id_size = uint16_at-part payload 0 (length id) short (
      slice-part payload [] (put_uint16 (length id)) id 0 2 refl refl
        (rw (length-put_uint16 (length id)) refl))

  id_bytes : slice payload 2 (2 + length id) ≡ ok id
  id_bytes =
      slice-part payload (put_uint16 (length id)) id [] 2 (2 + length id) (simp append-nil)
        (rw (length-put_uint16 (length id)) refl) (rw (length-put_uint16 (length id)) refl)

  some_bytes : (length id == 0) ≡ false
  some_bytes = size_ne id named

  read_client_id-named :
      (l : Link)
      → read_client_id env client only_clean payload l ≡ (
        done (2 + length id),
        record l {
          world = record l.world {
            clients =
                update l.world.clients client (record (l.world.clients client) { client_id = id });
          };
        },
      )
  unfolding read_client_id
  read_client_id-named l =
      let fits : ltb (length payload) (2 + length id) ≡ false = rw size (ground arith) in
      rw (id_size, some_bytes, fits, id_bytes) refl

  on_connect-reads :
      (k₁ k₂ : ℕ) (header arrived rest : List Arrival) (w : World)
      → map (λ a. a.byte) header ≡ connect_header 4 2 k₁ k₂
      → map (λ a. a.byte) arrived ≡ payload
      → on_connect env client
          (12 + length id)
          (record { input = tcp (header ++ (arrived ++ rest)); world = w })
        ≡ accept env client only_clean
            (record { input = tcp rest; world = identified client id (k₁ * 256 + k₂) w })
  unfolding on_connect read_full uint16_at slice uint16 bytes_eq byte_in_slice byte_at
      extract_connect_flags bit_is_set read_will read_username read_password
  on_connect-reads k₁ k₂ header arrived rest w h a =
      let f = full-bytes 10 (connect_header 4 2 k₁ k₂) header (arrived ++ rest) h refl in
      let g = full-bytes (12 + length id - 10) payload arrived rest a (size ∙ omega arith) in
      let long : leb (12 + length id) 10 ≡ false = ground arith in
      rw (long, f, g, read_client_id-named) refl

  identified-id :
      (keep_alive : ℕ) (w : World)
      → ((identified client id keep_alive w).clients client).client_id ≡ id
  identified-id keep_alive w =
      ap (λ c. c.client_id)
        (update_self
          (update w.clients client (record (w.clients client) { keep_alive_secs = keep_alive }))
          client _)

  -- When, on a TCP connection, the bytes of a CONNECT packet arrive that has an identifier of at least one byte and
  -- less than 65536 and asks for a clean session and no more, and the plugins allow every
  -- client, then the client stays in the loop, the bytes after the packet are left, and the
  -- client is entered under the identifier, with every other entry kept; it has a new session
  -- without messages; and the events are that the stored session is deleted, that the client
  -- that was entered under the identifier is closed, and that CONNACK is sent, with no session
  -- present.
  pub on_connect-clean :
      (k₁ k₂ : ℕ) (header arrived rest : List Arrival) (w : World)
      → map (λ a. a.byte) header ≡ connect_header 4 2 k₁ k₂
      → map (λ a. a.byte) arrived ≡ connect_payload id
      → ((es : List Event) (i u p : Bytes) → env.before_connect es i u p ≡ true)
      → ((es : List Event) (i u p : Bytes) → env.connect es i u p ≡ true)
      → (w' : World) × (on_connect env client
            (12 + length id)
            (record { input = tcp (header ++ (arrived ++ rest)); world = w })
          ≡ (done tt, record { input = tcp rest; world = w' }))
        × Welcomed client id w w'
  on_connect-clean k₁ k₂ header arrived rest w h a may stays =
      let keep = k₁ * 256 + k₂ in
      let w₁ = identified client id keep w in
      let (w', e, welcomed) =
        accept-clean env client only_clean (record { input = tcp rest; world = w₁ }) refl
          (may _ _ _ _) stays in
      let v : Welcomed client id w₁ w' =
        subst (λ own. Welcomed client own w₁ w') (identified-id keep w) welcomed in
      (
        w',
        on_connect-reads k₁ k₂ header arrived rest w h a ∙ e,
        record { entered = v.entered; session = v.session; events = v.events },
      )
