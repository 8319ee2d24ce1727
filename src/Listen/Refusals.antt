-- ===== src/Listen/Refusals.antt =====
-- CONNECT packets that `listen` refuses.
use gott.Common.{
  ℕ, ◌<◌, false, List, [], ◌∷◌, ◌++◌, map, Bytes, bytes_eq, ◌==◌, leb, ◌≡◌, ◌≢◌, refl, arith,
}
use gott.Common.Slices.{byte_in_slice}
use gott.Types.{unacceptable_proto, code_byte}
use gott.Topic.Filter.{byte_at}
use gott.Packets.{make_conn_ack}
use gott.Extractors.{slice, uint16, uint16_at}
use gott.Broker
use gott.Broker.{World}
use gott.Broker.Environment.{Environment}
use gott.Listen.{tcp, Arrival, leave}
use gott.Listen.Read.{read_full}
use gott.Listen.Received.{full-bytes}
use gott.Listen.Connect.{on_connect}

-- The variable header of CONNECT up to the protocol version, then the flags and the keep-alive time.
abbrev pub connect_header : (version flags k₁ k₂ : ℕ) → Bytes
connect_header version flags k₁ k₂ =
    0 ∷ 4 ∷ b'M' ∷ b'Q' ∷ b'T' ∷ b'T' ∷ version ∷ flags ∷ k₁ ∷ k₂ ∷ []

-- On a TCP connection, a CONNECT packet of a protocol version other than 4, and of a remaining length above 10, is
-- answered by CONNACK with the code for an unacceptable version, the loop is left, and nothing
-- after the variable header is read.
pub on_connect-version :
    (env : Environment) (client rem_len version flags k₁ k₂ : ℕ) (arrived rest : List Arrival)
    (w : World)
    → 10 < rem_len
    → map (λ a. a.byte) arrived ≡ connect_header version flags k₁ k₂
    → version ≢ 4
    → on_connect env client rem_len (record { input = tcp (arrived ++ rest); world = w }) ≡ (
      leave,
      record {
        input = tcp rest;
        world = Broker.emit client (make_conn_ack 0 (code_byte unacceptable_proto)) w;
      },
    )
unfolding on_connect read_full uint16_at slice uint16 bytes_eq byte_in_slice byte_at code_byte
on_connect-version env client rem_len version flags k₁ k₂ arrived rest w h bytes v =
    let long : leb rem_len 10 ≡ false = ground arith in
    let f = full-bytes 10 (connect_header version flags k₁ k₂) arrived rest bytes refl in
    let other : (4 == version) ≡ false = ground arith in rw (long, f, other) refl
