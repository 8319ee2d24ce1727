-- ===== src/Types/PacketType.antt =====
-- The packet types of constants.go.
use gott.Common.{ℕ}

abbrev pub connect : ℕ
connect = 1

abbrev pub conn_ack : ℕ
conn_ack = 2

abbrev pub publish : ℕ
publish = 3

abbrev pub pub_ack : ℕ
pub_ack = 4

abbrev pub pub_rec : ℕ
pub_rec = 5

abbrev pub pub_rel : ℕ
pub_rel = 6

abbrev pub pub_comp : ℕ
pub_comp = 7

abbrev pub subscribe : ℕ
subscribe = 8

abbrev pub sub_ack : ℕ
sub_ack = 9

abbrev pub unsubscribe : ℕ
unsubscribe = 10

abbrev pub unsub_ack : ℕ
unsub_ack = 11

abbrev pub ping_req : ℕ
ping_req = 12

abbrev pub ping_resp : ℕ
ping_resp = 13

abbrev pub disconnect : ℕ
disconnect = 14
