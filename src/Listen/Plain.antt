-- ===== src/Listen/Plain.antt =====
-- What is read of the remaining length is a value or `break loop`.
use gott.Common.{ℕ, List, [], ◌∷◌, Bytes, leb, Bool-cases, inl, inr}
use gott.Bytes.{Decoded, value, malformed}
use gott.Listen.{
  Arrival, Piece, octet, binary_message, text_message, Input, tcp, web, Result, done, leave, skip,
  panics, decoded,
}
use gott.Listen.Read.{then_byte, length_bytes, web_length, read_input}

-- A value or `break loop`.
abbrev pub Plain {ℓ} : {A : Type ℓ} → Result A → Type 0
Plain (done _) = Unit
Plain leave = Unit
Plain skip = ⊥
Plain panics = ⊥

longer-Plain : (b : ℕ) (r : Result Bytes) → Plain (then_byte b r)
longer-Plain b (done bs) = tt
longer-Plain b leave = tt
longer-Plain b skip = tt
longer-Plain b panics = tt

length_bytes-Plain : (last : ℕ) (arrived : List Arrival) → Plain (length_bytes last arrived).0
unfolding length_bytes
length_bytes-Plain last [] = elim (Bool-cases (leb 128 last)) [ inl e ↦ rw e tt | inr e ↦ rw e tt ]
length_bytes-Plain last (a ∷ rest) = elim (Bool-cases (leb 128 last)) [
  | inl e ↦ rw (e, length_bytes) (longer-Plain a.byte (length_bytes a.byte rest).0)
  | inr e ↦ rw (e, length_bytes) tt
]

web_length-Plain : (last : ℕ) (arrived : List Piece) → Plain (web_length last arrived).0
unfolding web_length
web_length-Plain last [] = elim (Bool-cases (leb 128 last)) [ inl e ↦ rw e tt | inr e ↦ rw e tt ]
web_length-Plain last (octet b ∷ rest) = elim (Bool-cases (leb 128 last)) [
  | inl e ↦ rw (e, web_length) (longer-Plain b (web_length b rest).0)
  | inr e ↦ rw (e, web_length) tt
]
web_length-Plain last (binary_message ∷ rest) = elim (Bool-cases (leb 128 last)) [
  | inl e ↦ rw (e, web_length) (web_length-Plain last rest)
  | inr e ↦ rw (e, web_length) tt
]
web_length-Plain last (text_message ∷ rest) = elim (Bool-cases (leb 128 last)) [
  | inl e ↦ rw e tt
  | inr e ↦ rw e tt
]

pub read_length-Plain :
    (last : ℕ) (input : Input) → Plain (read_input (length_bytes last) (web_length last) input).0
read_length-Plain last (tcp arrived) = length_bytes-Plain last arrived
read_length-Plain last (web arrived) = web_length-Plain last arrived

pub decoded-Plain : (d : Decoded) → Plain (decoded d)
decoded-Plain (value n) = tt
decoded-Plain malformed = tt
