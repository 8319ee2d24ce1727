-- ===== src/Listen/Keeps.antt =====
-- What an action leaves of the input and of the topic tree, one rule for each way to build an action.
use gott.Common.{
  ℕ, zero, suc, ◌≤◌, Bool, true, false, List, [], ◌∷◌, Bytes, length, if◌then◌else◌, arith,
}
use gott.Broker.{World}
use gott.Broker.WellFormed.{TreeOk}
use gott.Listen.{
  Arrival, Piece, octet, binary_message, text_message, Input, tcp, web, remaining, Link, Result,
  done, leave, skip, panics, Action, pure, ◌>>=◌, ◌>>◌, after, when, gets, changes, emit,
}
use gott.Listen.Read.{
  read_input, reading, header_of, length_bytes, full, web_full, web_header, web_length, next_reader,
  read_header, read_length, read_full, read_next,
}

-- The input grows no longer, and a well-formed tree stays one.
pub record Kept (l l' : Link) : Type 0 where
  pub shorter : remaining l'.input ≤ remaining l.input
  pub tree : TreeOk l.world → TreeOk l'.world

pub Kept-refl : (l : Link) → Kept l l
Kept-refl l = record { shorter = omega arith; tree = λ h. h }

pub Kept-trans : (l m n : Link) → Kept l m → Kept m n → Kept l n
Kept-trans l m n h k = record {
  shorter = omega (arith, h.shorter, k.shorter);
  tree = λ t. k.tree (h.tree t);
}

-- However the action ends.
pub record Keeps {ℓ} {A : Type ℓ} (m : Action A) : Type ℓ where
  pub at : (l : Link) → Kept l (m l).1

module _ {ℓ} {A : Type ℓ} where
  pub Keeps-same : (f : Link → Result A) → Keeps (λ l. (f l, l))
  Keeps-same f = record { at = λ l. Kept-refl l }

  pub Keeps-if :
      (b : Bool) (m n : Action A) → Keeps m → Keeps n → Keeps (λ l. if b then m l else n l)
  Keeps-if true m n km kn = record { at = λ l. km.at l }
  Keeps-if false m n km kn = record { at = λ l. kn.at l }

  pub Keeps-world :
      (r : World → Result A) (f : World → World)
      → ((w : World) → TreeOk w → TreeOk (f w))
      → Keeps (λ l. (r l.world, record l { world = f l.world }))
  Keeps-world r f h = record { at = λ l. record { shorter = omega arith; tree = h l.world } }

  read_input-shorter :
      (f : List Arrival → Result A × List Arrival) (g : List Piece → Result A × List Piece)
      → ((arrived : List Arrival) → length (f arrived).1 ≤ length arrived)
      → ((arrived : List Piece) → length (g arrived).1 ≤ length arrived)
      → (input : Input) → remaining (read_input f g input).1 ≤ remaining input
  read_input-shorter f g hf hg (tcp arrived) = hf arrived
  read_input-shorter f g hf hg (web arrived) = hg arrived

  pub Keeps-reading :
      (f : List Arrival → Result A × List Arrival) (g : List Piece → Result A × List Piece)
      → ((arrived : List Arrival) → length (f arrived).1 ≤ length arrived)
      → ((arrived : List Piece) → length (g arrived).1 ≤ length arrived)
      → Keeps (reading f g)
  Keeps-reading f g hf hg = record {
    at = λ l. record { shorter = read_input-shorter f g hf hg l.input; tree = λ t. t };
  }

module _ {ℓ κ} {A : Type ℓ} {B : Type κ} where
  after-Kept :
      (f : A → Action B) (l : Link) (p : Result A × Link)
      → ((a : A) → Keeps (f a))
      → Kept l p.1
      → Kept l (after f p).1
  after-Kept f l (done a, l') kf h = Kept-trans l l' _ h ((kf a).at l')
  after-Kept f l (leave, l') kf h = h
  after-Kept f l (skip, l') kf h = h
  after-Kept f l (panics, l') kf h = h

  pub Keeps-bind :
      (m : Action A) (f : A → Action B) → Keeps m → ((a : A) → Keeps (f a)) → Keeps (m >>= f)
  Keeps-bind m f km kf = record { at = λ l. after-Kept f l (m l) kf (km.at l) }

header_of-shorter : (input : List Arrival) → length (header_of input).1 ≤ length input
unfolding header_of
header_of-shorter [] = omega arith
header_of-shorter (a ∷ []) = omega arith
header_of-shorter (a ∷ b ∷ rest) = ground arith

length_bytes-shorter :
    (last : ℕ) (input : List Arrival) → length (length_bytes last input).1 ≤ length input
unfolding length_bytes
length_bytes-shorter last [] = omega arith
length_bytes-shorter last (a ∷ rest) = ground (arith, length_bytes-shorter a.byte rest)

full-shorter : (n : ℕ) (input : List Arrival) → length (full n input).1 ≤ length input
unfolding full
full-shorter zero input = omega arith
full-shorter (suc n) [] = omega arith
full-shorter (suc n) (a ∷ rest) = omega (arith, full-shorter n rest)

web_full-shorter : (n : ℕ) (arrived : List Piece) → length (web_full n arrived).1 ≤ length arrived
unfolding web_full
web_full-shorter zero arrived = omega arith
web_full-shorter (suc n) [] = omega arith
web_full-shorter (suc n) (octet b ∷ rest) = omega (arith, web_full-shorter n rest)
web_full-shorter (suc n) (binary_message ∷ rest) = omega (arith, web_full-shorter (suc n) rest)
web_full-shorter (suc n) (text_message ∷ rest) = omega arith

web_header-shorter : (arrived : List Piece) → length (web_header arrived).1 ≤ length arrived
unfolding web_header
web_header-shorter arrived = web_full-shorter 2 arrived

web_length-shorter :
    (last : ℕ) (arrived : List Piece) → length (web_length last arrived).1 ≤ length arrived
unfolding web_length
web_length-shorter last [] = omega arith
web_length-shorter last (octet b ∷ rest) = ground (arith, web_length-shorter b rest)
web_length-shorter last (binary_message ∷ rest) = ground (arith, web_length-shorter last rest)
web_length-shorter last (text_message ∷ rest) = ground arith

next_reader-shorter : (arrived : List Piece) → length (next_reader arrived).1 ≤ length arrived
unfolding next_reader
next_reader-shorter [] = omega arith
next_reader-shorter (octet b ∷ rest) = omega (arith, next_reader-shorter rest)
next_reader-shorter (binary_message ∷ rest) = omega arith
next_reader-shorter (text_message ∷ rest) = omega arith

pub Keeps-read_header : Keeps read_header
unfolding read_header
Keeps-read_header = Keeps-reading header_of web_header header_of-shorter web_header-shorter

pub Keeps-read_length : (last : ℕ) → Keeps (read_length last)
unfolding read_length
Keeps-read_length last = Keeps-reading _ _ (length_bytes-shorter last) (web_length-shorter last)

pub Keeps-read_full : (n : ℕ) → Keeps (read_full n)
unfolding read_full
Keeps-read_full n = Keeps-reading _ _ (full-shorter n) (web_full-shorter n)

pub Keeps-read_next : Keeps read_next
unfolding read_next
Keeps-read_next = Keeps-reading _ next_reader (λ arrived. omega arith) next_reader-shorter

pub Keeps-changes :
    (f : World → World) → ((w : World) → TreeOk w → TreeOk (f w)) → Keeps (changes f)
Keeps-changes f h = Keeps-world (λ _. done tt) f h

pub Keeps-emit : (client : ℕ) (packet : Bytes) → Keeps (emit client packet)
Keeps-emit client packet = Keeps-changes _ (λ w h. h)

pub Keeps-when : (b : Bool) (m : Action (Unit {0})) → Keeps m → Keeps (when b m)
Keeps-when b m km = Keeps-if b m (pure tt) km (Keeps-same _)

-- A hook is asked, and may allow `m`.
pub Keeps-asked :
    (may : World → Bool) (m k : Action (Unit {0}))
    → Keeps m
    → Keeps k
    → Keeps (gets may >>= λ b. when b m >> k)
Keeps-asked may m k km kk =
    Keeps-bind (gets may) (λ b. when b m >> k) (Keeps-same _)
      λ b. Keeps-bind (when b m) (λ _. k) (Keeps-when b m km) λ _. kk

pub ruleset keeps_rules = (Keeps-same, Keeps-when, Keeps-bind, Keeps-changes, Keeps-read_full)
