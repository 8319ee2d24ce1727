-- ===== src/WebSockets/Origins.antt =====
-- Which origins a server accepts.
use gott.Common.{
  Bool, true, false, ◌&&◌, List, [], ◌∷◌, Bytes, bytes_eq, bytes_eq→eq, bytes_eq_self, length,
  if◌then◌else◌, ◌==◌, ◌≡◌, ◌≢◌, refl, sym, subst, ◌↔◌, ◌⊎◌, inl, inr, arith, Bool-cases,
}
use gott.Common.Slices.{string_in_slice}
use mathlib.Core.List.{Memᴰ}
use gott.Config.{Config}
use gott.WebSockets.{check_origin, new_web_sockets_server}

-- `StringInSlice` is membership.
string_in_slice-Memᴰ : (s : Bytes) (sl : List Bytes) → string_in_slice s sl ≡ true → Memᴰ s sl
unfolding string_in_slice
string_in_slice-Memᴰ s [] h = ground arith
string_in_slice-Memᴰ s (o ∷ sl) h = elim (Bool-cases (bytes_eq o s)) [
  | inl e ↦ Memᴰ.head (sym (bytes_eq→eq o s e))
  | inr e ↦ Memᴰ.tail (string_in_slice-Memᴰ s sl (ground arith))
]

Memᴰ-string_in_slice : (s : Bytes) (sl : List Bytes) → Memᴰ s sl → string_in_slice s sl ≡ true
unfolding string_in_slice
Memᴰ-string_in_slice s [] m = elim m [ ]
Memᴰ-string_in_slice s (o ∷ sl) (Memᴰ.head e) =
    subst (λ x. (if bytes_eq x s then true else string_in_slice s sl) ≡ true) e
      (rw (bytes_eq_self s) refl)
Memᴰ-string_in_slice s (o ∷ sl) (Memᴰ.tail m) = rw (Memᴰ-string_in_slice s sl m) (ground arith)

-- An origin that the list names, and that is not empty where empty ones are to be rejected.
pub record Listed (origins : List Bytes) (reject_empty : Bool) (origin : Bytes) : Type 0 where
  pub named : Memᴰ origin origins
  pub given : reject_empty ≡ true → origin ≢ []

checked-Listed :
    (origins : List Bytes) (reject_empty : Bool) (origin : Bytes)
    → (if length origin == 0 && reject_empty then false else string_in_slice origin origins) ≡ true
    → Listed origins reject_empty origin
checked-Listed os true [] h = ground arith
checked-Listed os false [] h = record {
  named = string_in_slice-Memᴰ [] os h;
  given = λ r. ground arith;
}
checked-Listed os r (x ∷ origin) h = record {
  named = string_in_slice-Memᴰ (x ∷ origin) os (ground arith);
  given = λ _. cc;
}

Listed-checked :
    (origins : List Bytes) (reject_empty : Bool) (origin : Bytes)
    → Listed origins reject_empty origin
    → (if length origin == 0 && reject_empty then false else string_in_slice origin origins) ≡ true
Listed-checked os true [] l = absurd (l.given refl refl)
Listed-checked os false [] l = Memᴰ-string_in_slice [] os l.named
Listed-checked os r (x ∷ origin) l =
    rw (Memᴰ-string_in_slice (x ∷ origin) os l.named) (ground arith)

accepts_iff :
    (origins : List Bytes) (reject_empty : Bool) (origin : Bytes)
    → ((if length origins == 0
          then true
          else if length origin == 0 && reject_empty
          then false
          else string_in_slice origin origins)
        ≡ true)
      ↔ ((origins ≡ []) ⊎ Listed origins reject_empty origin)
accepts_iff [] r origin = (λ h. inl refl, λ h. refl)
accepts_iff (o ∷ os) r origin = (
  λ h. inr (checked-Listed (o ∷ os) r origin (ground arith)),
  λ h. elim h [
    | inl e ↦ absurd cc
    | inr l ↦ rw (Listed-checked (o ∷ os) r origin l) (ground arith)
  ],
)

-- A server accepts a request exactly when its list of origins is empty, or names the request's origin,
-- which must not be empty where empty ones are to be rejected. So with an empty list it accepts a
-- request without an origin even where such are to be rejected.
pub check_origin_iff :
    (c : Config) (origin : Bytes)
    → ((new_web_sockets_server c).upgrader.checks_origin origin ≡ true) ↔ (
        (c.web_sockets.origins ≡ [])
        ⊎ Listed c.web_sockets.origins c.web_sockets.reject_empty_origin origin)
unfolding new_web_sockets_server check_origin
check_origin_iff c origin =
    accepts_iff c.web_sockets.origins c.web_sockets.reject_empty_origin origin
