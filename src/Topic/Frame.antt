-- ===== src/Topic/Frame.antt =====
-- `Subscribe` leaves every retained message alone, and `Retain` every subscription.
use gott.Common.{
  ℕ, Bool, false, List, [], ◌∷◌, Option, none, Bytes, ◌≡◌, refl, ◌∙◌, ◌&&◌, bytes_eq, arith,
  if◌then◌else◌,
}
use gott.Types.{Message}
use gott.Session.{Sessions}
use gott.Topic.Level.{
  Node, Forest, Level, subscribe_at, mark_wildcard, parse_children, parse_children_retain, new_node,
}
use gott.Topic.Storage.{TopicStorage, subscribe_segs, retain_segs}
use gott.Topic.Paths.{look, subs_at, retained_at}
use gott.Topic.Upsert.{upsert}
use gott.Topic.WellFormed.{
  parse_children-KeepsName, retain_at, retain_at-KeepsName, retain_top, retain_top-KeepsName,
  retain_top-nil, retain_top-cons, retain_segs-nil, retain_segs-upsert, upsert_top-filters,
}
use gott.Topic.Insert.{Changes, upsert-look, subs, retained}

abbrev no_path : List Bytes → Bool
no_path _ = false

if_same {ℓ} : {A : Type ℓ} (b : Bool) (x : A) → (if b then x else x) ≡ x
if_same b x = ground arith

module _ {ℓ} {X : Type ℓ} (view : Node → X) (x : X) where
  -- A change that the view does not see.
  abbrev Unseen : (Node → Forest → Level) → Bytes → Type ℓ
  Unseen g b = Changes view x (λ m. m) g b no_path

  upsert-Unseen :
      (g : Node → Forest → Level) (b : Bytes) (f : Forest)
      → view (new_node b) ≡ x
      → Unseen g b
      → (a : Bytes) (q : List Bytes) → look view x (a ∷ q) (upsert g b f) ≡ look view x (a ∷ q) f
  upsert-Unseen g b f fresh s a q =
      upsert-look view x (λ m. m) g b f no_path fresh s a q
      ∙ if_same (bytes_eq b a && false) (look view x (a ∷ q) f)

module _ (h : Sessions) (client_id : Bytes) (session : ℕ) (qos : ℕ) where
  mark_wildcard-retained :
      (b : Bytes) (n : Node)
      → (mark_wildcard h client_id session qos b n).retained_message ≡ n.retained_message
  unfolding mark_wildcard
  mark_wildcard-retained b n = ground arith

  subscribe_at-Unseen :
      (b : Bytes)
      → Unseen retained none
          (λ l lch. record { node = subscribe_at h client_id session qos l; children = lch })
          b
  subscribe_at-Unseen b = record {
    keeps = λ _ _. refl;
    own = λ _ _ _. refl;
    below = λ _ _ _ _ _. refl;
  }

  parse_children-Unseen :
      (segs : List Bytes) (b : Bytes)
      → Unseen retained none (parse_children h client_id session qos segs) b
  unfolding parse_children
  parse_children-Unseen [] b = record {
    keeps = λ _ _. refl;
    own = λ _ _ _. refl;
    below = λ _ _ _ _ _. refl;
  }
  parse_children-Unseen (c ∷ []) b = record {
    keeps = parse_children-KeepsName h client_id session qos (c ∷ []);
    own = λ n ch e. mark_wildcard-retained c n;
    below = λ n ch a q e. upsert-Unseen retained none _ c ch refl (subscribe_at-Unseen c) a q;
  }
  parse_children-Unseen (c ∷ d ∷ segs) b = record {
    keeps = parse_children-KeepsName h client_id session qos (c ∷ d ∷ segs);
    own = λ n ch e. mark_wildcard-retained c n;
    below = λ n ch a q e.
        upsert-Unseen retained none _ c ch refl (parse_children-Unseen (d ∷ segs) c) a q;
  }

  -- `Subscribe` leaves the retained message of every path as it was.
  pub retained_at-subscribe :
      (segs : List Bytes) (ts : TopicStorage) (a : Bytes) (q : List Bytes)
      → retained_at (a ∷ q) (subscribe_segs h client_id session qos segs ts).filters
        ≡ retained_at (a ∷ q) ts.filters
  unfolding subscribe_segs
  retained_at-subscribe [] ts a q = refl
  retained_at-subscribe (b ∷ []) ts a q =
      rw upsert_top-filters
        (upsert-Unseen retained none _ b ts.filters refl (subscribe_at-Unseen b) a q)
  retained_at-subscribe (b ∷ c ∷ segs) ts a q =
      rw upsert_top-filters
        (upsert-Unseen retained none _ b ts.filters refl (parse_children-Unseen (c ∷ segs) b) a q)

module _ (msg : Option Message) where
  retain_at-Unseen : (b : Bytes) → Unseen subs [] (retain_at msg) b
  retain_at-Unseen b = record {
    keeps = retain_at-KeepsName msg;
    own = λ n ch e. ground arith;
    below = λ n ch c q e. refl;
  }

  parse_children_retain-Unseen :
      (segs : List Bytes) (b : Bytes) → Unseen subs [] (parse_children_retain msg segs) b
  unfolding parse_children_retain
  parse_children_retain-Unseen [] b = record {
    keeps = λ _ _. refl;
    own = λ _ _ _. refl;
    below = λ _ _ _ _ _. refl;
  }
  parse_children_retain-Unseen (c ∷ []) b = record {
    keeps = λ _ _. refl;
    own = λ n ch e. refl;
    below = λ n ch a q e. upsert-Unseen subs [] (retain_at msg) c ch refl (retain_at-Unseen c) a q;
  }
  parse_children_retain-Unseen (c ∷ d ∷ segs) b = record {
    keeps = λ _ _. refl;
    own = λ n ch e. refl;
    below = λ n ch a q e.
        upsert-Unseen subs [] _ c ch refl (parse_children_retain-Unseen (d ∷ segs) c) a q;
  }

  retain_top-Unseen : (segs : List Bytes) (b : Bytes) → Unseen subs [] (retain_top msg segs) b
  retain_top-Unseen [] b = record {
    keeps = retain_top-KeepsName msg [];
    own = λ n ch e. rw retain_top-nil (ground arith);
    below = λ n ch c q e. rw retain_top-nil refl;
  }
  retain_top-Unseen (c ∷ segs) b =
      let s = parse_children_retain-Unseen (c ∷ segs) b in
      record {
        keeps = retain_top-KeepsName msg (c ∷ segs);
        own = λ n ch e. rw retain_top-cons (s.own n ch e);
        below = λ n ch a q e. rw retain_top-cons (s.below n ch a q e);
      }

  -- `Retain` leaves the subscriptions of every path as they were.
  pub subs_at-retain :
      (segs : List Bytes) (ts : TopicStorage) (a : Bytes) (q : List Bytes)
      → subs_at (a ∷ q) (retain_segs msg segs ts).filters ≡ subs_at (a ∷ q) ts.filters
  subs_at-retain [] ts a q = rw retain_segs-nil refl
  subs_at-retain (b ∷ segs) ts a q =
      rw (retain_segs-upsert msg b segs ts, upsert_top-filters (retain_top msg segs) b ts)
        (upsert-Unseen subs [] _ b ts.filters refl (retain_top-Unseen segs b) a q)
