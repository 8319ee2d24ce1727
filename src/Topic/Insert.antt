-- ===== src/Topic/Insert.antt =====
-- What `Subscribe` and `Retain` change, path by path.
use gott.Common.{
  ℕ, Bool, true, false, ◌&&◌, List, [], ◌∷◌, Option, none, Bytes, bytes_eq, bytes_eq→eq,
  if◌then◌else◌, ◌≡◌, refl, ap, inl, inr, ◌≢◌, Bool-cases, arith,
}
use gott.Types.{Message, Subscription}
use gott.Session.{Sessions}
use gott.Topic.Subscriptions.{create_or_update}
use gott.Topic.Level.{
  is_single, is_multi, Node, Forest, Level, subscribe_at, mark_wildcard, parse_children,
  parse_children_retain, new_node,
}
use gott.Topic.Storage.{TopicStorage, subscribe_segs, retain_segs}
use gott.Topic.Paths.{single_of_multi, MultiLast, look, subs_at, retained_at}
use gott.Topic.Upsert.{
  upsert, KeepsName, found_or_new-bytes, look-or_new, look-or_new_cons, look-upsert_ne,
  look-upsert_one, look-upsert_cons,
}
use gott.Topic.WellFormed.{
  Plain, parse_children-KeepsName, parse_children_retain-KeepsName, retain_at, retain_at-KeepsName,
  retain_top, retain_top-KeepsName, retain_top-nil, retain_top-cons, retain_segs-nil,
  retain_segs-upsert, upsert_top-filters,
}

-- A filter is subscribed to at its own path and, where its last part is "#", at the path before that.
abbrev pub touches : List Bytes → List Bytes → Bool
touches [] [] = true
touches [] (b ∷ []) = is_multi b
touches [] (b ∷ c ∷ r) = false
touches (a ∷ q) [] = false
touches (a ∷ q) (b ∷ segs) = bytes_eq b a && touches q segs

abbrev pub subs : Node → List Subscription
subs n = n.subscriptions

-- A change of one level, seen by a view that it changes by `upd`: a general rule for both kinds of
-- change. `own` tells whether the level itself is changed and `below` whether a path below it is.
module _ {ℓ} {X : Type ℓ} (view : Node → X) (x : X) (upd : X → X) where
  -- The rule's premises for a change `g` of the level `b`.
  pub record Changes (g : Node → Forest → Level) (b : Bytes) (hit : List Bytes → Bool)
      : Type ℓ where
    pub keeps : KeepsName g
    pub own :
        (n : Node) (ch : Forest)
        → n.bytes ≡ b
        → view (g n ch).node ≡ (if hit [] then upd (view n) else view n)
    pub below :
        (n : Node) (ch : Forest) (c : Bytes) (q : List Bytes)
        → n.bytes ≡ b
        → look view x (c ∷ q) (g n ch).children
          ≡ (if hit (c ∷ q) then upd (look view x (c ∷ q) ch) else look view x (c ∷ q) ch)

  module _ (g : Node → Forest → Level) (b : Bytes) (f : Forest) (hit : List Bytes → Bool)
      (fresh : view (new_node b) ≡ x) (s : Changes g b hit) where
    upsert-look_self :
        (q : List Bytes)
        → look view x (b ∷ q) (upsert g b f)
          ≡ (if hit q then upd (look view x (b ∷ q) f) else look view x (b ∷ q) f)
    upsert-look_self [] =
        rw (look-upsert_one view x g s.keeps b f, look-or_new view x b f fresh)
          (s.own _ _ (found_or_new-bytes b f))
    upsert-look_self (c ∷ q) =
        rw (look-upsert_cons view x g s.keeps b f c q, look-or_new_cons view x b c q f)
          (s.below _ _ c q (found_or_new-bytes b f))

    pub upsert-look :
        (a : Bytes) (q : List Bytes)
        → look view x (a ∷ q) (upsert g b f)
          ≡ (if bytes_eq b a && hit q then upd (look view x (a ∷ q) f) else look view x (a ∷ q) f)
    upsert-look a q = elim (Bool-cases (bytes_eq b a)) [
      | inl h ↦ rw h (rw (← bytes_eq→eq b a h) (upsert-look_self q))
      | inr h ↦ rw h (look-upsert_ne view x g s.keeps b f a q h)
    ]

touches-cons :
    (b : Bytes) (segs : List Bytes) (a : Bytes) (q : List Bytes)
    → touches (a ∷ q) (b ∷ segs) ≡ bytes_eq b a && touches q segs
touches-cons b segs a q = refl

-- `parseChildren` creates or updates the subscription at the paths that the filter touches.
module _ (h : Sessions) (client_id : Bytes) (session : ℕ) (qos : ℕ) where
  abbrev put : List Subscription → List Subscription
  put = create_or_update h client_id session qos

  mark_wildcard-subs :
      (b : Bytes) (n : Node)
      → (mark_wildcard h client_id session qos b n).subscriptions
        ≡ (if is_multi b then put n.subscriptions else n.subscriptions)
  unfolding mark_wildcard
  mark_wildcard-subs b n = ground (arith, single_of_multi b)

  subscribe_at-Changes :
      (b : Bytes)
      → Changes subs [] put
          (λ l lch. record { node = subscribe_at h client_id session qos l; children = lch })
          b
          (λ q. touches q [])
  subscribe_at-Changes b = record {
    keeps = λ _ _. refl;
    own = λ _ _ _. refl;
    below = λ _ _ _ _ _. refl;
  }

  parse_children-Changes :
      (segs : List Bytes) (b : Bytes)
      → segs ≢ []
      → MultiLast segs
      → Changes subs [] put (parse_children h client_id session qos segs) b (λ q. touches q segs)
  unfolding parse_children
  parse_children-Changes [] b ne last = absurd (ne refl)
  parse_children-Changes (c ∷ []) b ne last = record {
    keeps = parse_children-KeepsName h client_id session qos (c ∷ []);
    own = λ n ch e. mark_wildcard-subs c n;
    below = λ n ch a q e.
        upsert-look subs [] put _ c ch (λ p. touches p []) refl (subscribe_at-Changes c) a q;
  }
  parse_children-Changes (c ∷ d ∷ segs) b ne last = record {
    keeps = parse_children-KeepsName h client_id session qos (c ∷ d ∷ segs);
    own = λ n ch e. rw (mark_wildcard-subs, last.0) refl;
    below = λ n ch a q e.
        upsert-look subs [] put _ c ch (λ p. touches p (d ∷ segs)) refl
          (parse_children-Changes (d ∷ segs) c (λ z. cc) last.1) a q;
  }

  -- `subscribe_segs` with "#" in no part of the filter but the last creates or updates the session's
  -- subscription at the filter's path, and where the filter ends in "#" at the path before it; every
  -- other path keeps its subscriptions.
  pub subs_at-subscribe :
      (segs : List Bytes) (ts : TopicStorage) (a : Bytes) (q : List Bytes)
      → MultiLast segs
      → subs_at (a ∷ q) (subscribe_segs h client_id session qos segs ts).filters ≡ (
          if touches (a ∷ q) segs
          then create_or_update h client_id session qos (subs_at (a ∷ q) ts.filters)
          else subs_at (a ∷ q) ts.filters)
  unfolding subscribe_segs
  subs_at-subscribe [] ts a q last = refl
  subs_at-subscribe (b ∷ []) ts a q last =
      rw upsert_top-filters (
        upsert-look subs [] put _ b ts.filters (λ p. touches p []) refl (subscribe_at-Changes b) a
          q)
  subs_at-subscribe (b ∷ c ∷ segs) ts a q last = rw upsert_top-filters (
      upsert-look subs [] put _ b ts.filters (λ p. touches p (c ∷ segs)) refl
        (parse_children-Changes (c ∷ segs) b (λ z. cc) last.1) a q)

abbrev pub retained : Node → Option Message
retained n = n.retained_message

-- Two paths are one.
abbrev pub same_path : List Bytes → List Bytes → Bool
same_path [] [] = true
same_path [] (b ∷ p) = false
same_path (a ∷ q) [] = false
same_path (a ∷ q) (b ∷ p) = bytes_eq b a && same_path q p

-- `parseChildrenRetain` sets the retained message at the topic's path only.
module _ (msg : Option Message) where
  retain_at-Changes :
      (b : Bytes)
      → is_single b ≡ false
      → Changes retained none (λ _. msg) (retain_at msg) b (λ q. same_path q [])
  retain_at-Changes b s = record {
    keeps = retain_at-KeepsName msg;
    own = λ n ch e. ground (arith, ap is_single e);
    below = λ n ch c q e. refl;
  }

  parse_children_retain-Changes :
      (segs : List Bytes) (b : Bytes)
      → segs ≢ []
      → Plain segs
      → Changes retained none (λ _. msg) (parse_children_retain msg segs) b (λ q. same_path q segs)
  unfolding parse_children_retain
  parse_children_retain-Changes [] b ne p = absurd (ne refl)
  parse_children_retain-Changes (c ∷ []) b ne p = record {
    keeps = parse_children_retain-KeepsName msg (c ∷ []);
    own = λ n ch e. refl;
    below = λ n ch a q e.
        upsert-look retained none (λ _. msg) (retain_at msg) c ch (λ r. same_path r []) refl
          (retain_at-Changes c p.0) a q;
  }
  parse_children_retain-Changes (c ∷ d ∷ segs) b ne p = record {
    keeps = parse_children_retain-KeepsName msg (c ∷ d ∷ segs);
    own = λ n ch e. refl;
    below = λ n ch a q e.
        upsert-look retained none (λ _. msg) _ c ch (λ r. same_path r (d ∷ segs)) refl
          (parse_children_retain-Changes (d ∷ segs) c (λ z. cc) p.2) a q;
  }

  retain_top-Changes :
      (segs : List Bytes) (b : Bytes)
      → Plain (b ∷ segs)
      → Changes retained none (λ _. msg) (retain_top msg segs) b (λ q. same_path q segs)
  retain_top-Changes [] b p = record {
    keeps = retain_top-KeepsName msg [];
    own = λ n ch e. rw retain_top-nil (ground (arith, ap is_single e));
    below = λ n ch c q e. rw retain_top-nil refl;
  }
  retain_top-Changes (c ∷ segs) b p =
      let s = parse_children_retain-Changes (c ∷ segs) b (λ z. cc) p.2 in
      record {
        keeps = retain_top-KeepsName msg (c ∷ segs);
        own = λ n ch e. rw retain_top-cons (s.own n ch e);
        below = λ n ch a q e. rw retain_top-cons (s.below n ch a q e);
      }

  -- `Retain` on a topic with no wildcard sets the retained message at the topic's path, and clears
  -- it there when it is given none; every other path keeps its message.
  pub retained_at-retain :
      (segs : List Bytes) (ts : TopicStorage) (a : Bytes) (q : List Bytes)
      → Plain segs
      → retained_at (a ∷ q) (retain_segs msg segs ts).filters
        ≡ (if same_path (a ∷ q) segs then msg else retained_at (a ∷ q) ts.filters)
  retained_at-retain [] ts a q p = rw retain_segs-nil refl
  retained_at-retain (b ∷ segs) ts a q p =
      rw (retain_segs-upsert msg b segs ts, upsert_top-filters (retain_top msg segs) b ts)
        (upsert-look retained none (λ _. msg) _ b ts.filters (λ r. same_path r segs) refl
          (retain_top-Changes segs b p) a q)
