-- ===== src/Topic/Alike.antt =====
-- Removing subscriptions changes nothing else in a tree, and keeps it well formed.
use gott.Common.{
  Bool, false, List, [], ◌∷◌, Option, none, some, Bytes, bytes_eq, ◌≡◌, refl, sym, subst, ap, ◌∙◌,
  inl, inr, Bool-cases, Option-cases,
}
use mathlib.Core.Option.{some-injective}
use gott.Types.{Subscription}
use gott.Session.{Sessions}
use gott.Topic.Level.{
  topic_single_level_wildcard, topic_multi_level_wildcard, is_some, Node, Forest, no_levels, level,
  Level, find, modify,
}
use gott.Topic.Storage.{TopicStorage, traverse_delete, delete_all, reads_nil, clean_or_false}
use gott.Topic.Subscriptions.{delete_subscription}
use gott.Topic.Paths.{IsOk}
use gott.Topic.FindAll.{find_here}
use gott.Topic.Delivery.{StorageOk}

-- Two trees that differ in their subscriptions at most.
pub data Alike : Forest → Forest → Type 0 where
  nothing : Alike no_levels no_levels
  levels :
      {n : Node} {ch rest ch' rest' : Forest} {s : List Subscription}
      → Alike ch ch'
      → Alike rest rest'
      → Alike (level n ch rest) (level (record n { subscriptions = s }) ch' rest')

pub Alike-refl : (f : Forest) → Alike f f
Alike-refl no_levels = nothing
Alike-refl (level n ch rest) = levels (Alike-refl ch) (Alike-refl rest)

-- A name is found in the one where it is found in the other.
is_some-find-Alike :
    (b : Bytes) (f g : Forest) → Alike f g → is_some (find b g) ≡ is_some (find b f)
unfolding find
is_some-find-Alike b no_levels no_levels nothing = refl
is_some-find-Alike b no_levels (level _ _ _) a = elim a [ ]
is_some-find-Alike b (level _ _ _) no_levels a = elim a [ ]
is_some-find-Alike b (level n ch rest) (level _ ch' rest') (levels c r) =
    elim (Bool-cases (bytes_eq n.bytes b)) [
      | inl h ↦ rw (h, find) refl
      | inr h ↦ rw (h, find) (is_some-find-Alike b rest rest' r)
    ]

none_of : {A : Type 0} (o : Option A) → is_some o ≡ false → o ≡ none
none_of none h = refl
none_of (some a) h = cc

Alike-leaf : (f g : Forest) → Alike f g → f ≡ no_levels → g ≡ no_levels
Alike-leaf no_levels no_levels nothing e = refl
Alike-leaf no_levels (level _ _ _) a e = elim a [ ]
Alike-leaf (level _ _ _) no_levels a e = refl
Alike-leaf (level n ch rest) (level m ch' rest') a e = cc

pub Alike-IsOk : (f g : Forest) → Alike f g → IsOk f → IsOk g
Alike-IsOk no_levels no_levels nothing ok = tt
Alike-IsOk no_levels (level _ _ _) a ok = elim a [ ]
Alike-IsOk (level _ _ _) no_levels a ok = tt
Alike-IsOk (level n ch rest) (level _ ch' rest') (levels c r) ok =
    let o = ok.0 in
    (
      record {
        single_flag =
            λ e. o.single_flag (sym (is_some-find-Alike topic_single_level_wildcard ch ch' c) ∙ e);
        multi_flag =
            λ e. o.multi_flag (sym (is_some-find-Alike topic_multi_level_wildcard ch ch' c) ∙ e);
        multi_leaf = λ e. Alike-leaf ch ch' c (o.multi_leaf e);
        multi_bare = o.multi_bare;
      },
      Alike-IsOk ch ch' c ok.1,
      Alike-IsOk rest rest' r ok.2,
      none_of (find n.bytes rest') (is_some-find-Alike n.bytes rest rest' r ∙ ap is_some ok.3),
    )

pub Alike-StorageOk :
    (ts : TopicStorage) (f : Forest)
    → Alike ts.filters f
    → StorageOk ts
    → StorageOk (record ts { filters = f })
Alike-StorageOk ts f a ok = record {
  single_flag =
      λ e. ok.single_flag (sym (is_some-find-Alike topic_single_level_wildcard ts.filters f a) ∙ e);
  multi_flag =
      λ e. ok.multi_flag (sym (is_some-find-Alike topic_multi_level_wildcard ts.filters f a) ∙ e);
  levels = Alike-IsOk ts.filters f a ok.levels;
}

-- A change of the level that `find` returns, to one that is alike.
modify-Alike :
    (g : Node → Forest → Level) (b : Bytes) (f : Forest) (l : Level) (s : List Subscription)
    (ch : Forest)
    → find b f ≡ some l
    → g l.node l.children ≡ record { node = record l.node { subscriptions = s }; children = ch }
    → Alike l.children ch
    → Alike f (modify g b f)
unfolding find modify
modify-Alike g b no_levels l s ch e h a = cc
modify-Alike g b (level n nch rest) l s ch e h a = elim (Bool-cases (bytes_eq n.bytes b)) [
  | inl hit ↦
      let same =
        some-injective (record { node = n; children = nch }) l
          (sym (find_here b n nch rest hit) ∙ e) in
      let h' =
        subst
          (λ (k : Level).
            g k.node k.children
            ≡ record { node = record k.node { subscriptions = s }; children = ch })
          (sym same) h in
      let a' = subst (λ (k : Level). Alike k.children ch) (sym same) a in
      rw (hit, modify) (rw h' (levels a' (Alike-refl rest)))
  | inr miss ↦
      rw (miss, modify)
        (levels (Alike-refl nch) (modify-Alike g b rest l s ch (rw (miss, find) at e) h a))
]

module _ (client_id : Bytes) where
  pub delete_all-Alike :
      (clean : Option Bool) (graceful : Bool) (h : Sessions) (f : Forest)
      → Alike f (delete_all client_id clean graceful h f).levels
  unfolding delete_all
  delete_all-Alike clean graceful h no_levels = nothing
  delete_all-Alike clean graceful h (level n ch rest) =
      elim (Bool-cases (reads_nil client_id clean graceful h n.subscriptions)) [
        | inl e ↦ rw (e, delete_all) (Alike-refl (level n ch rest))
        | inr e ↦
            let d =
              delete_subscription h client_id (clean_or_false clean) graceful n.subscriptions in
            let below = delete_all client_id clean false d.sessions ch in
            let b = delete_all-Alike clean false d.sessions ch in
            elim (Bool-cases below.panicked) [
              | inl p ↦ rw (e, p, delete_all) (levels b (Alike-refl rest))
              | inr p ↦
                  rw (e, p, delete_all)
                    (levels b (delete_all-Alike clean graceful below.sessions rest))
            ]
      ]

  pub traverse_delete-Alike :
      (clean : Bool) (segs : List Bytes) (h : Sessions) (f : Forest)
      → Alike f (traverse_delete client_id clean segs h f).levels
  unfolding traverse_delete
  traverse_delete-Alike clean [] h f = Alike-refl f
  traverse_delete-Alike clean (b ∷ []) h f = elim (Option-cases (find b f)) [
    | inl e ↦ rw (e, traverse_delete) (Alike-refl f)
    | inr (l, e) ↦
        rw (e, traverse_delete) (modify-Alike _ b f l _ l.children e refl (Alike-refl l.children))
  ]
  traverse_delete-Alike clean (b ∷ c ∷ segs) h f = elim (Option-cases (find b f)) [
    | inl e ↦ rw (e, traverse_delete) (Alike-refl f)
    | inr (l, e) ↦
        rw (e, traverse_delete)
          (modify-Alike _ b f l l.node.subscriptions _ e refl
            (traverse_delete-Alike clean (c ∷ segs) h l.children))
  ]
