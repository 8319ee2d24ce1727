-- ===== src/Plugins/Order.antt =====
-- Which plugins are asked, and in which order.
use gott.Common.{
  Bool, true, false, List, [], ◌∷◌, Option, none, some, ◌≡◌, refl, inl, inr, Bool-cases,
  Option-cases, ap₂,
}
use gott.Plugins.{Decides, ask}

module _ {P A S : Type 0} (hook : P → Option (Decides A S)) (a : A) where
  -- What a plugin does in the state `s`, which it leaves as `s'`: it has no such hook, or it agrees, or
  -- it refuses.
  pub data Agrees (p : P) (s s' : S) : Type 0 where
    silent : hook p ≡ none → s ≡ s' → Agrees p s s'
    approves : (f : Decides A S) → hook p ≡ some f → f a s ≡ (true, s') → Agrees p s s'

  pub data Refuses (p : P) (s s' : S) : Type 0 where
    refuses : (f : Decides A S) → hook p ≡ some f → f a s ≡ (false, s') → Refuses p s s'

  -- The plugins up to the first that refuses, each in the state that the one before it left; those
  -- after it are not asked.
  pub data Asked : List P → S → Bool × S → Type 0 where
    all_agree : {s : S} → Asked [] s (true, s)
    agrees :
        {p : P} {ps : List P} {s s' : S} {r : Bool × S}
        → Agrees p s s'
        → Asked ps s' r
        → Asked (p ∷ ps) s r
    refused : {p : P} {ps : List P} {s s' : S} → Refuses p s s' → Asked (p ∷ ps) s (false, s')

  -- The plugins are asked in their order up to the first that refuses, each in the state that the one
  -- before it left, and those after it are not asked.
  pub ask-Asked : (ps : List P) (s : S) → Asked ps s (ask hook ps a s)
  unfolding ask
  ask-Asked [] s = all_agree
  ask-Asked (p ∷ ps) s = elim (Option-cases (hook p)) [
    | inl e ↦ rw (e, ask) (agrees (silent e refl) (ask-Asked ps s))
    | inr (f, e) ↦
        rw (e, ask)
          (elim (Bool-cases (f a s).0) [
            | inl h ↦
                rw h (agrees (approves f e (ap₂ (λ b t. (b, t)) h refl)) (ask-Asked ps (f a s).1))
            | inr h ↦ rw h (refused (refuses f e (ap₂ (λ b t. (b, t)) h refl)))
          ])
  ]
