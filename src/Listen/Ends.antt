-- ===== src/Listen/Ends.antt =====
-- The whole of `listen`: it comes to an end, and keeps the topic tree well formed.
use gott.Common.{ℕ, zero, suc, ◌<◌, ◌≢◌, subst, arith, Bool-cases, inl, inr}
use gott.Broker.{World}
use gott.Broker.Environment.{Environment}
use gott.Broker.WellFormed.{TreeOk}
use gott.Broker.Departure.{disconnect-StorageOk}
use gott.Broker.Clients.{disconnect}
use gott.Listen.{remaining, Link, Result, done, leave, skip, panics}
use gott.Listen.Loop.{
  round, Ended, ended, crashed, out_of_fuel, recovered, finish, proceed, loop, listen,
}
use gott.Listen.Keeps.{Kept}
use gott.Listen.Rounds.{Eats, round-Kept, round-Eats}

-- It comes to an end, with a state that has `P`.
abbrev pub Leaves : (World → Type 0) → Ended → Type 0
Leaves P (ended w) = P w
Leaves P (crashed w) = P w
Leaves P out_of_fuel = ⊥

Leaves-mono :
    {P Q : World → Type 0} (e : Ended) → ((w : World) → P w → Q w) → Leaves P e → Leaves Q e
Leaves-mono (ended w) h p = h w p
Leaves-mono (crashed w) h p = h w p
Leaves-mono out_of_fuel h p = p

module _ (env : Environment) (client : ℕ) where
  recovered-TreeOk : (w : World) → Leaves (λ w'. TreeOk w → TreeOk w') (recovered env client w)
  recovered-TreeOk w = elim (Bool-cases (disconnect env client w).0) [
    | inl e ↦ rw e (disconnect-StorageOk env client w)
    | inr e ↦ rw e (disconnect-StorageOk env client w)
  ]

  finish-TreeOk : (w : World) → Leaves (λ w'. TreeOk w → TreeOk w') (finish env client w)
  finish-TreeOk w =
      let w₁ = (disconnect env client w).1 in
      elim (Bool-cases (disconnect env client w).0) [
        | inl e ↦ rw e (
            Leaves-mono (recovered env client w₁)
              (λ w' h ok. h (disconnect-StorageOk env client w ok)) (recovered-TreeOk w₁))
        | inr e ↦ rw e (disconnect-StorageOk env client w)
      ]

  module _ (l : Link) (again : Link → Ended) where
    proceed-TreeOk :
        (p : Result (Unit {0}) × Link)
        → Kept l p.1
        → Eats l p
        → ((l' : Link)
            → remaining l'.input < remaining l.input
            → Leaves (λ w. TreeOk l'.world → TreeOk w) (again l'))
        → Leaves (λ w. TreeOk l.world → TreeOk w) (proceed env client again p)
    proceed-TreeOk (done _, l') k e h = Leaves-mono (again l') (λ w f ok. f (k.tree ok)) (h l' e)
    proceed-TreeOk (skip, l') k e h = Leaves-mono (again l') (λ w f ok. f (k.tree ok)) (h l' e)
    proceed-TreeOk (leave, l') k e h =
        Leaves-mono (finish env client l'.world) (λ w f ok. f (k.tree ok)) (finish-TreeOk l'.world)
    proceed-TreeOk (panics, l') k e h =
        Leaves-mono (recovered env client l'.world) (λ w f ok. f (k.tree ok))
          (recovered-TreeOk l'.world)

  loop-TreeOk :
      (fuel : ℕ) (l : Link)
      → remaining l.input < fuel
      → Leaves (λ w. TreeOk l.world → TreeOk w) (loop env client fuel l)
  unfolding loop
  loop-TreeOk zero l f = omega (arith, f)
  loop-TreeOk (suc fuel) l f =
      proceed-TreeOk l (loop env client fuel) (round env client l) (round-Kept env client l)
        (round-Eats env client l) λ l' s. loop-TreeOk fuel l' (omega (arith, f, s))

  -- Whatever bytes arrive, `listen` comes to an end.
  pub listen-total : (l : Link) → listen env client l ≢ out_of_fuel
  unfolding listen
  listen-total l e = subst (Leaves _) e (loop-TreeOk (suc (remaining l.input)) l (omega arith))

  -- `listen` leaves the broker with a well-formed topic tree if it finds one, whatever bytes arrive and
  -- however it ends.
  listen-TreeOk : (l : Link) → TreeOk l.world → Leaves TreeOk (listen env client l)
  unfolding listen
  listen-TreeOk l ok =
      Leaves-mono (loop env client (suc (remaining l.input)) l) (λ w f. f ok)
        (loop-TreeOk (suc (remaining l.input)) l (omega arith))
