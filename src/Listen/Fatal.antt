-- ===== src/Listen/Fatal.antt =====
-- A refused client whose end is the end of the program.
use gott.Common.{ℕ, false, List, ◌∷◌, Bytes, ◌≡◌, refl}
use mathlib.Core.List.{Memᴰ}
use gott.Types.{Subscription}
use gott.Topic.Paths.{subs_at}
use gott.Broker.{World}
use gott.Broker.Environment.{Environment}
use gott.Broker.Crash.{Doomed, gone, gone-Doomed, disconnect-Doomed, subs_at-subscribed}
use gott.Listen.{Link, leave}
use gott.Listen.Loop.{round, crashed, recovered, finish, loop, listen}

-- A client as a refused CONNECT packet leaves it: it has taken an identifier and has no session.
pub record Refused (client : ℕ) (w : World) : Type 0 where
  pub first : ℕ
  pub others : Bytes
  pub named : (w.clients client).client_id ≡ first ∷ others
  pub sessionless : (w.clients client).has_session ≡ false
  pub abrupt : (w.clients client).graceful_disconnect ≡ false

module _ (env : Environment) (client : ℕ) where
  recovered-crashed :
      (w : World) → Doomed client w → recovered env client w ≡ crashed (gone client w)
  recovered-crashed w d = rw (disconnect-Doomed env client w d) refl

  finish-crashed :
      (w : World) → Doomed client w → finish env client w ≡ crashed (gone client (gone client w))
  finish-crashed w d =
      rw (disconnect-Doomed env client w d)
        (recovered-crashed (gone client w) (gone-Doomed client w d))

  -- If a round ends the loop and leaves the client, which has not sent DISCONNECT, with an
  -- identifier but without a session, and somewhere in the tree a session with that identifier
  -- has a subscription, then `listen` ends the whole program: `disconnect` panics, and panics
  -- again where it is called to recover.
  pub listen-crashed :
      (l l' : Link) (p : List Bytes) (sub : Subscription)
      → round env client l ≡ (leave, l')
      → Refused client l'.world
      → Memᴰ sub (subs_at p l'.world.storage.filters)
      → (l'.world.sessions sub.session).id ≡ (l'.world.clients client).client_id
      → listen env client l ≡ crashed (gone client (gone client l'.world))
  unfolding listen loop
  listen-crashed l l' p sub e r m same =
      let d : Doomed client l'.world = record {
        first = r.first;
        others = r.others;
        named = r.named;
        sessionless = r.sessionless;
        abrupt = r.abrupt;
        subscribed = subs_at-subscribed l'.world.sessions _ p l'.world.storage.filters sub m same;
      } in
      rw e (finish-crashed l'.world d)
