-- ===== src/Inbox/Hub/Methods.antt =====
-- `add` of a new connection.
use cb_back.Prelude.{
  ℕ, ◌≡◌, false, Text, arith, contains, if◌then◌else◌, ◌||◌, ◌&&◌, text_eq, ◌==◌, true, insert,
  Bool-cases, inl, inr,
}
use cb_back.Prelude.Int.{pos, pos-add, ◌+ℤ◌}
use cb_back.Prelude.Channel.{new_chan}
use cb_back.Prelude.Groups.{add_member}
use cb_back.Prelude.Groups.Add
use cb_back.Prelude.Outcome.{Returns}
use cb_back.Inbox.Hub.{Env, Hub, connections, add, remove}
use cb_back.Inbox.Hub.Remove.{IsWellFormed, Removed, remove_locked-Removed}

-- Nobody's connection, and nothing on its channel.
pub record IsFresh (c : ℕ) (h : Hub) : Type 0 where
  pub outside : (u : Text) → contains (connections u h) c ≡ false
  pub channel : h.send c ≡ new_chan

-- A new connection is registered, and nobody else, exactly while the hub has not been shut down.
pub record Added (e : Env) (c : ℕ) (h : Hub) : Type 0 where
  pub well_formed : IsWellFormed e (add e c h).0
  pub accepted : (add e c h).1 ≡ (if h.is_closed then false else true)
  pub members :
      (u : Text) (d : ℕ)
      → contains (connections u (add e c h).0) d
        ≡ (contains (connections u h) d || ((add e c h).1 && (text_eq (e.user_of c) u && (c == d))))

module _ (e : Env) (c : ℕ) (h : Hub) where
  abbrev entered : Hub
  entered = record h {
    users = insert (e.user_of c) (add_member c (connections (e.user_of c) h)) h.users;
    count = h.count +ℤ pos 1;
  }

  add_open : h.is_closed ≡ false → add e c h ≡ (entered, true)
  unfolding add
  add_open p = rw (add, p)

  add_closed : h.is_closed ≡ true → add e c h ≡ (h, false)
  unfolding add
  add_closed p = rw (add, p)

  module _ (fresh : IsFresh c h) (v : IsWellFormed e h) where
    contains-entered :
        (u : Text) (d : ℕ)
        → contains (connections u entered) d
          ≡ (contains (connections u h) d || (text_eq (e.user_of c) u && (c == d)))
    contains-entered =
        Add.contains-entered e.user_of c h.users (fresh.outside (e.user_of c)) v.grouping

    entered-IsWellFormed : IsWellFormed e entered
    entered-IsWellFormed = record {
      grouping =
          Add.entered-IsGrouping e.user_of c h.users (fresh.outside (e.user_of c)) v.grouping;
      opened = λ u d m. ground (arith, contains-entered u d, v.opened u d, fresh.channel);
      counted =
          rw
            (
              v.counted,
              Add.total-entered e.user_of c h.users (fresh.outside (e.user_of c)) v.grouping,
            )
            (pos-add _ 1);
      bounded = v.bounded;
    }

    -- A new connection is registered, under its user, exactly while the hub has not been shut down; no
    -- other connection is affected, and the hub stays well formed.
    pub add-Added : Added e c h
    add-Added = elim (Bool-cases h.is_closed) [
      | inl p ↦ record {
        well_formed = rw (add_closed p) v;
        accepted = ground (arith, add_closed p, p);
        members = λ u d. rw (add_closed p) (ground arith);
      }
      | inr p ↦ record {
        well_formed = rw (add_open p) entered-IsWellFormed;
        accepted = ground (arith, add_open p, p);
        members = λ u d. rw (add_open p) (contains-entered u d);
      }
    ]

-- `remove` does not panic, also for a connection that is not registered or was removed before: only
-- this connection is unregistered, its channel is closed if it was registered, no other channel
-- changes, and the hub stays well formed.
pub remove-Removed :
    (e : Env) (c : ℕ) (h : Hub) → IsWellFormed e h → Returns (Removed e c h) (remove e c h)
unfolding remove
remove-Removed e c h v = remove_locked-Removed e c h v
