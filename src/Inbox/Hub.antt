-- ===== src/Inbox/Hub.antt =====
-- internal/inbox/hub.go: the connections of each user. Each method holds the mutex from its first line
-- to its last, so a method is one step. A connection is a reference.
pub mod Remove
pub mod Deliver
pub mod Methods
pub mod Shutdown
use cb_back.Prelude.{
  ℕ, ◌+◌, ◌≡◌, Bool, true, false, Option, none, some, List, [], ◌∷◌, Text, ◌==◌, if◌then◌else◌,
  length, contains, Distinct, Dict, lookup, insert,
}
use cb_back.Prelude.Int.{ℤ, pos, negsuc, ◌+ℤ◌}
use cb_back.Prelude.Outcome.{Outcome, ok, panic, ◌>>=◌}
use cb_back.Prelude.Channel.{Chan, new_chan, has_space_below, enqueue, closed}
use cb_back.Prelude.Groups.{group, add_member, without_member}

-- The user of each connection, and the order in which Go ranges over a map, which may be another one
-- each time and which has each entry once.
pub record Env : Type 0 where
  pub user_of : ℕ → Text
  pub order : ℕ → List ℕ → List ℕ
  pub contains-order : (n : ℕ) (xs : List ℕ) (c : ℕ) → contains (order n xs) c ≡ contains xs c
  pub order-Distinct : (n : ℕ) (xs : List ℕ) → Distinct xs → Distinct (order n xs)
  pub length-order : (n : ℕ) (xs : List ℕ) → length (order n xs) ≡ length xs

abbrev pub send_buffer_size : ℕ
send_buffer_size = 16

-- `send` is the channel of each connection; `ranges` counts the maps ranged over so far.
pub record Hub : Type 0 where
  pub users : Dict (List ℕ)
  pub is_closed : Bool
  pub send : ℕ → Chan
  pub count : ℤ
  pub ranges : ℕ

abbrev pub new_hub : Hub
new_hub = record { users = []; is_closed = false; send = λ _. new_chan; count = pos 0; ranges = 0 }

abbrev pub connections : Text → Hub → List ℕ
connections user h = group user h.users

abbrev pub set_chan : ℕ → Chan → Hub → Hub
set_chan c ch h = record h { send = λ d. if c == d then ch else h.send d }

abbrev pub has_space : Chan → Bool
has_space = has_space_below send_buffer_size

-- A send on a closed channel panics, also under `select`.
unfoldable pub push : ℕ → Text → Hub → Outcome (Bool × Hub)
push c frame h =
    if (h.send c).is_closed
    then panic
    else if has_space (h.send c)
    then ok (true, set_chan c (enqueue frame (h.send c)) h)
    else ok (false, h)

-- close(c.send): closing twice panics.
unfoldable pub close_send : ℕ → Hub → Outcome Hub
close_send c h = if (h.send c).is_closed then panic else ok (set_chan c (closed (h.send c)) h)

module _ (e : Env) where
  open e use {user_of, order}

  abbrev pub without_connection : ℕ → List ℕ → Hub → Hub
  without_connection c members h = record h {
    users = without_member (user_of c) c members h.users;
    count = h.count +ℤ negsuc 0;
  }

  -- Nothing happens to a connection that is not registered.
  unfoldable pub remove_locked : ℕ → Hub → Outcome Hub
  remove_locked c h = elim (lookup (user_of c) h.users) [
    | none ↦ ok h
    | some members ↦
        if contains members c
        then (close_send c h >>= λ h'. ok (without_connection c members h'))
        else ok h
  ]

  -- The loop of `Deliver`: the number of connections that took the frame.
  unfoldable pub deliver_all : Text → List ℕ → Hub → Outcome (ℕ × Hub)
  deliver_all frame [] h = ok (0, h)
  deliver_all frame (c ∷ cs) h = do
    (pushed, h') ← push c frame h
    h'' ← (if pushed then ok h' else remove_locked c h')
    (delivered, h3) ← deliver_all frame cs h''
    ok ((if pushed then delivered + 1 else delivered), h3)

  unfoldable pub deliver : Text → Text → Hub → Outcome (ℕ × Hub)
  deliver user frame h =
      deliver_all frame (order h.ranges (connections user h)) (record h { ranges = h.ranges + 1 })

  unfoldable pub add : ℕ → Hub → Hub × Bool
  add c h = if h.is_closed then (h, false) else (
    record h {
      users = insert (user_of c) (add_member c (connections (user_of c) h)) h.users;
      count = h.count +ℤ pos 1;
    },
    true,
  )

  unfoldable pub remove : ℕ → Hub → Outcome Hub
  remove c h = remove_locked c h

-- The loops of `Shutdown`.
unfoldable pub close_connections : List ℕ → Hub → Outcome Hub
close_connections [] h = ok h
close_connections (c ∷ cs) h = do h' ← close_send c h; close_connections cs h'

unfoldable pub close_users : Dict (List ℕ) → Hub → Outcome Hub
close_users [] h = ok h
close_users ((user, members) ∷ rest) h = do h' ← close_connections members h; close_users rest h'

unfoldable pub shutdown : Hub → Outcome Hub
shutdown h = do
  h' ← close_users h.users h
  ok (record h' { users = []; count = pos 0; is_closed = true })
