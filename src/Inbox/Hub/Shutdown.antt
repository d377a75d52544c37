-- ===== src/Inbox/Hub/Shutdown.antt =====
-- `Shutdown`: every connection's channel is closed, once.
use cb_back.Prelude.{
  ℕ, ◌≡◌, refl, true, false, List, [], ◌∷◌, arith, contains, Distinct, lookup, Dict,
}
use cb_back.Prelude.Int.{pos}
use cb_back.Prelude.Outcome.{ok, Returns, Returns-bind, Returns-mono}
use cb_back.Prelude.Channel.{closed}
use cb_back.Prelude.Groups.Close.{
  Closes, is_in, Closable, first-Distinct, first_open, later_Closable, later-Closes,
}
use cb_back.Inbox.Hub.{Env, Hub, set_chan, close_send, close_connections, close_users, shutdown}
use cb_back.Inbox.Hub.Remove.{IsWellFormed}

close_send-ok :
    (c : ℕ) (h : Hub)
    → (h.send c).is_closed ≡ false
    → close_send c h ≡ ok (set_chan c (closed (h.send c)) h)
unfolding close_send
close_send-ok c h p = rw (close_send, p)

close_connections-Closes :
    (members : List ℕ) (h : Hub)
    → Distinct members
    → ((c : ℕ) → contains members c ≡ true → (h.send c).is_closed ≡ false)
    → Returns (λ h'. Closes (contains members) h.send h'.send) (close_connections members h)
unfolding close_connections contains
close_connections-Closes [] h d opened = λ c. refl
close_connections-Closes (x ∷ xs) h d opened = rw (close_send-ok x h (ground (arith, opened x))) (
    let h' : Hub = set_chan x (closed (h.send x)) h in
    Returns-mono (λ k. Closes (contains xs) h'.send k.send)
      (λ k. Closes (contains (x ∷ xs)) h.send k.send) (close_connections xs h')
      (close_connections-Closes xs h' d.1 (λ c m. ground (arith, opened c, d.0)))
      λ k s. λ c. ground (arith, s c, d.0))

module _ (e : Env) where
  close_users-Closes :
      (users : Dict (List ℕ)) (h : Hub)
      → Closable e.user_of users h.send
      → Returns (λ h'. Closes (is_in e.user_of users) h.send h'.send) (close_users users h)
  unfolding close_users lookup contains
  close_users-Closes [] h w = λ c. refl
  close_users-Closes ((u, members) ∷ users) h w =
      Returns-bind (λ h'. Closes (contains members) h.send h'.send)
        (λ h'. Closes (is_in e.user_of ((u, members) ∷ users)) h.send h'.send)
        (close_connections members h) _
        (close_connections-Closes members h (first-Distinct e.user_of u members users h.send w)
          (first_open e.user_of u members users h.send w))
        λ h' s.
          Returns-mono (λ h''. Closes (is_in e.user_of users) h'.send h''.send)
            (λ h''. Closes (is_in e.user_of ((u, members) ∷ users)) h.send h''.send)
            (close_users users h')
            (close_users-Closes users h'
              (later_Closable e.user_of u members users h.send w h'.send s))
            (λ h'' t. later-Closes e.user_of u members users h.send w h'.send h''.send s t)

  -- What `Shutdown` promises: no connection is left, each that was registered is closed, no other
  -- channel changes, and nobody is let in any more.
  pub record Stopped (h h' : Hub) : Type 0 where
    pub empty : h'.users ≡ []
    pub count : h'.count ≡ pos 0
    pub is_closed : h'.is_closed ≡ true
    pub sends : Closes (is_in e.user_of h.users) h.send h'.send

  pub shutdown-Stopped : (h : Hub) → IsWellFormed e h → Returns (Stopped h) (shutdown h)
  unfolding shutdown
  shutdown-Stopped h v =
      Returns-bind (λ h'. Closes (is_in e.user_of h.users) h.send h'.send) (Stopped h)
        (close_users h.users h) _
        (close_users-Closes h.users h
          (record { keys = v.keys; distinct = v.distinct; at_home = v.at_home; opened = v.opened }))
        λ h' s. record { empty = refl; count = refl; is_closed = refl; sends = s }
