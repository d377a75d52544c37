-- ===== src/Tests/InboxHub.antt =====
-- The inbox of a user with two connections, one of them with a full buffer.
use cb_back.Inbox.Server.Refinement.{run_calls-Refines, mailboxes_of}
use cb_back.Inbox.Server.Mailboxes.{no_mailboxes, answer_all}
use cb_back.Prelude.{
  List, ◌≡◌, refl, false, [], ◌∷◌, codes, arith, contains, lookup, text_eq, text_eq_iff, replicate,
  if◌then◌else◌, ◌==◌,
}
use cb_back.Prelude.Int.{pos}
use cb_back.Prelude.Outcome.{Returns, ok}
use cb_back.Prelude.Channel.{Chan, new_chan}
use cb_back.Prelude.Groups.{IsGrouping, total}
use cb_back.Inbox.Hub.{Env, Hub, deliver}
use cb_back.Inbox.Hub.Remove.{IsWellFormed}
use cb_back.Inbox.Hub.Deliver.{Reached, deliver-Reached}
use cb_back.Inbox.Server.{
  run_calls, new_inbox, delivers, receives, disconnects, stops, connects, Inbox, Call,
}
use cb_back.Inbox.Server.Invariant.{run_calls-IsSound, IsSound}

abbrev env : Env
env = record {
  user_of = λ c. codes "u";
  order = λ n xs. xs;
  contains-order = λ n xs c. refl;
  order-Distinct = λ n xs d. d;
  length-order = λ n xs. refl;
}

abbrev full_chan : Chan
full_chan = record { buffer = replicate 16 (codes "x"); is_closed = false }

abbrev pair : Hub
pair = record {
  users = (codes "u", 1 ∷ 2 ∷ []) ∷ [];
  is_closed = false;
  send = λ c. if c == 2 then full_chan else new_chan;
  count = pos 2;
  ranges = 0;
}

pair-IsGrouping : IsGrouping env.user_of pair.users
unfolding lookup contains
pair-IsGrouping = record {
  keys = (refl, tt);
  nonempty = λ k. ground arith;
  distinct = λ k. ground (arith, text_eq (codes "u") k);
  at_home = λ k c m. ground (arith, text_eq_iff (codes "u") k);
}

pair-IsWellFormed : IsWellFormed env pair
unfolding total
pair-IsWellFormed = record {
  grouping = pair-IsGrouping;
  opened = λ u c m. ground arith;
  counted = refl;
  bounded = λ c. ground arith;
}

deliver-Reached_example :
    Returns
      (Reached env (codes "u") (codes "ring") pair)
      (deliver env (codes "u") (codes "ring") pair)
deliver-Reached_example = deliver-Reached env (codes "u") (codes "ring") pair pair-IsWellFormed

-- A connection that hears of an invitation, goes away, and would be told another one; then the hub is
-- shut down, twice, and a newcomer is turned away.
abbrev calls : List Call
calls =
    connects
    ∷ delivers (codes "u") (codes "ring")
    ∷ receives 1
    ∷ disconnects 1
    ∷ delivers (codes "u") (codes "ring")
    ∷ connects
    ∷ stops
    ∷ stops
    ∷ connects
    ∷ disconnects 2
    ∷ []

run_calls-IsSound_example : (i : Inbox) × (run_calls env calls new_inbox ≡ ok i) × IsSound env i
run_calls-IsSound_example = run_calls-IsSound env calls

run_calls-Refines_example :
    (i : Inbox) × (run_calls env calls new_inbox ≡ ok i)
    × (mailboxes_of env i ≡ answer_all env.user_of calls no_mailboxes)
run_calls-Refines_example = run_calls-Refines env calls
