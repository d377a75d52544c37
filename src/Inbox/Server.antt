-- ===== src/Inbox/Server.antt =====
-- The inbox hub (internal/inbox/hub.go) with the calls that reach it, one after the other: `add` from
-- `ServeHTTP`, which makes the connection, `remove` from the read pump, `Deliver` from the invitations,
-- `Shutdown`, and the write pump's receive.
pub mod Invariant
pub mod Mailboxes
pub mod Refinement
use cb_back.Prelude.{ℕ, ◌+◌, List, [], ◌∷◌, Text}
use cb_back.Prelude.Outcome.{Outcome, ok, ◌>>=◌}
use cb_back.Prelude.Channel.{received}
use cb_back.Inbox.Hub.{Env, Hub, new_hub, set_chan, add, remove, deliver, shutdown}

-- `conn_ids` is the counter of conn.go.
pub record Inbox : Type 0 where
  pub hub : Hub
  pub conn_ids : ℕ

abbrev pub new_inbox : Inbox
new_inbox = record { hub = new_hub; conn_ids = 0 }

pub data Call : Type 0 where
  connects stops : Call
  disconnects receives : ℕ → Call
  delivers : Text → Text → Call

abbrev pub with_hub : Inbox → Outcome Hub → Outcome Inbox
with_hub i result = result >>= λ h. ok (record i { hub = h })

module _ (e : Env) where
  -- A connection gets its number also where the hub has been shut down.
  unfoldable pub connect : Inbox → Outcome Inbox
  connect i = ok (record { hub = (add e (i.conn_ids + 1) i.hub).0; conn_ids = i.conn_ids + 1 })

  unfoldable pub call : Call → Inbox → Outcome Inbox
  call connects i = connect i
  call stops i = with_hub i (shutdown i.hub)
  call (disconnects c) i = with_hub i (remove e c i.hub)
  call (receives c) i = ok (record i { hub = set_chan c (received (i.hub.send c)) i.hub })
  call (delivers user frame) i = with_hub i (deliver e user frame i.hub >>= λ r. ok r.1)

  unfoldable pub run_calls : List Call → Inbox → Outcome Inbox
  run_calls [] i = ok i
  run_calls (c ∷ cs) i = call c i >>= λ i'. run_calls cs i'
