-- ===== src/Inbox/Server/Mailboxes.antt =====
-- What the inbox (internal/inbox/hub.go, conn.go) is for: a mailbox for each connection, which is
-- registered for one user. Nothing here is stored by user, and nothing depends on an order.
use cb_back.Prelude.{
  ℕ, ◌+◌, Bool, true, false, not, ◌&&◌, ◌||◌, List, [], ◌∷◌, Text, text_eq, ◌==◌, if◌then◌else◌,
}
use cb_back.Prelude.Channel.{Chan, new_chan, enqueue, closed, received}
use cb_back.Inbox.Hub.{has_space}
use cb_back.Inbox.Server.{Call, connects, stops, disconnects, receives, delivers}

pub record Mailboxes : Type 0 where
  pub registered : ℕ → Bool
  pub mailbox : ℕ → Chan
  pub is_stopped : Bool
  pub issued : ℕ

abbrev pub no_mailboxes : Mailboxes
no_mailboxes = record {
  registered = λ c. false;
  mailbox = λ c. new_chan;
  is_stopped = false;
  issued = 0;
}

-- The mailboxes of some connections are closed, and these are no longer registered.
unfoldable pub close_where : (ℕ → Bool) → Mailboxes → Mailboxes
close_where gone m = record m {
  registered = λ c. m.registered c && not (gone c);
  mailbox = λ c. if m.registered c && gone c then closed (m.mailbox c) else m.mailbox c;
}

unfoldable pub put_where : (ℕ → Bool) → Text → Mailboxes → Mailboxes
put_where chosen frame m = record m {
  mailbox = λ c. if m.registered c && chosen c then enqueue frame (m.mailbox c) else m.mailbox c;
}

module _ (user_of : ℕ → Text) where
  -- A connection that lags behind is closed, and the others of the user get the frame.
  unfoldable pub deliver_to : Text → Text → Mailboxes → Mailboxes
  deliver_to user frame m =
      put_where (λ c. text_eq (user_of c) user && has_space (m.mailbox c)) frame
        (close_where (λ c. text_eq (user_of c) user && not (has_space (m.mailbox c))) m)

  unfoldable pub answer : Call → Mailboxes → Mailboxes
  answer connects m = record m {
    registered = λ c. m.registered c || (not m.is_stopped && (m.issued + 1 == c));
    issued = m.issued + 1;
  }
  answer stops m = record (close_where (λ c. true) m) { is_stopped = true }
  answer (disconnects d) m = close_where (λ c. d == c) m
  answer (receives d) m = record m {
    mailbox = λ c. if d == c then received (m.mailbox d) else m.mailbox c;
  }
  answer (delivers user frame) m = deliver_to user frame m

  unfoldable pub answer_all : List Call → Mailboxes → Mailboxes
  answer_all [] m = m
  answer_all (c ∷ cs) m = answer_all cs (answer c m)
