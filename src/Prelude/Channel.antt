-- ===== src/Prelude/Channel.antt =====
-- Go's buffered channels of frames, by what is queued on them.
use cb_back.Prelude.{ℕ, Bool, true, false, List, [], ◌∷◌, ◌++◌, Text, ltb, length}

pub record Chan : Type 0 where
  pub buffer : List Text
  pub is_closed : Bool

abbrev pub new_chan : Chan
new_chan = record { buffer = []; is_closed = false }

abbrev pub has_space_below : ℕ → Chan → Bool
has_space_below size ch = ltb (length ch.buffer) size

abbrev pub enqueue : Text → Chan → Chan
enqueue frame ch = record ch { buffer = ch.buffer ++ frame ∷ [] }

-- A closed channel: what is queued can still be received.
abbrev pub closed : Chan → Chan
closed ch = record { buffer = ch.buffer; is_closed = true }

-- What is left on a channel once its first frame is received.
unfoldable pub received : Chan → Chan
received ch = elim ch.buffer [ [] ↦ ch | frame ∷ rest ↦ record ch { buffer = rest } ]
