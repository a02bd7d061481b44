-- ===== src/Commands/Channels.antt =====
-- shared.cc: `sendChannel`, `receiveChannel` and `statChannel`.
use psingthreadlib.Prelude.{ℕ, List}
use psingthreadlib.Prelude.Int.{pos}
use psingthreadlib.Prelude.Outcome.{returns, faults, ◌>>=◌}
use psingthreadlib.Value.{Value, nothing, int, channel}
use psingthreadlib.Shared.Channel as Channel
use psingthreadlib.Shared.Channel.{Channel, Receives, send, receive, receive_resume, count}
use psingthreadlib.Shared.Registry.{World, a_channel, store_body}
use psingthreadlib.Commands.Reply.{
  message, Reply, gives, sleeps, Answer, Codec, with_one, with_two, with_object, require, is_kind,
}

abbrev with_channel : ℕ → World → (Channel → Answer) → Answer
with_channel o w k = elim ((w.objects o).body) [ a_channel ch ↦ k ch | _ ↦ faults ]

module _ (codec : Codec) where
  open codec use {to_string, from_string}

  unfoldable pub send_channel : ℕ → List Value → World → Answer
  send_channel self args w = with_two "sendChannel" args w (λ a b.
      require (is_kind channel a) (message "sendChannel: argument is not a channel") w (
        with_object a (message "sendChannel: channel has not been initialized") w (λ o.
          with_channel o w (λ ch. send self (to_string b) ch >>= λ ch'.
          returns (gives nothing, store_body o (a_channel ch') w)))))

  -- What a `receive` that has returned or sleeps is for the command.
  abbrev reply_of : Receives → Reply
  reply_of (Channel.got item) = gives (from_string item)
  reply_of (Channel.sleeps depth) = sleeps depth

  unfoldable pub receive_channel : ℕ → List Value → World → Answer
  receive_channel self args w = with_one "receiveChannel" args w (λ a.
      require (is_kind channel a) (message "receiveChannel: argument is not a channel") w (
        with_object a (message "receiveChannel: channel has not been initialized") w (λ o.
          with_channel o w (λ ch.
            receive self ch >>= λ (r, ch'). returns (reply_of r, store_body o (a_channel ch') w)))))

  -- The command goes on when its thread was woken.
  unfoldable pub receive_channel_resume : ℕ → (depth o : ℕ) → World → Answer
  receive_channel_resume self depth o w = with_channel o w (λ ch.
      receive_resume self depth ch >>= λ (r, ch').
      returns (reply_of r, store_body o (a_channel ch') w))

-- The second message names `receiveChannel`.
unfoldable pub stat_channel : ℕ → List Value → World → Answer
stat_channel self args w = with_one "statChannel" args w (λ a.
    require (is_kind channel a) (message "statChannel: argument is not a channel") w (
      with_object a (message "receiveChannel: channel has not been initialized") w (λ o.
        with_channel o w (λ ch. count self ch >>= λ (n, ch').
        returns (gives (int (pos n)), store_body o (a_channel ch') w)))))
