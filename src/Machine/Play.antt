-- ===== src/Machine/Play.antt =====
-- A run played with a party's signing and the messages that arrive for it: the loop of
-- `runProtocol` in modules/cf-core/src/machine/protocol-runner.ts, with what the middleware returns.
use indrav.Prelude.{ℕ, Option, none, some, List, [], ◌∷◌}
use indrav.StateChannel.{StateChannel}
use indrav.Commitment.{Signature, Commitment}
use indrav.Machine.{
  Run, return, throw, op_sign, io_send, io_send_and_wait, write_commitment, persist_state_channel,
  ProtocolMessage,
}

-- What a played run has written and sent, in order, and its result, if it has returned.
pub record Trace (A : Type 0) : Type 0 where
  pub persisted : List (List StateChannel)
  pub sent : List ProtocolMessage
  pub result : Option A

abbrev and_persisted : {A : Type 0} → List StateChannel → Trace A → Trace A
and_persisted scs t = record t { persisted = scs ∷ t.persisted }

abbrev and_sent : {A : Type 0} → ProtocolMessage → Trace A → Trace A
and_sent m t = record t { sent = m ∷ t.sent }

abbrev stopped : {A : Type 0} → Option A → Trace A
stopped r = record { persisted = []; sent = []; result = r }

-- Each wait takes the next message; without one the run stays where it is.
abbrev pub play :
    {A : Type 0} → (Commitment → Option ℕ → Signature) → List ProtocolMessage → Run A → Trace A
play signer inbox (return a) = stopped (some a)
play signer inbox (throw e) = stopped none
play signer inbox (op_sign c index k) = play signer inbox (k (signer c index))
play signer inbox (io_send m k) = and_sent m (play signer inbox k)
play signer [] (io_send_and_wait m k) = and_sent m (stopped none)
play signer (r ∷ rs) (io_send_and_wait m k) = and_sent m (play signer rs (k r))
play signer inbox (write_commitment protocol c hash k) = play signer inbox k
play signer inbox (persist_state_channel scs k) = and_persisted scs (play signer inbox k)
