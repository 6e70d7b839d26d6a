-- ===== src/Machine/Rules.antt =====
-- Rules for what holds at every write to the store, whatever the counterparty answers.
use indrav.Prelude.{◌≡◌, refl, List}
use indrav.Prelude.Result.{Result, ok, err}
use indrav.StateChannel.{StateChannel}
use indrav.Commitment.{Signature}
use indrav.Machine.{
  Run, return, throw, op_sign, io_send, io_send_and_wait, write_commitment, persist_state_channel,
  ◌>>=◌, lift, ProtocolMessage,
}

-- In every run, each list of channels that is persisted satisfies `P`, and each result `Q`.
abbrev pub Ensures : {A : Type 0} → (List StateChannel → Type 0) → (A → Type 0) → Run A → Type 0
Ensures P Q (return a) = Q a
Ensures P Q (throw e) = Unit
Ensures P Q (op_sign c index k) = (s : Signature) → Ensures P Q (k s)
Ensures P Q (io_send m k) = Ensures P Q k
Ensures P Q (io_send_and_wait m k) = (r : ProtocolMessage) → Ensures P Q (k r)
Ensures P Q (write_commitment protocol c hash k) = Ensures P Q k
Ensures P Q (persist_state_channel scs k) = P scs × Ensures P Q k

module _ (P : List StateChannel → Type 0) where
  -- The code after a step that may throw runs only on its result.
  pub Ensures-lift :
      {A B : Type 0} (Q : B → Type 0) (r : Result A) (f : A → Run B)
      → ((a : A) → r ≡ ok a → Ensures P Q (f a))
      → Ensures P Q (lift r >>= f)
  Ensures-lift Q (ok a) f h = h a refl
  Ensures-lift Q (err e) f h = tt
