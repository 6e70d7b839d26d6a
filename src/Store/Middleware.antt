-- ===== src/Store/Middleware.antt =====
-- A run of a protocol over the store: what the node registers for the instructions that touch the
-- store in modules/cf-core/src/node.ts, in the loop of `runProtocol` of
-- modules/cf-core/src/machine/protocol-runner.ts.
use indrav.Prelude.{ℕ, ◌≡◌, refl, ap, Option, none, some, List, [], ◌∷◌}
use indrav.Types.{Hash, Platform}
use indrav.StateChannel.{StateChannel}
use indrav.Commitment.{Signature, Commitment, MinimalTransaction}
use indrav.Machine.{
  Run, return, throw, op_sign, io_send, io_send_and_wait, write_commitment, persist_state_channel,
  ProtocolMessage, Protocol,
}
use indrav.Machine.Play.{Trace, play}
use indrav.Store.{
  StoreService, IsStoreService, save_state_channel, store_withdrawal_commitment, set_commitment,
}
use indrav.Store.Represents.{
  Channels, put, Storable, Represents, save_state_channel-Represents,
  store_withdrawal_commitment-Represents, set_commitment-Represents,
}

-- The storage that a run leaves, what it has sent, and its result, if it has returned.
pub record Execution (S A : Type 0) : Type 0 where
  pub storage : S
  pub sent : List ProtocolMessage
  pub result : Option A

abbrev pub put_all : List StateChannel → Channels → Channels
put_all [] m = m
put_all (sc ∷ scs) m = put_all scs (put sc m)

abbrev pub put_lists : List (List StateChannel) → Channels → Channels
put_lists [] m = m
put_lists (scs ∷ lists) m = put_lists lists (put_all scs m)

module _ ⦃p : Platform⦄ where
  abbrev pub AllStorable : List StateChannel → Type 0
  AllStorable [] = Unit
  AllStorable (sc ∷ scs) = Storable sc × AllStorable scs

  abbrev pub ListsStorable : List (List StateChannel) → Type 0
  ListsStorable [] = Unit
  ListsStorable (scs ∷ lists) = AllStorable scs × ListsStorable lists

  module _ {S : Type 0} ⦃service : StoreService S⦄ where
    -- The middleware of `PERSIST_STATE_CHANNEL`.
    abbrev pub persist_middleware : List StateChannel → S → S
    persist_middleware [] s = s
    persist_middleware (sc ∷ scs) s = persist_middleware scs (save_state_channel sc s)

    -- The middleware of `WRITE_COMMITMENT`.
    abbrev pub write_commitment_middleware : Protocol → MinimalTransaction → Hash → S → S
    write_commitment_middleware protocol c key s = elim protocol [
      | Protocol.withdraw ↦ store_withdrawal_commitment key c s
      | other ↦ set_commitment other (key ∷ []) c s
    ]

    -- The loop, with a party's signing and the messages that arrive; a wait without a message ends
    -- the run, as its timeout does.
    abbrev pub execute :
        {A : Type 0}
        → (Commitment → Option ℕ → Signature)
        → List ProtocolMessage
        → Run A
        → S
        → Execution S A
    execute signer inbox (return a) s = record { storage = s; sent = []; result = some a }
    execute signer inbox (throw e) s = record { storage = s; sent = []; result = none }
    execute signer inbox (op_sign c index k) s = execute signer inbox (k (signer c index)) s
    execute signer inbox (io_send m k) s =
        let rest = execute signer inbox k s in record rest { sent = m ∷ rest.sent }
    execute signer [] (io_send_and_wait m k) s = record {
      storage = s;
      sent = m ∷ [];
      result = none;
    }
    execute signer (r ∷ rs) (io_send_and_wait m k) s =
        let rest = execute signer rs (k r) s in record rest { sent = m ∷ rest.sent }
    execute signer inbox (write_commitment protocol c hash k) s =
        execute signer inbox k (write_commitment_middleware protocol c hash s)
    execute signer inbox (persist_state_channel scs k) s =
        execute signer inbox k (persist_middleware scs s)

    persist_middleware-Represents :
        (laws : IsStoreService service) (scs : List StateChannel) (s : S) (m : Channels)
        → AllStorable scs
        → Represents s m
        → Represents (persist_middleware scs s) (put_all scs m)
    persist_middleware-Represents laws [] s m w r = r
    persist_middleware-Represents laws (sc ∷ scs) s m w r =
        persist_middleware-Represents laws scs (save_state_channel sc s) (put sc m) w.1
          (save_state_channel-Represents laws s m sc w.0 r)

    write_commitment_middleware-Represents :
        (laws : IsStoreService service) (protocol : Protocol) (c : MinimalTransaction) (key : Hash)
        (s : S) (m : Channels)
        → Represents s m
        → Represents (write_commitment_middleware protocol c key s) m
    write_commitment_middleware-Represents laws protocol c key s m r =
        elim protocol as (λ x. Represents (write_commitment_middleware x c key s) m) [
          | Protocol.withdraw ↦ store_withdrawal_commitment-Represents laws s m key c r
          | other ↦ set_commitment-Represents laws s m other (key ∷ []) c r
        ]

    -- What an execution has done, next to what the played run tells of it.
    pub record Executed {A : Type 0} (m : Channels) (e : Execution S A) (t : Trace A) : Type 0 where
      pub represents : Represents e.storage (put_lists t.persisted m)
      pub same_sent : e.sent ≡ t.sent
      pub same_result : e.result ≡ t.result

    -- With a storage service that behaves as documented, a run over a storage that represents a map
    -- of channels ends in one that represents the map with the persisted channels put in, in order,
    -- if their keys are extended keys and their maps have each key once; no commitment that it
    -- writes changes a channel, and it sends and returns what the run on its own does.
    pub execute-Executed :
        (laws : IsStoreService service) {A : Type 0} (signer : Commitment → Option ℕ → Signature)
        (inbox : List ProtocolMessage) (run : Run A) (s : S) (m : Channels)
        → ListsStorable (play signer inbox run).persisted
        → Represents s m
        → Executed m (execute signer inbox run s) (play signer inbox run)
    execute-Executed laws signer inbox (return a) s m w r = record {
      represents = r;
      same_sent = refl;
      same_result = refl;
    }
    execute-Executed laws signer inbox (throw e) s m w r = record {
      represents = r;
      same_sent = refl;
      same_result = refl;
    }
    execute-Executed laws signer inbox (op_sign c index k) s m w r =
        execute-Executed laws signer inbox (k (signer c index)) s m w r
    execute-Executed laws signer inbox (io_send message k) s m w r =
        let rest = execute-Executed laws signer inbox k s m w r in
        record {
          represents = rest.represents;
          same_sent = ap (λ x. message ∷ x) rest.same_sent;
          same_result = rest.same_result;
        }
    execute-Executed laws signer [] (io_send_and_wait message k) s m w r = record {
      represents = r;
      same_sent = refl;
      same_result = refl;
    }
    execute-Executed laws signer (i ∷ is) (io_send_and_wait message k) s m w r =
        let rest = execute-Executed laws signer is (k i) s m w r in
        record {
          represents = rest.represents;
          same_sent = ap (λ x. message ∷ x) rest.same_sent;
          same_result = rest.same_result;
        }
    execute-Executed laws signer inbox (write_commitment protocol c hash k) s m w r =
        execute-Executed laws signer inbox k (write_commitment_middleware protocol c hash s) m w
          (write_commitment_middleware-Represents laws protocol c hash s m r)
    execute-Executed laws signer inbox (persist_state_channel scs k) s m w r =
        let rest =
          execute-Executed laws signer inbox k (persist_middleware scs s) (put_all scs m) w.1
            (persist_middleware-Represents laws scs s m w.0 r) in
        record {
          represents = rest.represents;
          same_sent = rest.same_sent;
          same_result = rest.same_result;
        }
