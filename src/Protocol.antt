-- ===== src/Protocol.antt =====
-- The protocols of modules/cf-core/src/protocol: for each its two sides as runs, and in children
-- named Safety what is known whenever a side writes a channel to the store.
use indrav.Prelude.{ℕ, ◌≡◌, Option, none, some, List}
use indrav.Prelude.Dict.{Dict, lookup, insert}
use indrav.Prelude.Result.{Result, type_error, undefined_signature, or_throw}
use indrav.Types.{Address, Xpub, Hash, Platform}
use indrav.StateChannel.{StateChannel}
use indrav.Commitment.{Signature, Commitment, Ethereum, hash_to_sign, assert_is_valid_signature}
use indrav.Machine.{Protocol, ProtocolParameters, ProtocolMessage, CustomData, no_data}
pub mod Signatures
pub mod Agreed
pub mod Update
pub mod TakeAction
pub mod Uninstall
pub mod Setup
pub mod Propose
pub mod Install
pub mod Withdraw
pub mod InstallVirtual
pub mod UninstallVirtual

-- `stateChannelsMap.get(multisigAddress)!`, on which a method is called at once.
abbrev pub channel_of : Address → Dict StateChannel → Result StateChannel
channel_of multisig_address channels = or_throw (lookup multisig_address channels) type_error

abbrev pub with_signature : Signature → CustomData
with_signature s = record no_data { signature = some s }

abbrev pub with_two_signatures : Signature → Signature → CustomData
with_two_signatures s t = record no_data { signature = some s; signature2 = some t }

abbrev pub with_three_signatures : Signature → Signature → Signature → CustomData
with_three_signatures s t u = record no_data {
  signature = some s;
  signature2 = some t;
  signature3 = some u;
}

-- The message that starts the other side, and an answer to a waiting side.
abbrev pub opening : ℕ → Protocol → ProtocolParameters → Xpub → Signature → ProtocolMessage
opening process_id protocol params to_xpub s = record {
  process_id = process_id;
  protocol = protocol;
  params = some params;
  to_xpub = to_xpub;
  seq = some 1;
  custom_data = with_signature s;
}

abbrev pub answer : ℕ → Protocol → Xpub → CustomData → ProtocolMessage
answer process_id protocol to_xpub custom_data = record {
  process_id = process_id;
  protocol = protocol;
  params = none;
  to_xpub = to_xpub;
  seq = none;
  custom_data = custom_data;
}

-- The message with which an intermediary starts the third side.
abbrev pub forwarding : ℕ → Protocol → ProtocolParameters → Xpub → CustomData → ProtocolMessage
forwarding process_id protocol params to_xpub custom_data = record {
  process_id = process_id;
  protocol = protocol;
  params = some params;
  to_xpub = to_xpub;
  seq = some 2;
  custom_data = custom_data;
}

-- `stateChannelsMap.set(stateChannel.multisigAddress, stateChannel)`
abbrev pub stored : StateChannel → Dict StateChannel → Dict StateChannel
stored sc channels = insert sc.multisig_address sc channels

-- A signature that has been checked, and so is there.
abbrev pub given : Option Signature → Result Signature
given s = or_throw s undefined_signature
