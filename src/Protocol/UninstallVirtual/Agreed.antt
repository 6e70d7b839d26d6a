-- ===== src/Protocol/UninstallVirtual/Agreed.antt =====
-- What the sides of a virtual app uninstallation know of the channels that they persist.
use indrav.Prelude.{◌≡◌, List, [], ◌∷◌}
use indrav.Prelude.Dict.{Dict}
use indrav.Prelude.Result.{Result, ok}
use indrav.Types.{Xpub, Platform}
use indrav.AppInstance.{AppInstance}
use indrav.FreeBalance.{xkey_kth_address}
use indrav.StateChannel.{StateChannel, free_balance}
use indrav.Outcome.{Chain}
use indrav.Commitment.{Ethereum, Commitment, NetworkContext, state_commitment}
use indrav.Machine.{Context, UninstallVirtualAppProtocolParams}
use indrav.Protocol.{stored}
use indrav.Protocol.Signatures.{SignedBy}
use indrav.Protocol.UninstallVirtual.{pass_through_commitment}
use indrav.Protocol.UninstallVirtual.Objects.{
  UserObjects, IntermediaryObjects, uninstall_objects_for_initiating,
  uninstall_objects_for_responding, uninstall_objects_for_intermediary,
}

module _ ⦃p : Platform⦄ ⦃eth : Ethereum⦄ where
  -- A user has the signatures of both others, by their top level keys, on the locked pass-through
  -- app, and that of the intermediary on the free balance without the agreement.
  pub record UserAgreed (network : NetworkContext) (objects : Result UserObjects)
      (intermediary other : Xpub) (o : UserObjects) : Type 0 where
    pub fb : AppInstance
    pub pass_state : Commitment
    pub disactivation : Commitment
    pub computed : objects ≡ ok o
    pub pass_commits : pass_through_commitment network o.pass_through ≡ ok pass_state
    pub has_fb : free_balance o.with_intermediary ≡ ok fb
    pub disactivates : state_commitment network fb ≡ ok disactivation
    pub pass_signed : SignedBy (xkey_kth_address intermediary 0) pass_state
    pub pass_signed_by_other : SignedBy (xkey_kth_address other 0) pass_state
    pub disactivation_signed : SignedBy (xkey_kth_address intermediary 0) disactivation

  -- The intermediary has the signatures of both users, by their top level keys, on the locked
  -- pass-through app, and that of each on the free balance of the channel with it.
  pub record IntermediaryAgreed (network : NetworkContext) (objects : Result IntermediaryObjects)
      (initiator responder : Xpub) (o : IntermediaryObjects) : Type 0 where
    pub initiating_fb : AppInstance
    pub responding_fb : AppInstance
    pub pass_state : Commitment
    pub initiating_disactivation : Commitment
    pub responding_disactivation : Commitment
    pub computed : objects ≡ ok o
    pub pass_commits : pass_through_commitment network o.pass_through ≡ ok pass_state
    pub has_initiating_fb : free_balance o.with_initiating ≡ ok initiating_fb
    pub has_responding_fb : free_balance o.with_responding ≡ ok responding_fb
    pub initiating_disactivates :
        state_commitment network initiating_fb ≡ ok initiating_disactivation
    pub responding_disactivates :
        state_commitment network responding_fb ≡ ok responding_disactivation
    pub initiator_passed : SignedBy (xkey_kth_address initiator 0) pass_state
    pub responder_passed : SignedBy (xkey_kth_address responder 0) pass_state
    pub initiator_disactivated : SignedBy (xkey_kth_address initiator 0) initiating_disactivation
    pub responder_disactivated : SignedBy (xkey_kth_address responder 0) responding_disactivation

  abbrev pub user_map : UserObjects → Dict StateChannel
  user_map o = stored o.with_user (stored o.with_all (stored o.with_intermediary o.channels))

  abbrev pub intermediary_map : IntermediaryObjects → Dict StateChannel
  intermediary_map o =
      stored o.with_responding (stored o.with_all (stored o.with_initiating o.channels))

  abbrev pub initiating_list : UserObjects → List StateChannel
  initiating_list o = o.with_intermediary ∷ o.with_all ∷ o.with_user ∷ []

  abbrev pub responding_list : UserObjects → List StateChannel
  responding_list o = o.with_user ∷ o.with_all ∷ o.with_intermediary ∷ []

  abbrev pub intermediary_list : IntermediaryObjects → List StateChannel
  intermediary_list o = o.with_initiating ∷ o.with_all ∷ o.with_responding ∷ []

  -- What each side of a run knows.
  module _ ⦃chain : Chain⦄ where
    abbrev pub InitiatingAgreed : Context UninstallVirtualAppProtocolParams → UserObjects → Type 0
    InitiatingAgreed c =
        UserAgreed c.network
          (uninstall_objects_for_initiating c.state_channels_map c.params c.network)
          c.params.intermediary_xpub c.params.responder_xpub

    abbrev pub RespondingAgreed : Context UninstallVirtualAppProtocolParams → UserObjects → Type 0
    RespondingAgreed c =
        UserAgreed c.network
          (uninstall_objects_for_responding c.state_channels_map c.params c.network)
          c.params.intermediary_xpub c.params.initiator_xpub

    abbrev pub MediatingAgreed :
        Context UninstallVirtualAppProtocolParams → IntermediaryObjects → Type 0
    MediatingAgreed c =
        IntermediaryAgreed c.network
          (uninstall_objects_for_intermediary c.state_channels_map c.params c.network)
          c.params.initiator_xpub c.params.responder_xpub
