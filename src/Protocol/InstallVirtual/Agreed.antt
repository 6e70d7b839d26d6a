-- ===== src/Protocol/InstallVirtual/Agreed.antt =====
-- What the sides of a virtual app installation know of the channels that they persist.
use indrav.Prelude.{◌≡◌, List, [], ◌∷◌}
use indrav.Prelude.Dict.{Dict}
use indrav.Prelude.Result.{Result, ok}
use indrav.Types.{Address, Hash, Xpub, Platform}
use indrav.AppInstance.{AppInstance, identity_hash}
use indrav.StateChannel.{StateChannel, get_multisig_owner_addr_of, free_balance}
use indrav.Commitment.{Ethereum, Commitment, NetworkContext, state_commitment}
use indrav.Outcome.{Chain}
use indrav.Machine.{Context, InstallVirtualAppProtocolParams}
use indrav.Protocol.{stored}
use indrav.Protocol.Signatures.{SignedBy}
use indrav.Protocol.InstallVirtual.{agreement_conditional, default_timeout_commitment, text_of}
use indrav.Protocol.InstallVirtual.Objects.{
  UserObjects, IntermediaryObjects, objects_for_initiating, objects_for_responding,
  objects_for_intermediary,
}

module _ ⦃p : Platform⦄ ⦃eth : Ethereum⦄ where
  -- A user has the intermediary's signatures on the agreement, on its activation and on the
  -- pass-through app, and those of the other user, at its address in their channel, on both apps.
  pub record UserAgreed (network : NetworkContext) (objects : Result UserObjects)
      (intermediary other : Xpub) (o : UserObjects) : Type 0 where
    pub intermediary_address : Address
    pub other_address : Address
    pub fb : AppInstance
    pub agreement : Commitment
    pub activation : Commitment
    pub virtual_state : Commitment
    pub pass_state : Commitment
    pub computed : objects ≡ ok o
    pub has_intermediary :
        get_multisig_owner_addr_of intermediary o.with_intermediary ≡ ok intermediary_address
    pub has_other : get_multisig_owner_addr_of other o.with_user ≡ ok other_address
    pub agrees :
        agreement_conditional network o.with_intermediary o.pass_through
          (identity_hash o.virtual_app)
        ≡ ok agreement
    pub has_fb : free_balance o.with_intermediary ≡ ok fb
    pub activates : state_commitment network fb ≡ ok activation
    pub virtual_commits : default_timeout_commitment network o.virtual_app ≡ ok virtual_state
    pub pass_commits : default_timeout_commitment network o.pass_through ≡ ok pass_state
    pub agreement_signed : SignedBy intermediary_address agreement
    pub activation_signed : SignedBy intermediary_address activation
    pub pass_signed : SignedBy intermediary_address pass_state
    pub pass_signed_by_other : SignedBy other_address pass_state
    pub virtual_signed_by_other : SignedBy other_address virtual_state

  -- The intermediary has the signatures of each user on the agreement with it, on its activation
  -- and on the pass-through app.
  pub record IntermediaryAgreed (network : NetworkContext) (objects : Result IntermediaryObjects)
      (virtual_hash : Hash) (initiator responder : Xpub) (o : IntermediaryObjects) : Type 0 where
    pub initiator_address : Address
    pub responder_address : Address
    pub initiating_fb : AppInstance
    pub responding_fb : AppInstance
    pub initiating_agreement : Commitment
    pub responding_agreement : Commitment
    pub initiating_activation : Commitment
    pub responding_activation : Commitment
    pub pass_state : Commitment
    pub computed : objects ≡ ok o
    pub has_initiator :
        get_multisig_owner_addr_of initiator o.with_initiating ≡ ok initiator_address
    pub has_responder :
        get_multisig_owner_addr_of responder o.with_responding ≡ ok responder_address
    pub initiating_agrees :
        agreement_conditional network o.with_initiating o.pass_through virtual_hash
        ≡ ok initiating_agreement
    pub responding_agrees :
        agreement_conditional network o.with_responding o.pass_through virtual_hash
        ≡ ok responding_agreement
    pub has_initiating_fb : free_balance o.with_initiating ≡ ok initiating_fb
    pub has_responding_fb : free_balance o.with_responding ≡ ok responding_fb
    pub initiating_activates : state_commitment network initiating_fb ≡ ok initiating_activation
    pub responding_activates : state_commitment network responding_fb ≡ ok responding_activation
    pub pass_commits : default_timeout_commitment network o.pass_through ≡ ok pass_state
    pub initiator_agreed : SignedBy initiator_address initiating_agreement
    pub initiator_activated : SignedBy initiator_address initiating_activation
    pub initiator_passed : SignedBy initiator_address pass_state
    pub responder_agreed : SignedBy responder_address responding_agreement
    pub responder_activated : SignedBy responder_address responding_activation
    pub responder_passed : SignedBy responder_address pass_state

  -- What is persisted, and what the map has at the end: the three channels, in some order.
  abbrev pub Persists :
      {O : Type 0} → (O → Type 0) → (O → List StateChannel) → List StateChannel → Type 0
  Persists {O} Agreed listed persisted = (o : O) × Agreed o × (persisted ≡ listed o)

  abbrev pub Returns :
      {O : Type 0} → (O → Type 0) → (O → Dict StateChannel) → Dict StateChannel → Type 0
  Returns {O} Agreed map_of result = (o : O) × Agreed o × (result ≡ map_of o)

  abbrev pub user_map : UserObjects → Dict StateChannel
  user_map o = stored o.with_all (stored o.with_user (stored o.with_intermediary o.channels))

  abbrev pub intermediary_map : IntermediaryObjects → Dict StateChannel
  intermediary_map o =
      stored o.with_responding (stored o.with_initiating (stored o.with_all o.channels))

  abbrev pub initiating_list : UserObjects → List StateChannel
  initiating_list o = o.with_intermediary ∷ o.with_user ∷ o.with_all ∷ []

  abbrev pub responding_list : UserObjects → List StateChannel
  responding_list o = o.with_intermediary ∷ o.with_all ∷ o.with_user ∷ []

  abbrev pub intermediary_list : IntermediaryObjects → List StateChannel
  intermediary_list o = o.with_all ∷ o.with_responding ∷ o.with_initiating ∷ []

  -- What each side of a run knows.
  abbrev pub MediatingAgreed :
      Context InstallVirtualAppProtocolParams → IntermediaryObjects → Type 0
  MediatingAgreed c =
      IntermediaryAgreed c.network
        (objects_for_intermediary c.params c.state_channels_map (text_of c.custom_data.signature2)
          (text_of c.custom_data.signature3) c.network)
        (text_of c.custom_data.signature2) c.params.initiator_xpub c.params.responder_xpub

  module _ ⦃chain : Chain⦄ where
    abbrev pub InitiatingAgreed : Context InstallVirtualAppProtocolParams → UserObjects → Type 0
    InitiatingAgreed c =
        UserAgreed c.network (objects_for_initiating c.params c.state_channels_map c.network)
          c.params.intermediary_xpub c.params.responder_xpub

    abbrev pub RespondingAgreed : Context InstallVirtualAppProtocolParams → UserObjects → Type 0
    RespondingAgreed c =
        UserAgreed c.network (objects_for_responding c.params c.state_channels_map c.network)
          c.params.intermediary_xpub c.params.initiator_xpub
