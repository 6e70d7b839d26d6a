-- ===== src/Protocol/Withdraw/Agreed.antt =====
-- What a side of the withdraw protocol knows when it writes to the store.
use indrav.Prelude.{◌≡◌, refl, Option, some, List, [], ◌∷◌}
use indrav.Prelude.Dict.{Dict, lookup, insert}
use indrav.Prelude.Result.{ok, type_error, or_throw-eq-ok}
use indrav.Types.{Address, Hash, Xpub, Platform}
use indrav.AppInstance.{AppInstance, identity_hash}
use indrav.StateChannel.{
  StateChannel, free_balance, get_free_balance_addr_of, most_recently_installed_app_instance,
}
use indrav.StateChannel.Installs.{uninstall_app}
use indrav.Commitment.{
  Signature, Ethereum, Commitment, NetworkContext, state_commitment, assert_is_valid_signature,
}
use indrav.Machine.{Context, WithdrawProtocolParams}
use indrav.Protocol.{channel_of}
use indrav.Protocol.Signatures.{SignedBy, assert-SignedBy}
use indrav.Protocol.Withdraw.{add_refund_app, refund_conditional, withdrawal_commitment}

module _ ⦃p : Platform⦄ ⦃eth : Ethereum⦄ where
  -- What a side knows once the refund app is in: it is in the stored channel, and there are
  -- signatures by the counterparty's free balance address on its conditional transaction and on
  -- the free balance that pays for it.
  pub record RefundAgreed (network : NetworkContext) (channels : Dict StateChannel)
      (params : WithdrawProtocolParams) (counterparty : Xpub) (address : Address)
      (post : StateChannel) (refund_hash : Hash) : Type 0 where
    pub pre : StateChannel
    pub refund : AppInstance
    pub fb : AppInstance
    pub conditional : Commitment
    pub update : Commitment
    pub stored : lookup params.multisig_address channels ≡ some pre
    pub has_address : get_free_balance_addr_of counterparty pre ≡ ok address
    pub computed : add_refund_app params network pre ≡ ok post
    pub latest : most_recently_installed_app_instance post ≡ ok refund
    pub is_its_hash : refund_hash ≡ identity_hash refund
    pub conditions : refund_conditional network post ≡ ok conditional
    pub has_fb : free_balance post ≡ ok fb
    pub commits : state_commitment network fb ≡ ok update
    pub app_countersigned : SignedBy address conditional
    pub update_countersigned : SignedBy address update

  -- The list is one channel: the one with the refund app uninstalled again, where the counterparty
  -- has signed what installs the app, the withdrawal and what uninstalls the app.
  pub record WithdrawAgreed (network : NetworkContext) (channels : Dict StateChannel)
      (params : WithdrawProtocolParams) (counterparty : Xpub) (persisted : List StateChannel)
      : Type 0 where
    pub address : Address
    pub post : StateChannel
    pub final : StateChannel
    pub refund_hash : Hash
    pub fb : AppInstance
    pub uninstall : Commitment
    pub enters : RefundAgreed network channels params counterparty address post refund_hash
    pub exits : uninstall_app refund_hash [] post ≡ ok final
    pub has_fb : free_balance final ≡ ok fb
    pub commits : state_commitment network fb ≡ ok uninstall
    pub withdrawal_countersigned : SignedBy address (withdrawal_commitment params post)
    pub uninstall_countersigned : SignedBy address uninstall
    pub is_final : persisted ≡ final ∷ []

  -- The result is the map with the channel put in that had the refund app, and then the one that
  -- was persisted.
  abbrev pub WithdrawStores :
      NetworkContext
      → Dict StateChannel
      → WithdrawProtocolParams
      → Xpub
      → Dict StateChannel
      → Type 0
  WithdrawStores network channels params counterparty result =
      (final : StateChannel) × (agreed : WithdrawAgreed network channels params counterparty
        (final ∷ []))
      × (result
          ≡ insert final.multisig_address final
              (insert agreed.post.multisig_address agreed.post channels))

  -- What the checks of a side's first part have established.
  pub entered :
      (c : Context WithdrawProtocolParams) (counterparty : Xpub) (s s2 : Option Signature)
      {pre post : StateChannel} {refund fb : AppInstance} {address : Address}
      {conditional update : Commitment} {u v : Unit {0}}
      → channel_of c.params.multisig_address c.state_channels_map ≡ ok pre
      → get_free_balance_addr_of counterparty pre ≡ ok address
      → add_refund_app c.params c.network pre ≡ ok post
      → most_recently_installed_app_instance post ≡ ok refund
      → refund_conditional c.network post ≡ ok conditional
      → assert_is_valid_signature address conditional s ≡ ok u
      → free_balance post ≡ ok fb
      → state_commitment c.network fb ≡ ok update
      → assert_is_valid_signature address update s2 ≡ ok v
      → RefundAgreed c.network c.state_channels_map c.params counterparty address post
          (identity_hash refund)
  entered c counterparty s s2 {pre} {post} {refund} {fb} {address} {conditional} {update} found
        has_address computed latest conditions valid has_fb commits valid2 =
      record {
        pre = pre;
        refund = refund;
        fb = fb;
        conditional = conditional;
        update = update;
        stored =
            or_throw-eq-ok (lookup c.params.multisig_address c.state_channels_map) type_error found;
        has_address = has_address;
        computed = computed;
        latest = latest;
        is_its_hash = refl;
        conditions = conditions;
        has_fb = has_fb;
        commits = commits;
        app_countersigned = assert-SignedBy address conditional s valid;
        update_countersigned = assert-SignedBy address update s2 valid2;
      }

  -- What the checks of its second part add.
  pub left :
      (c : Context WithdrawProtocolParams) (counterparty : Xpub) (address : Address)
      (post : StateChannel) (refund_hash : Hash) (s s2 : Option Signature) {final : StateChannel}
      {fb : AppInstance} {uninstall : Commitment} {u v : Unit {0}}
      → RefundAgreed c.network c.state_channels_map c.params counterparty address post refund_hash
      → assert_is_valid_signature address (withdrawal_commitment c.params post) s ≡ ok u
      → uninstall_app refund_hash [] post ≡ ok final
      → free_balance final ≡ ok fb
      → state_commitment c.network fb ≡ ok uninstall
      → assert_is_valid_signature address uninstall s2 ≡ ok v
      → WithdrawAgreed c.network c.state_channels_map c.params counterparty (final ∷ [])
        × WithdrawStores c.network c.state_channels_map c.params counterparty (
            insert final.multisig_address final
              (insert post.multisig_address post c.state_channels_map))
  left c counterparty address post refund_hash s s2 {final} {fb} {uninstall} enters valid exits
        has_fb commits valid2 =
      let agreed : WithdrawAgreed c.network c.state_channels_map c.params counterparty
          (final ∷ []) =
        record {
          address = address;
          post = post;
          final = final;
          refund_hash = refund_hash;
          fb = fb;
          uninstall = uninstall;
          enters = enters;
          exits = exits;
          has_fb = has_fb;
          commits = commits;
          withdrawal_countersigned =
              assert-SignedBy address (withdrawal_commitment c.params post) s valid;
          uninstall_countersigned = assert-SignedBy address uninstall s2 valid2;
          is_final = refl;
        } in
      (agreed, (final, agreed, refl))
