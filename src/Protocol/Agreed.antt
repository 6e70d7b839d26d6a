-- ===== src/Protocol/Agreed.antt =====
-- What both sides of the update and take action protocols know of the channel that they persist.
use indrav.Prelude.{refl, Option, ◌≡◌, some, List, [], ◌∷◌}
use indrav.Prelude.Dict.{Dict, lookup, insert}
use indrav.Prelude.Result.{ok, type_error, or_throw-eq-ok}
use indrav.Types.{Xpub, Hash, Address, AppState, Platform}
use indrav.AppInstance.{AppInstance}
use indrav.FreeBalance.{xkey_kth_address}
use indrav.StateChannel.{StateChannel, get_app_instance}
use indrav.StateChannel.Operations.{set_state}
use indrav.Commitment.{
  Signature, assert_is_valid_signature, Ethereum, Commitment, NetworkContext, state_commitment,
}
use indrav.Protocol.{channel_of}
use indrav.Protocol.Signatures.{SignedBy, assert-SignedBy}

module _ ⦃p : Platform⦄ ⦃eth : Ethereum⦄ where
  -- The list is one channel: the stored one with the app's state set to the new one, for whose
  -- state commitment there is a signature by the counterparty's key of the app.
  pub record StateAgreed (network : NetworkContext) (channels : Dict StateChannel)
      (multisig : Address) (hash : Hash) (counterparty : Xpub) (new_state : AppState)
      (persisted : List StateChannel) : Type 0 where
    pub pre : StateChannel
    pub post : StateChannel
    pub app : AppInstance
    pub commitment : Commitment
    pub stored : lookup multisig channels ≡ some pre
    pub computed : set_state hash new_state pre ≡ ok post
    pub finds_app : get_app_instance hash post ≡ ok app
    pub commits : state_commitment network app ≡ ok commitment
    pub countersigned : SignedBy (xkey_kth_address counterparty app.app_seq_no) commitment
    pub is_post : persisted ≡ post ∷ []

  -- What the steps of a side before it persists have established.
  pub agreed_on_state :
      (network : NetworkContext) (channels : Dict StateChannel) (multisig : Address) (hash : Hash)
      (counterparty : Xpub) (new_state : AppState) (s : Option Signature) {pre post : StateChannel}
      {app : AppInstance} {commitment : Commitment} {u : Unit {0}}
      → channel_of multisig channels ≡ ok pre
      → set_state hash new_state pre ≡ ok post
      → get_app_instance hash post ≡ ok app
      → state_commitment network app ≡ ok commitment
      → assert_is_valid_signature (xkey_kth_address counterparty app.app_seq_no) commitment s ≡ ok u
      → StateAgreed network channels multisig hash counterparty new_state (post ∷ [])
  agreed_on_state network channels multisig hash counterparty new_state s {pre} {post} {app}
        {commitment} found computed finds_app commits valid =
      record {
        pre = pre;
        post = post;
        app = app;
        commitment = commitment;
        stored = or_throw-eq-ok (lookup multisig channels) type_error found;
        computed = computed;
        finds_app = finds_app;
        commits = commits;
        countersigned =
            assert-SignedBy (xkey_kth_address counterparty app.app_seq_no) commitment s valid;
        is_post = refl;
      }

  -- The result is the map with a channel put in that `P` holds of, and no other entry changed.
  abbrev pub Stores : (List StateChannel → Type 0) → Dict StateChannel → Dict StateChannel → Type 0
  Stores P channels result =
      (post : StateChannel) × P (post ∷ []) × (result ≡ insert post.multisig_address post channels)
