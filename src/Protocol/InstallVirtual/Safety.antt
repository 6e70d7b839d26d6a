-- ===== src/Protocol/InstallVirtual/Safety.antt =====
-- When a side of the virtual app installation writes to the store.
use indrav.Types.{Platform}
use indrav.Outcome.{Chain}
use indrav.Commitment.{Ethereum}
use indrav.Machine.{Context, InstallVirtualAppProtocolParams}
use indrav.Machine.Rules.{Ensures}
use indrav.Protocol.InstallVirtual.Agreed.{
  InitiatingAgreed, RespondingAgreed, MediatingAgreed, Persists, Returns, user_map,
  intermediary_map, initiating_list, responding_list, intermediary_list,
}
use indrav.Protocol.InstallVirtual.Initiating.{install_virtual_initiating}
use indrav.Protocol.InstallVirtual.Responding.{install_virtual_responding}
use indrav.Protocol.InstallVirtual.Intermediary.{install_virtual_intermediary}
use indrav.Protocol.InstallVirtual.InitiatingSafe.{initiating-Ensures}
use indrav.Protocol.InstallVirtual.RespondingSafe.{responding-Ensures}
use indrav.Protocol.InstallVirtual.IntermediarySafe.{intermediary-Ensures}

module _ ⦃p : Platform⦄ ⦃eth : Ethereum⦄ ⦃chain : Chain⦄ where
  -- Whatever each party has stored and the others send it, each of the three sides of a virtual app installation persists
  -- only the three channels that it computed, and returns its map with them put in, and either only
  -- when it has signatures that recover to the owners' addresses in those channels: a user, those of
  -- the intermediary on the agreement, on the free balance that funds it and on the pass-through app,
  -- and those of the other user on the pass-through app and the virtual app; the intermediary, those
  -- of each user on the agreement with it, on the free balance and on the pass-through app.
  pub install_virtual-Ensures :
      (ci cm cr : Context InstallVirtualAppProtocolParams)
      → Ensures
          (Persists (InitiatingAgreed ci) initiating_list)
          (Returns (InitiatingAgreed ci) user_map)
          (install_virtual_initiating ci)
        × Ensures
            (Persists (MediatingAgreed cm) intermediary_list)
            (Returns (MediatingAgreed cm) intermediary_map)
            (install_virtual_intermediary cm)
        × Ensures
            (Persists (RespondingAgreed cr) responding_list)
            (Returns (RespondingAgreed cr) user_map)
            (install_virtual_responding cr)
  install_virtual-Ensures ci cm cr =
      (initiating-Ensures ci, intermediary-Ensures cm, responding-Ensures cr)
