-- ===== src/Tests/Runs.antt =====
-- The theorems on the protocols' safety at concrete contexts.
use indrav.Prelude.{refl, [], ◌∷◌}
use indrav.Types.{AppState}
use indrav.Machine.Rules.{Ensures}
use indrav.Protocol.Agreed.{StateAgreed, Stores}
use indrav.Protocol.Update.{update_initiating, update_responding}
use indrav.Protocol.Update.Safety.{update-Ensures}
use indrav.Protocol.TakeAction.{take_action_initiating, take_action_responding}
use indrav.Protocol.TakeAction.Safety.{ActionAgreed, take_action-Ensures}
use indrav.Protocol.Uninstall.{uninstall_initiating, uninstall_responding}
use indrav.Protocol.Uninstall.Safety.{UninstallAgreed, uninstall-Ensures}
use indrav.Protocol.Setup.{setup_initiating, setup_responding}
use indrav.Protocol.Setup.Safety.{SetupAgreed, setup-Ensures}
use indrav.Protocol.Propose.{propose_responding}
use indrav.Protocol.Propose.Agreement.{ProposalAgreed, propose_responding-Ensures}
use indrav.Protocol.Install.Sides.{install_initiating, install_responding}
use indrav.Protocol.Install.Safety.{InstallAgreed, install-Ensures}
use indrav.Machine.{update_params, no_data}
use indrav.Runner.{first_recipient, step, initiate_protocol}
use indrav.Runner.Opening.{Opens}
use indrav.Runner.Starts.{Starts, initiate_protocol-Starts}
use indrav.Tests.Toy.{toy, toy_chain, toy_ethereum, network}
use indrav.Tests.Table.{table, receives, update, action, uninstall, setup, propose, install}

propose_responding-Ensures_example :
    Ensures
      (ProposalAgreed (receives propose 100))
      (Stores (ProposalAgreed (receives propose 100)) ((77, table) ∷ []))
      (propose_responding (receives propose 100))
propose_responding-Ensures_example = propose_responding-Ensures (receives propose 100)

update-Ensures_example :
    Ensures
      (StateAgreed network ((77, table) ∷ []) 77 3306 2 (AppState.opaque 5))
      (Stores
        (StateAgreed network ((77, table) ∷ []) 77 3306 2 (AppState.opaque 5))
        ((77, table) ∷ []))
      (update_initiating (receives update 103))
    × Ensures
        (StateAgreed network ((77, table) ∷ []) 77 3306 1 (AppState.opaque 5))
        (Stores
          (StateAgreed network ((77, table) ∷ []) 77 3306 1 (AppState.opaque 5))
          ((77, table) ∷ []))
        (update_responding (receives update 103))
update-Ensures_example = update-Ensures (receives update 103)

take_action-Ensures_example :
    Ensures
      (ActionAgreed network ((77, table) ∷ []) 77 3306 2 9)
      (Stores (ActionAgreed network ((77, table) ∷ []) 77 3306 2 9) ((77, table) ∷ []))
      (take_action_initiating (receives action 103))
    × Ensures
        (ActionAgreed network ((77, table) ∷ []) 77 3306 1 9)
        (Stores (ActionAgreed network ((77, table) ∷ []) 77 3306 1 9) ((77, table) ∷ []))
        (take_action_responding (receives action 103))
take_action-Ensures_example = take_action-Ensures (receives action 103)

uninstall-Ensures_example :
    Ensures
      (UninstallAgreed network ((77, table) ∷ []) uninstall 2)
      (Stores (UninstallAgreed network ((77, table) ∷ []) uninstall 2) ((77, table) ∷ []))
      (uninstall_initiating (receives uninstall 100))
    × Ensures
        (UninstallAgreed network ((77, table) ∷ []) uninstall 1)
        (Stores (UninstallAgreed network ((77, table) ∷ []) uninstall 1) ((77, table) ∷ []))
        (uninstall_responding (receives uninstall 100))
uninstall-Ensures_example = uninstall-Ensures (receives uninstall 100)

setup-Ensures_example :
    Ensures
      (SetupAgreed (receives setup 100) 2)
      (Stores (SetupAgreed (receives setup 100) 2) ((77, table) ∷ []))
      (setup_initiating (receives setup 100))
    × Ensures
        (SetupAgreed (receives setup 100) 1)
        (Stores (SetupAgreed (receives setup 100) 1) ((77, table) ∷ []))
        (setup_responding (receives setup 100))
setup-Ensures_example = setup-Ensures (receives setup 100)

install-Ensures_example :
    Ensures
      (InstallAgreed network ((77, table) ∷ []) install 2)
      (Stores (InstallAgreed network ((77, table) ∷ []) install 2) ((77, table) ∷ []))
      (install_initiating (receives install 100))
    × Ensures
        (InstallAgreed network ((77, table) ∷ []) install 1)
        (Stores (InstallAgreed network ((77, table) ∷ []) install 1) ((77, table) ∷ []))
        (install_responding (receives install 100))
install-Ensures_example = install-Ensures (receives install 100)

initiate_protocol-Starts_example :
    Opens
      (Starts 5 (update_params update))
      (step network ((77, table) ∷ []) 5 no_data 0 (update_params update))
unfolding initiate_protocol first_recipient
initiate_protocol-Starts_example =
    initiate_protocol-Starts network ((77, table) ∷ []) 5 (update_params update)
      (step network ((77, table) ∷ []) 5 no_data 0 (update_params update)) refl
