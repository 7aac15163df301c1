-- ===== src/Store/Channels.antt =====
-- Channels saved and read back.
use counterfactual.Prelude.{String, ◌==◌, ◌≡◌, refl, arith, if◌then◌else◌}
use counterfactual.Errors.{ok}
use counterfactual.External.{Ethers}
use counterfactual.Dict.Laws.{lookup-insert}
use counterfactual.StateChannel.{StateChannel}
use counterfactual.StateChannel.Json.{to_json}
use counterfactual.StateChannel.RoundTrip.{IsStorable, from_json-to_json_channel}
use counterfactual.Store.{Store, save_state_channel, get_state_channel, connect_db}

module _ {V : Type 0} (e : Ethers) (sc : StateChannel V) (storable : IsStorable sc)
    (s : Store V) where
  -- A saved channel whose JSON form keeps it is read back as it was, every other address reads as before, and both still
  -- hold after the store is connected anew.
  pub get_state_channel-save_state_channel :
      (address : String)
      → (get_state_channel address (save_state_channel e sc s)
          ≡ (if sc.multisig_address == address then ok sc else get_state_channel address s))
        × (get_state_channel address (connect_db (save_state_channel e sc s))
            ≡ get_state_channel address (save_state_channel e sc s))
  unfolding get_state_channel save_state_channel connect_db
  get_state_channel-save_state_channel address = (
    ground (
      arith,
      lookup-insert sc.multisig_address address (to_json e sc) s.shared_data.state_channels_map,
      from_json-to_json_channel e sc storable,
    ),
    refl,
  )
