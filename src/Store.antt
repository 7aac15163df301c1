-- ===== src/Store.antt =====
-- packages/node/src/store.ts: the channels, commitments and withdrawals that a node keeps, and the
-- copy of them that the store service (a database that is not part of this repository) holds.
pub mod Channels
pub mod Search
use counterfactual.Prelude.{
  ℕ, String, ◌==◌, Bool, true, false, ◌||◌, Option, none, some, List, [], ◌∷◌, ◌++◌, if◌then◌else◌,
}
use counterfactual.Prelude.Int.{ℤ}
use counterfactual.Errors.{
  Error, Result, ok, err, ◌>>=◌, or_throw, no_multisig_for_app_instance, no_proposed_app_instance,
  no_state_channel,
}
use counterfactual.External.{Ethers, AbiCoder}
use counterfactual.Dict.{Dict, lookup, insert, has, keys, values, or_else}
use counterfactual.AppInstance.{AppInstance, identity_hash}
use counterfactual.FreeBalance.{FreeBalanceStateJson}
use counterfactual.StateChannel.{StateChannel, AppInstanceProposal, get_app_instance}
use counterfactual.StateChannel.Json.{StateChannelJson, to_json, from_json}
use counterfactual.StateChannel.Apps
use counterfactual.StateChannel.Funds.{create_empty_channel}

-- `Node.MinimalTransaction`
pub record MinimalTransaction : Type 0 where
  pub to : String
  pub value : ℤ
  pub calldata : String

-- A commitment is kept behind the words that it was filed with.
pub record SharedData (V : Type 0) : Type 0 where
  pub state_channels_map : Dict (StateChannelJson V)
  pub commitments : Dict (List String × MinimalTransaction)
  pub withdrawals : Dict MinimalTransaction

pub record Store (V : Type 0) : Type 0 where
  pub shared_data : SharedData V
  -- what the store service has under the prefix
  pub persisted : Option (SharedData V)

abbrev pub empty_data : {V : Type 0} → SharedData V
empty_data = record { state_channels_map = []; commitments = []; withdrawals = [] }

-- `owners.filter(owner => owner !== myIdentifier)` of models/state-channel.ts
other_owners : String → List String → List String
other_owners mine [] = []
other_owners mine (owner ∷ owners) =
    let rest = other_owners mine owners in if owner == mine then rest else owner ∷ rest

module _ {V : Type 0} where
  unfoldable pub connect_db : Store V → Store V
  connect_db s = record s { shared_data = or_else s.persisted empty_data }

  unfoldable pub persist_db : Store V → Store V
  persist_db s = record s { persisted = some s.shared_data }

  -- `Object.values(map).map(StateChannel.fromJson)`
  unfoldable pub read_channels : List (StateChannelJson V) → Result (List (StateChannel V))
  read_channels [] = ok []
  read_channels (j ∷ js) = do sc ← from_json j; rest ← read_channels js; ok (sc ∷ rest)

  unfoldable pub by_address : List (StateChannel V) → Dict (StateChannel V) → Dict (StateChannel V)
  by_address [] acc = acc
  by_address (sc ∷ scs) acc = by_address scs (insert sc.multisig_address sc acc)

  unfoldable pub get_state_channels_map : Store V → Result (Dict (StateChannel V))
  unfolding by_address
  get_state_channels_map s = do
    scs ← read_channels (values s.shared_data.state_channels_map)
    ok (by_address scs [])

  unfoldable pub get_state_channel : String → Store V → Result (StateChannel V)
  get_state_channel multisig_address s = do
    json ← or_throw (lookup multisig_address s.shared_data.state_channels_map) no_state_channel
    from_json json

  has_state_channel : String → Store V → Bool
  has_state_channel multisig_address s = has multisig_address s.shared_data.state_channels_map

  unfoldable pub save_state_channel : Ethers → StateChannel V → Store V → Store V
  unfolding persist_db
  save_state_channel e sc s = persist_db (record s {
    shared_data = record s.shared_data {
      state_channels_map =
          insert sc.multisig_address (to_json e sc) s.shared_data.state_channels_map;
    };
  })

  -- The channel proposes or runs the app, or the app is its free balance.
  unfoldable pub knows_app : Ethers → String → StateChannel V → Bool
  knows_app e id sc =
      has id sc.proposed_app_instances
      || has id sc.app_instances
      || elim sc.free_balance_app_instance [ none ↦ false | some a ↦ identity_hash e a == id ]

  unfoldable pub first_knowing : Ethers → String → List (StateChannel V) → Result String
  first_knowing e id [] = err no_multisig_for_app_instance
  first_knowing e id (sc ∷ scs) =
      if knows_app e id sc then ok sc.multisig_address else first_knowing e id scs

  unfoldable pub get_multisig_address_from_app_instance : Ethers → String → Store V → Result String
  unfolding first_knowing
  get_multisig_address_from_app_instance e id s = do
    channels ← get_state_channels_map s
    first_knowing e id (values channels)

  unfoldable pub get_channel_from_app_instance_id :
      Ethers → String → Store V → Result (StateChannel V)
  get_channel_from_app_instance_id e id s = do
    address ← get_multisig_address_from_app_instance e id s
    get_state_channel address s

  save_app_instance_state : Ethers → AbiCoder V → String → V → Store V → Result (Store V)
  save_app_instance_state e abi id new_state s = do
    channel ← get_channel_from_app_instance_id e id s
    updated ← Apps.set_state e abi id new_state channel
    ok (save_state_channel e updated s)

  all_proposals : List (StateChannel V) → List (AppInstanceProposal V)
  all_proposals [] = []
  all_proposals (sc ∷ scs) = values sc.proposed_app_instances ++ all_proposals scs

  get_proposed_app_instances : Store V → Result (List (AppInstanceProposal V))
  unfolding all_proposals
  get_proposed_app_instances s = do
    channels ← get_state_channels_map s
    ok (all_proposals (values channels))

  -- An empty address is taken for a missing one.
  unfoldable pub get_app_instance_proposal :
      Ethers → String → Store V → Result (AppInstanceProposal V)
  get_app_instance_proposal e id s = do
    address ← get_multisig_address_from_app_instance e id s
    let found = do
      channel ← get_state_channel address s
      or_throw (lookup id channel.proposed_app_instances) no_proposed_app_instance
    if address == "" then err no_proposed_app_instance else found

  get_stored_app_instance : Ethers → String → Store V → Result (AppInstance V)
  get_stored_app_instance e id s = do
    channel ← get_channel_from_app_instance_id e id s
    get_app_instance channel id

  get_withdrawal_commitment : String → Store V → Option MinimalTransaction
  get_withdrawal_commitment multisig_address s = lookup multisig_address s.shared_data.withdrawals

  unfoldable pub store_withdrawal_commitment : String → MinimalTransaction → Store V → Store V
  unfolding persist_db
  store_withdrawal_commitment multisig_address commitment s = persist_db (record s {
    shared_data = record s.shared_data {
      withdrawals = insert multisig_address commitment s.shared_data.withdrawals;
    };
  })

  unfoldable pub set_commitment : Ethers → List String → MinimalTransaction → Store V → Store V
  unfolding persist_db
  set_commitment e args c s = persist_db (record s {
    shared_data = record s.shared_data {
      commitments =
          insert (e.solidity_keccak256 c.to c.value c.calldata) (args, c) s.shared_data.commitments;
    };
  })

  create_and_save : Ethers → String → String → String → Store V → Result (StateChannel V × Store V)
  create_and_save e address initiator responder s = do
    channel ← create_empty_channel address (initiator ∷ responder ∷ [])
    ok (channel, save_state_channel e channel s)

  -- The `catch` block: only the error of a missing channel leads to a new one.
  recover_missing :
      Ethers
      → String
      → String
      → String
      → Store V
      → Result (StateChannel V)
      → Result (StateChannel V × Store V)
  unfolding create_and_save
  recover_missing e address initiator responder s (ok channel) = ok (channel, s)
  recover_missing e address initiator responder s (err no_state_channel) =
      create_and_save e address initiator responder s
  recover_missing e address initiator responder s (err other) = err other

  get_or_create_state_channel_between_virtual_app_participants :
      Ethers → String → String → String → Store V → Result (StateChannel V × Store V)
  unfolding recover_missing
  get_or_create_state_channel_between_virtual_app_participants e address initiator responder s =
      recover_missing e address initiator responder s (get_state_channel address s)

  get_peers_address_from_channel : String → Store V → String → Result (List String)
  unfolding other_owners
  get_peers_address_from_channel my_identifier s multisig_address = do
    sc ← get_state_channel multisig_address s
    ok (other_owners my_identifier sc.user_neutered_extended_keys)

  get_peers_address_from_app_instance_id : Ethers → String → Store V → String → Result (List String)
  unfolding get_peers_address_from_channel
  get_peers_address_from_app_instance_id e my_identifier s id = do
    address ← get_multisig_address_from_app_instance e id s
    get_peers_address_from_channel my_identifier s address
