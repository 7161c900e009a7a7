-- ===== src/Main/Config.antt =====
-- `KvOnChainConfig` of main.rs: the configuration of the chain that the consensus engine asks for.
use gravity_kvstore.Prelude.{
  ℕ, Text, Bytes, Option, none, some, List, [], ◌∷◌, Outcome, ok, unwrap, ◌>>=◌, ascii,
}
use gravity_kvstore.Types.Deps.{Deps}
use gravity_kvstore.State.Encoding.{u64_le}

-- gravity_sdk's `OnChainConfig`: the names that the code tells apart, and the others.
pub data OnChainConfig : Type 0 where
  validator_set consensus_config epoch other : OnChainConfig

-- gravity_sdk's `ValidatorConfig`
pub record ValidatorConfig : Type 0 where
  pub consensus_public_key : Bytes
  pub validator_network_addresses : Bytes
  pub fullnode_network_addresses : Bytes
  pub validator_index : ℕ

-- gravity_sdk's `ValidatorSet`, over its `ValidatorInfo`
pub record ValidatorSet (Info : Type 0) : Type 0 where
  pub active_validators : List Info
  pub pending_inactive : List Info
  pub pending_active : List Info
  pub total_voting_power : ℕ
  pub total_joining_power : ℕ

-- What the code calls of gravity_sdk and bcs.
pub record Gravity : Type 1 where
  pub AccountAddress : Type 0
  pub ValidatorInfo : Type 0
  pub ConfigRes : Type 0
  pub address_from_bytes : Bytes → AccountAddress
  -- address, voting power, config
  pub validator_info_new : AccountAddress → ℕ → ValidatorConfig → ValidatorInfo
  pub config_res_from : Bytes → ConfigRes
  pub bcs_text : Text → Outcome Text Bytes
  pub bcs_validator_set : ValidatorSet ValidatorInfo → Outcome Text Bytes

abbrev pub account_address : Text
account_address = ascii "2d86b40a1d692c0749a0a0426e2021ee24e2430da0f5bb9c2ae6c586bf3e0a0f"

abbrev pub public_key : Text
public_key =
    ascii
      "851d41932d866f5fabed6673898e15473e6a0adcf5033d2c93816c6b115c85ad3451e0bac61d570d5ed9f23e1e7f77c4"

abbrev pub network_address : Text
network_address =
    ascii
      "/ip4/127.0.0.1/tcp/2024/noise-ik/2d86b40a1d692c0749a0a0426e2021ee24e2430da0f5bb9c2ae6c586bf3e0a0f/handshake/0"

abbrev pub consensus_bytes : Bytes
consensus_bytes =
    3 ∷ 1 ∷ 1 ∷ 10 ∷ 0 ∷ 0 ∷ 0 ∷ 0 ∷ 0 ∷ 0 ∷ 0 ∷ 40 ∷ 0 ∷ 0 ∷ 0 ∷ 0 ∷ 0 ∷ 0 ∷ 0 ∷ 1 ∷ 1 ∷ 0 ∷ 0 ∷ 0
    ∷ 10 ∷ 0 ∷ 0 ∷ 0 ∷ 0 ∷ 0 ∷ 0 ∷ 0 ∷ 1 ∷ 0 ∷ 0 ∷ 0 ∷ []

module _ (d : Deps) (g : Gravity) where
  -- `gravity_validator_set`
  unfoldable pub the_validator_set : {E : Type 0} → Outcome E (ValidatorSet g.ValidatorInfo)
  the_validator_set = do
    address ← unwrap (d.hex_decode account_address)
    validator_network_addresses ← unwrap (g.bcs_text network_address)
    fullnode_network_addresses ← unwrap (g.bcs_text network_address)
    ok (record {
      active_validators =
          g.validator_info_new (g.address_from_bytes address) 1 (record {
            consensus_public_key = public_key;
            validator_network_addresses = validator_network_addresses;
            fullnode_network_addresses = fullnode_network_addresses;
            validator_index = 0;
          })
          ∷ [];
      pending_inactive = [];
      pending_active = [];
      total_voting_power = 1;
      total_joining_power = 1;
    })

  -- The set is made whatever is asked for, and the block number is not used.
  unfoldable pub fetch_config_bytes :
      {E : Type 0} → OnChainConfig → ℕ → Outcome E (Option g.ConfigRes)
  fetch_config_bytes config_name block_number = do
    gravity_validator_set ← the_validator_set
    elim config_name [
      | validator_set ↦ unwrap (g.bcs_validator_set gravity_validator_set) >>= λ bytes.
          ok (some (g.config_res_from bytes))
      | consensus_config ↦ ok (some (g.config_res_from consensus_bytes))
      | epoch ↦ ok (some (g.config_res_from (u64_le 1)))
      | other ↦ ok none
    ]
