-- ===== src/Config.antt =====
-- The configuration file of the command line: cmd/config.go, and loadConfigFile and
-- performConfigLockingOperation of cmd/appstate.go.
pub mod Laws
use centralized_relay.Common.{
  List, [], ◌∷◌, Option, none, some, Bool, true, false, not, Text, text_eq, Result, ok, err, Error,
  ◌>>=◌, if◌then◌else◌, empty_chain_name, chain_exists, chain_not_configured,
}
use centralized_relay.Types.Contracts.{TextMap, lookup}
use centralized_relay.Chain.{put}

-- The configuration of a provider as it stands in the file, with what the code reads of it.
pub record ChainConfig : Type 0 where
  pub kind : Text
  pub enabled : Bool
  pub contents : Text

-- A chain of the running configuration.
pub record Built : Type 0 where
  pub nid : Text
  pub name : Text
  pub config : ChainConfig

-- The constructors of the providers, the key service, and `Init`.
pub record Builders : Type 0 where
  pub new_provider : Text → ChainConfig → Result Built
  pub new_kms : Result (Unit {0})
  pub init : Built → Result (Unit {0})

module _ (builders : Builders) where
  -- The loop of `RuntimeConfig`: a chain that is disabled is left out, and the others are kept by their
  -- network ids.
  unfoldable pub runtime_config_onto : TextMap Built → TextMap ChainConfig → Result (TextMap Built)
  unfolding put
  runtime_config_onto out [] = ok out
  runtime_config_onto out ((name, c) ∷ rest) =
      let skipped = runtime_config_onto out rest in
      if not c.enabled
      then skipped
      else (builders.new_provider name c >>= λ b. builders.new_kms >>= λ _.
          builders.init b >>= λ _. runtime_config_onto (put b.nid b out) rest)

  unfoldable pub runtime_config : TextMap ChainConfig → Result (TextMap Built)
  unfolding runtime_config_onto
  runtime_config file = runtime_config_onto [] file

  -- `Wrapped`: the chains by their names.
  unfoldable pub wrapped_onto : TextMap ChainConfig → TextMap Built → TextMap ChainConfig
  unfolding put
  wrapped_onto out [] = out
  wrapped_onto out ((key, b) ∷ rest) = wrapped_onto (put b.name b.config out) rest

  unfoldable pub wrapped : TextMap Built → TextMap ChainConfig
  unfolding wrapped_onto
  wrapped chains = wrapped_onto [] chains

  -- `Chains.Get` finds a chain by its network id.
  unfoldable pub has_nid : Text → TextMap Built → Bool
  has_nid nid [] = false
  has_nid nid ((key, b) ∷ rest) = if text_eq nid b.nid then true else has_nid nid rest

  -- `AddChain`, which keeps the chain by its name.
  unfoldable pub add_chain : Built → TextMap Built → Result (TextMap Built)
  unfolding has_nid put
  add_chain b chains =
      if text_eq b.nid []
      then err empty_chain_name
      else if has_nid b.nid chains
      then err chain_exists
      else ok (put b.name b chains)

  -- `delete(c.Chains, chain)`
  unfoldable pub without : Text → TextMap Built → TextMap Built
  without key [] = []
  without key ((j, b) ∷ rest) =
      let others = without key rest in if text_eq j key then others else (j, b) ∷ others

  -- The operation of `chains delete`: the chain is found by the key of the map, its network id.
  unfoldable pub delete_chain : Text → TextMap Built → Result (TextMap Built)
  unfolding lookup without
  delete_chain key chains = elim (lookup key chains) [
    | none ↦ err (chain_not_configured key)
    | some b ↦ ok (without key chains)
  ]

  -- `performConfigLockingOperation` for a file that is there: what is written. `validateConfig`
  -- accepts everything.
  unfoldable pub config_operation :
      TextMap ChainConfig → (TextMap Built → Result (TextMap Built)) → Result (TextMap ChainConfig)
  unfolding runtime_config wrapped
  config_operation file operation =
      runtime_config file >>= λ chains. operation chains >>= λ changed. ok (wrapped changed)
