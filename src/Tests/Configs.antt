-- ===== src/Tests/Configs.antt =====
-- Tests of the configuration file: one chain is deleted, and a disabled one goes with it.
use centralized_relay.Common.{
  ◌≡◌, refl, ap, sym, [], ◌∷◌, Bool, All, ◌⊎◌, Text, text_eq, true, false, codes, ok,
}
use centralized_relay.Types.Contracts.{TextMap, lookup}
use centralized_relay.Chain.{put}
use centralized_relay.Chain.Maps.{HasKey}
use centralized_relay.Config.{
  runtime_config, Built, ChainConfig, Builders, without, delete_chain, config_operation,
}
use centralized_relay.Config.Laws.{IsKeptIn, IsNamed, delete_chain_written}

abbrev entry : Bool → ChainConfig
entry on = record { kind = codes "evm"; enabled = on; contents = [] }

abbrev builders : Builders
builders = record {
  new_provider = λ name c. ok (record { nid = name; name = name; config = c });
  new_kms = ok tt;
  init = λ b. ok tt;
}

-- Of the three chains `b` is disabled.
abbrev file : TextMap ChainConfig
file = (codes "a", entry true) ∷ (codes "b", entry false) ∷ (codes "c", entry true) ∷ []

abbrev left_over : TextMap ChainConfig
left_over = (codes "a", entry true) ∷ []

deleted : config_operation builders file (delete_chain builders (codes "c")) ≡ ok left_over
unfolding config_operation delete_chain lookup without put text_eq
deleted = refl

builders-IsNamed : IsNamed builders
builders-IsNamed name c b h =
    let same : record { nid = name; name = name; config = c } ≡ b = cc in
    ap (λ x. x.name) (sym same)

-- The running configuration before the deletion.
abbrev running : TextMap Built
running = (codes "a", built (codes "a")) ∷ (codes "c", built (codes "c")) ∷ []
  where
    built : Text → Built
    built name = record { nid = name; name = name; config = entry true }

started : runtime_config builders file ≡ ok running
unfolding runtime_config put text_eq
started = refl

delete_chain_written_example :
    All (IsKeptIn builders file (codes "c")) left_over
    × All (λ x. (text_eq x.0 (codes "c") ≡ true) ⊎ HasKey x.1.name left_over) running
delete_chain_written_example =
    delete_chain_written builders file left_over (codes "c") running builders-IsNamed started
      deleted
