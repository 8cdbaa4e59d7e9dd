-- ===== src/Config/Laws.antt =====
-- What a change of the configuration file keeps (cmd/config.go and cmd/appstate.go).
use centralized_relay.Common.{
  ◌≡◌, refl, ap, sym, subst, ◌∙◌, [], ◌∷◌, Bool, true, false, not, Text, text_eq, Result, ok, ◌>>=◌,
  >>=-gives, All, In, inl, inr, ◌⊎◌, Bool-cases, if◌then◌else◌, err-ne, Option-cases,
  chain_not_configured,
}
use centralized_relay.Types.Contracts.{TextMap, lookup}
use centralized_relay.Chain.{put}
use centralized_relay.Chain.Maps.{All-put, HasKey, put-HasKey, put-HasKey_old}
use centralized_relay.Config.{
  ChainConfig, Built, Builders, runtime_config_onto, runtime_config, wrapped_onto, wrapped, without,
  delete_chain, config_operation,
}

module _ (builders : Builders) where
  -- A provider has the name that it was made with.
  abbrev pub IsNamed : Type 0
  IsNamed =
      (name : Text) (c : ChainConfig) (b : Built)
      → builders.new_provider name c ≡ ok b
      → b.name ≡ name

  -- A chain of the running configuration is kept by its network id, and its provider was made for an
  -- entry of the file whose chain is enabled.
  abbrev pub IsBuiltIn : TextMap ChainConfig → Text × Built → Type 0
  IsBuiltIn file x =
      (c : ChainConfig) × In (x.1.name, c) file
      × (c.enabled ≡ true)
      × (builders.new_provider x.1.name c ≡ ok x.1)
      × (x.0 ≡ x.1.nid)

  -- An entry that is written for a chain of the running configuration other than that with the key.
  abbrev pub IsKeptIn : TextMap ChainConfig → Text → Text × ChainConfig → Type 0
  IsKeptIn file key e =
      (b : Built) × IsBuiltIn file (b.nid, b)
      × (e ≡ (b.name, b.config))
      × (text_eq b.nid key ≡ false)

  -- A round of the loop, for whether the chain is enabled.
  abbrev chosen :
      Bool → Text → ChainConfig → TextMap ChainConfig → TextMap Built → Result (TextMap Built)
  chosen t name c rest out =
      if not t
      then runtime_config_onto builders out rest
      else (builders.new_provider name c >>= λ b. builders.new_kms >>= λ _.
          builders.init b >>= λ _. runtime_config_onto builders (put b.nid b out) rest)

  runtime_config_onto-IsBuiltIn :
      (file rest : TextMap ChainConfig) (out chains : TextMap Built)
      → IsNamed
      → ((e : Text × ChainConfig) → In e rest → In e file)
      → All (IsBuiltIn file) out
      → runtime_config_onto builders out rest ≡ ok chains
      → All (IsBuiltIn file) chains
  unfolding runtime_config_onto
  runtime_config_onto-IsBuiltIn file [] out chains named within h r =
      let same : out ≡ chains = cc in subst (All (IsBuiltIn file)) same h
  runtime_config_onto-IsBuiltIn file ((name, c) ∷ rest) out chains named within h r =
      elim (Bool-cases c.enabled) [
        | inr e ↦
            runtime_config_onto-IsBuiltIn file rest out chains named (λ x i. within x (inr i)) h
              (subst (λ t. chosen t name c rest out ≡ ok chains) e r)
        | inl e ↦
            >>=-gives (builders.new_provider name c) _ chains
              (subst (λ t. chosen t name c rest out ≡ ok chains) e r)
              (λ b p g. >>=-gives builders.new_kms _ chains g (λ u q k.
                >>=-gives (builders.init b) _ chains k (λ v s l.
                  runtime_config_onto-IsBuiltIn file rest (put b.nid b out) chains named
                    (λ x i. within x (inr i))
                    (All-put (IsBuiltIn file) b.nid b out h (
                      subst
                        (λ n.
                          (d : ChainConfig) × In (n, d) file
                          × (d.enabled ≡ true)
                          × (builders.new_provider n d ≡ ok b)
                          × (b.nid ≡ b.nid))
                        (sym (named name c b p)) (c, within (name, c) (inl refl), e, p, refl)))
                    l)))
      ]

  runtime_config-IsBuiltIn :
      (file : TextMap ChainConfig) (chains : TextMap Built)
      → IsNamed
      → runtime_config builders file ≡ ok chains
      → All (IsBuiltIn file) chains
  unfolding runtime_config
  runtime_config-IsBuiltIn file chains named r =
      runtime_config_onto-IsBuiltIn file file [] chains named (λ e i. i) tt r

  wrapped_onto-IsKeptIn :
      (file out : TextMap ChainConfig) (key : Text) (chains : TextMap Built)
      → All (IsKeptIn file key) out
      → All (λ x. IsBuiltIn file x × (text_eq x.0 key ≡ false)) chains
      → All (IsKeptIn file key) (wrapped_onto builders out chains)
  unfolding wrapped_onto
  wrapped_onto-IsKeptIn file out key [] h k = h
  wrapped_onto-IsKeptIn file out key ((j, b) ∷ chains) h k =
      let ((c, within, enabled, made, same), other) = k.0 in
      wrapped_onto-IsKeptIn file (put b.name b.config out) key chains
        (All-put (IsKeptIn file key) b.name b.config out h (
          b,
          (c, within, enabled, made, refl),
          refl,
          subst (λ n. text_eq n key ≡ false) same other,
        ))
        k.1

  wrapped_onto-HasKey :
      (n : Text) (out : TextMap ChainConfig) (chains : TextMap Built)
      → HasKey n out
      → HasKey n (wrapped_onto builders out chains)
  unfolding wrapped_onto
  wrapped_onto-HasKey n out [] h = h
  wrapped_onto-HasKey n out ((j, b) ∷ chains) h =
      wrapped_onto-HasKey n (put b.name b.config out) chains
        (put-HasKey_old n b.name b.config out h)

  wrapped_onto-HasKey_name :
      (x : Text × Built) (out : TextMap ChainConfig) (chains : TextMap Built)
      → In x chains
      → HasKey x.1.name (wrapped_onto builders out chains)
  unfolding wrapped_onto
  wrapped_onto-HasKey_name x out [] i = absurd i
  wrapped_onto-HasKey_name x out ((j, b) ∷ chains) (inl e) =
      wrapped_onto-HasKey x.1.name (put b.name b.config out) chains
        (subst (λ y. HasKey y.1.name (put b.name b.config out)) e (put-HasKey b.name b.config out))
  wrapped_onto-HasKey_name x out ((j, b) ∷ chains) (inr i) =
      wrapped_onto-HasKey_name x (put b.name b.config out) chains i

  All-without :
      (P : Text × Built → Type 0) (key : Text) (chains : TextMap Built)
      → All P chains
      → All (λ x. P x × (text_eq x.0 key ≡ false)) (without builders key chains)
  unfolding without
  All-without P key [] h = tt
  All-without P key ((j, b) ∷ rest) h = elim (Bool-cases (text_eq j key)) [
    | inl t ↦ rw (t, without) (All-without P key rest h.1)
    | inr t ↦ rw (t, without) ((h.0, t), All-without P key rest h.1)
  ]

  In-without :
      (key : Text) (chains : TextMap Built) (x : Text × Built)
      → In x chains
      → text_eq x.0 key ≡ false
      → In x (without builders key chains)
  unfolding without
  In-without key [] x i other = absurd i
  In-without key ((j, b) ∷ rest) x (inl e) other =
      let t : text_eq j key ≡ false = ap (λ y. text_eq y.0 key) e ∙ other in rw (t, without) (inl e)
  In-without key ((j, b) ∷ rest) x (inr i) other = elim (Bool-cases (text_eq j key)) [
    | inl t ↦ rw (t, without) (In-without key rest x i other)
    | inr t ↦ rw (t, without) (inr (In-without key rest x i other))
  ]

  -- What is written when the chain was found.
  delete_chain-without :
      (key : Text) (chains changed : TextMap Built)
      → delete_chain builders key chains ≡ ok changed
      → without builders key chains ≡ changed
  unfolding delete_chain
  delete_chain-without key chains changed h = elim (Option-cases (lookup key chains)) [
    | inl n ↦ absurd (err-ne (chain_not_configured key) changed (rw (n, delete_chain) at h))
    | inr (b, n) ↦ same (rw (n, delete_chain) at h)
  ]
    where
      same : ok (without builders key chains) ≡ ok changed → without builders key chains ≡ changed
      same g = cc

  deleted_written :
      (file written : TextMap ChainConfig) (key : Text) (chains : TextMap Built)
      → config_operation builders file (delete_chain builders key) ≡ ok written
      → runtime_config builders file ≡ ok chains
      → wrapped_onto builders [] (without builders key chains) ≡ written
  unfolding config_operation wrapped
  deleted_written file written key chains h r =
      >>=-gives (runtime_config builders file) _ written h (λ found p g.
        >>=-gives (delete_chain builders key found) _ written g (λ changed q k.
          let same : found ≡ chains = ok_injective (sym p ∙ r) in
          let left : without builders key found ≡ changed =
            delete_chain-without key found changed q in
          let last : wrapped_onto builders [] changed ≡ written = cc in
          ap (λ x. wrapped_onto builders [] (without builders key x)) (sym same)
          ∙ ap (wrapped_onto builders []) left
          ∙ last))
    where
      ok_injective : {x y : TextMap Built} → ok x ≡ ok y → x ≡ y
      ok_injective e = cc

  named_or_kept :
      (key : Text) (written : TextMap ChainConfig) (chains rest : TextMap Built)
      → wrapped_onto builders [] (without builders key chains) ≡ written
      → ((x : Text × Built) → In x rest → In x chains)
      → All (λ x. (text_eq x.0 key ≡ true) ⊎ HasKey x.1.name written) rest
  named_or_kept key written chains [] same within = tt
  named_or_kept key written chains (x ∷ rest) same within = (
    elim (Bool-cases (text_eq x.0 key)) [
      | inl t ↦ inl t
      | inr t ↦ inr (
          subst (HasKey x.1.name) same (
            wrapped_onto-HasKey_name x [] (without builders key chains)
              (In-without key chains x (within x (inl refl)) t)))
    ],
    named_or_kept key written chains rest same (λ y i. within y (inr i)),
  )

  -- If a provider has the name that it was made with, then after `chains delete` has written the
  -- configuration file, each of its entries has the name of a chain that was enabled in the file before
  -- and the configuration of the provider that was made for it, and is not that of the chain with the
  -- network id that was named; and every other chain of the running configuration has an entry under
  -- its name.
  pub delete_chain_written :
      (file written : TextMap ChainConfig) (key : Text) (chains : TextMap Built)
      → IsNamed
      → runtime_config builders file ≡ ok chains
      → config_operation builders file (delete_chain builders key) ≡ ok written
      → All (IsKeptIn file key) written
        × All (λ x. (text_eq x.0 key ≡ true) ⊎ HasKey x.1.name written) chains
  delete_chain_written file written key chains named r h =
      let same = deleted_written file written key chains h r in
      (
        subst (All (IsKeptIn file key)) same (
            wrapped_onto-IsKeptIn file [] key (without builders key chains) tt (
              All-without (IsBuiltIn file) key chains
                (runtime_config-IsBuiltIn file chains named r))),
        named_or_kept key written chains chains same (λ x i. i),
      )
