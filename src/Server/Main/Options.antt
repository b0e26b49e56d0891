-- ===== src/Server/Main/Options.antt =====
-- What the options of the server can set.
use c8005_assn.Base.{
  ap, ◌∙◌, ◌≢◌, subst, ℕ, ◌^◌, ◌≡◌, ◌<◌, ◌⊎◌, inl, inr, refl, arith, Bool, Option, none, some, List,
  [], ◌∷◌, ltb, ◌==◌, if◌then◌else◌, Bool-cases, Option-cases,
}
use c8005_assn.Server.Main.{
  Config, Parsed, runs, exits, set_port, set_server, set_option, set_options,
}

-- The port that the last option 'p' names.
abbrev pub last_port : (List ℕ → Option ℕ) → List (ℕ × List ℕ) → ℕ → ℕ
last_port read_uint [] port = port
last_port read_uint ((c, optarg) ∷ os) port =
    last_port read_uint os
      (if c == 112 then (elim (read_uint optarg) [ none ↦ port | some p ↦ p ]) else port)

Parsed-cases : (r : Parsed) → ((c : Config) × (r ≡ runs c)) ⊎ ((b : Bool) × (r ≡ exits b))
Parsed-cases (runs c) = inl (c, refl)
Parsed-cases (exits b) = inr (b, refl)

exits-ne-runs : (b : Bool) (c : Config) → exits b ≢ runs c
exits-ne-runs b c e = cc

module _ (read_uint : List ℕ → Option ℕ) where
  set_server-port :
      (optarg : List ℕ) (c d : Config) → set_server read_uint optarg c ≡ runs d → d.port ≡ c.port
  unfolding set_server
  set_server-port optarg c d h = ground arith

  set_option-port :
      (c : ℕ) (optarg : List ℕ) (config d : Config)
      → set_option read_uint (c, optarg) config ≡ runs d
      → d.port ≡ last_port read_uint ((c, optarg) ∷ []) config.port
  unfolding set_option set_port
  set_option-port c optarg config d h = elim (Bool-cases (c == 112)) [
    | inr other ↦ elim (Bool-cases (c == 115)) [
      | inl server ↦ ground (arith, h, other, server, set_server-port optarg config d)
      | inr none_of_both ↦ ground (arith, h, other, none_of_both)
    ]
    | inl port ↦ elim (Option-cases (read_uint optarg)) [
      | inl unread ↦ ground (arith, h, port, unread)
      | inr (p, got) ↦ elim (Bool-cases (ltb 65535 p)) [
        | inl high ↦ ground (arith, h, port, got, high)
        | inr low ↦ ground (arith, h, port, got, low)
      ]
    ]
  ]

  set_option-bound :
      (c : ℕ) (optarg : List ℕ) (config d : Config)
      → config.port < 2 ^ 16
      → set_option read_uint (c, optarg) config ≡ runs d
      → d.port < 2 ^ 16
  unfolding set_option set_port
  set_option-bound c optarg config d small h = elim (Bool-cases (c == 112)) [
    | inr other ↦ elim (Bool-cases (c == 115)) [
      | inl server ↦ ground (arith, h, other, server, set_server-port optarg config d)
      | inr none_of_both ↦ ground (arith, h, other, none_of_both)
    ]
    | inl port ↦ elim (Option-cases (read_uint optarg)) [
      | inl unread ↦ ground (arith, h, port, unread)
      | inr (p, got) ↦ elim (Bool-cases (ltb 65535 p)) [
        | inl high ↦ ground (arith, h, port, got, high)
        | inr low ↦ ground (arith, h, port, got, low)
      ]
    ]
  ]

  abbrev go_on : List (ℕ × List ℕ) → Parsed → Parsed
  go_on os r = elim r [ exits b ↦ exits b | runs config' ↦ set_options read_uint os config' ]

  -- If the options do not end the program, the port is the one of the last option 'p', whole, or the
  -- default where there is none, and it fits 16 bits.
  pub set_options-port :
      (os : List (ℕ × List ℕ)) (config d : Config)
      → config.port < 2 ^ 16
      → set_options read_uint os config ≡ runs d
      → (d.port ≡ last_port read_uint os config.port) × (d.port < 2 ^ 16)
  unfolding set_options
  set_options-port [] config d small h = ground (arith, h)
  set_options-port ((c, optarg) ∷ os) config d small h =
      elim (Parsed-cases (set_option read_uint (c, optarg) config)) [
        | inr (b, e) ↦
            let stopped : exits b ≡ runs d = subst (λ r. go_on os r ≡ runs d) e h in
            absurd (exits-ne-runs b d stopped)
        | inl (config', e) ↦
            let rest : set_options read_uint os config' ≡ runs d =
              subst (λ r. go_on os r ≡ runs d) e h in
            let (q, bound) =
              set_options-port os config' d (set_option-bound c optarg config config' small e)
                rest in
            (q ∙ ap (last_port read_uint os) (set_option-port c optarg config config' e), bound)
      ]
