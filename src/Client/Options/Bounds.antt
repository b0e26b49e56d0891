-- ===== src/Client/Options/Bounds.antt =====
-- What the options leave in `client_info`.
use c8005_assn.Base.{
  ℕ, ◌+◌, ◌^◌, ◌<◌, ◌≡◌, ◌≢◌, ◌∙◌, refl, ap, arith, Option, none, some, List, [], ◌∷◌, length, ltb,
  ◌==◌, ok, Bool-cases, Option-cases, Returns, Returns-bind, inl, inr,
}
use c8005_assn.Os.{Os}
use c8005_assn.Client.Options.{
  default_info, Info, Parsed, runs, exits, copy_text, set_port, set_ip, set_max, set_clients,
  set_msg_size, set_option, set_options,
}

-- The port is text that reads as a number of 16 bits, and there is a byte to send.
pub record IsSane (read_uint : List ℕ → Option ℕ) (d : Info) : Type 0 where
  pub port_read : (p : ℕ) × (read_uint d.port ≡ some p) × (p < 2 ^ 16)
  pub some_bytes : 0 < d.msg_size

-- Options that do not end the program leave what is sane.
abbrev pub AllSane : (List ℕ → Option ℕ) → Parsed → Type 0
AllSane read_uint (runs d) = IsSane read_uint d
AllSane read_uint (exits b) = Unit

module _ (os : Os) (read_uint read_int : List ℕ → Option ℕ)
    (roomy : (n : ℕ) (w : os.World) → (os.malloc n w).0 ≢ none) where
  abbrev Sane : Parsed × os.World → Type 0
  Sane r = AllSane read_uint r.0

  copy_text_lem :
      (t : List ℕ) (w : os.World) → Returns (λ r. r.0 ≡ t) (copy_text os read_uint read_int t w)
  unfolding copy_text
  copy_text_lem t w = elim (Option-cases (os.malloc (length t + 1) w).0) [
    | inl refused ↦ absurd (roomy (length t + 1) w refused)
    | inr (b, got) ↦ rw (got, copy_text) refl
  ]

  set_port-IsSane :
      (t : List ℕ) (d : Info) (w : os.World)
      → IsSane read_uint d
      → Returns Sane (set_port os read_uint read_int t d w)
  unfolding set_port
  set_port-IsSane t d w v = elim (Option-cases (read_uint t)) [
    | inl unread ↦ rw (unread, set_port) tt
    | inr (p, got) ↦ elim (Bool-cases (ltb 65535 p)) [
      | inl high ↦ rw (got, set_port) (rw (high, set_port) tt)
      | inr low ↦
          rw (got, set_port)
            (rw (low, set_port)
              (Returns-bind (λ r. r.0 ≡ t) Sane (copy_text os read_uint read_int t w) _
                (copy_text_lem t w)
                (λ r e. record {
                  port_read = (p, ap read_uint e ∙ got, ground (arith, low));
                  some_bytes = v.some_bytes;
                })))
    ]
  ]

  set_ip-IsSane :
      (t : List ℕ) (d : Info) (w : os.World)
      → IsSane read_uint d
      → Returns Sane (set_ip os read_uint read_int t d w)
  unfolding set_ip
  set_ip-IsSane t d w v =
      Returns-bind (λ r. r.0 ≡ t) Sane (copy_text os read_uint read_int t w) _ (copy_text_lem t w)
        (λ r e. record { port_read = v.port_read; some_bytes = v.some_bytes })

  set_max-IsSane :
      (t : List ℕ) (d : Info)
      → IsSane read_uint d
      → AllSane read_uint (set_max os read_uint read_int t d)
  unfolding set_max
  set_max-IsSane t d v = elim (Option-cases (read_int t)) [
    | inl unread ↦ rw (unread, set_max) tt
    | inr (n, got) ↦
        rw (got, set_max) (record { port_read = v.port_read; some_bytes = v.some_bytes })
  ]

  set_clients-IsSane :
      (t : List ℕ) (d : Info)
      → IsSane read_uint d
      → AllSane read_uint (set_clients os read_uint read_int t d)
  unfolding set_clients
  set_clients-IsSane t d v = elim (Option-cases (read_int t)) [
    | inl unread ↦ rw (unread, set_clients) tt
    | inr (n, got) ↦
        rw (got, set_clients) (record { port_read = v.port_read; some_bytes = v.some_bytes })
  ]

  set_msg_size-IsSane :
      (t : List ℕ) (d : Info)
      → IsSane read_uint d
      → AllSane read_uint (set_msg_size os read_uint read_int t d)
  unfolding set_msg_size
  set_msg_size-IsSane t d v = elim (Option-cases (read_uint t)) [
    | inl unread ↦ rw (unread, set_msg_size) tt
    | inr (n, got) ↦ elim (Bool-cases (n == 0)) [
      | inl empty ↦ rw (got, set_msg_size) (rw (empty, set_msg_size) tt)
      | inr more ↦
          rw (got, set_msg_size)
            (rw (more, set_msg_size)
              (record { port_read = v.port_read; some_bytes = ground (arith, more) }))
    ]
  ]

  set_option-IsSane :
      (c : ℕ) (t : List ℕ) (d : Info) (w : os.World)
      → IsSane read_uint d
      → Returns Sane (set_option os read_uint read_int (c, t) d w)
  unfolding set_option
  set_option-IsSane c t d w v = elim (Bool-cases (c == 112)) [
    | inl port ↦ rw (port, set_option) (set_port-IsSane t d w v)
    | inr b ↦ elim (Bool-cases (c == 105)) [
      | inl ip ↦ rw (b, set_option) (rw (ip, set_option) (set_ip-IsSane t d w v))
      | inr b' ↦
          rw (b, set_option)
            (rw (b', set_option)
              (elim (Bool-cases (c == 109)) [
                | inl max ↦ rw max (set_max-IsSane t d v)
                | inr m ↦ rw m (elim (Bool-cases (c == 110)) [
                  | inl clients ↦ rw clients (set_clients-IsSane t d v)
                  | inr n ↦ rw n (elim (Bool-cases (c == 115)) [
                    | inl size ↦ rw size (set_msg_size-IsSane t d v)
                    | inr s ↦ rw s tt
                  ])
                ])
              ]))
    ]
  ]

  set_options-IsSane :
      (options : List (ℕ × List ℕ)) (d : Info) (w : os.World)
      → IsSane read_uint d
      → Returns Sane (set_options os read_uint read_int options d w)
  unfolding set_options
  set_options-IsSane [] d w v = v
  set_options-IsSane ((c, t) ∷ options) d w v =
      Returns-bind Sane Sane (set_option os read_uint read_int (c, t) d w) _
        (set_option-IsSane c t d w v) (go_on (λ d' w' h. set_options-IsSane options d' w' h))
    where
      go_on :
          ((d' : Info) (w' : os.World)
            → IsSane read_uint d'
            → Returns Sane (set_options os read_uint read_int options d' w'))
          → (r : Parsed × os.World) → Sane r
          → Returns Sane (elim r.0 [
            | exits b ↦ ok (exits b, r.1)
            | runs d' ↦ set_options os read_uint read_int options d' r.1
          ])
      go_on rest (exits b, w') h = tt
      go_on rest (runs d', w') h = rest d' w' h

  -- If memory does not run out and `sscanf` reads the text of the default port as 8005, any options,
  -- after the defaults, are read to the end, and where they do not end the program the port is text
  -- that `sscanf` reads as a number below 2^16, and the messages have at least one byte.
  pub client_options-IsSane :
      (options : List (ℕ × List ℕ)) (w : os.World)
      → read_uint default_info.port ≡ some 8005
      → Returns Sane (set_options os read_uint read_int options default_info w)
  unfolding default_info
  client_options-IsSane options w port =
      set_options-IsSane options default_info w
        (record { port_read = (8005, port, omega arith); some_bytes = omega arith })
