-- ===== src/Client/Options.antt =====
-- The options of client/main.c. `getopt_long` gives them: a character and the argument. `read_uint` and
-- `read_int` are `sscanf` with `%u` and with `%d`, whose result is stored in an unsigned int. Printed
-- text and `num_of_threads`, which nothing sets or reads, are left out.
pub mod Bounds
use c8005_assn.Base.{
  ℕ, zero, suc, ◌+◌, ◌-◌, ◌*◌, ◌^◌, ◌%◌, ◌<◌, ◌≤◌, ◌≡◌, ◌≢◌, ◌∙◌, refl, sym, ap, arith, Bool, true,
  false, Option, none, some, List, [], ◌∷◌, ◌++◌, length, take, ltb, ◌==◌, if◌then◌else◌, Run, ok,
  fault, timeout, ◌>>=◌, Bool-cases, Option-cases, Returns, Returns-ok, Returns-bind, inl, inr,
}
use c8005_assn.Os.{Os}

-- `client_info`, but for the descriptor of the file for the results.
pub record Info : Type 0 where
  pub ip : List ℕ
  pub port : List ℕ
  pub num_of_clients : ℕ
  pub max_requests : ℕ
  pub msg_size : ℕ

pub data Parsed : Type 0 where
  runs : Info → Parsed
  exits : (success : Bool) → Parsed  -- `exit`

-- `DEFAULT_IP` is 192.168.0.12 and `DEFAULT_PORT` 8005.
unfoldable pub default_info : Info
default_info = record {
  ip = 49 ∷ 57 ∷ 50 ∷ 46 ∷ 49 ∷ 54 ∷ 56 ∷ 46 ∷ 48 ∷ 46 ∷ 49 ∷ 50 ∷ [];
  port = 56 ∷ 48 ∷ 48 ∷ 53 ∷ [];
  num_of_clients = 5000;
  max_requests = 1;
  msg_size = 1024;
}

module _ (os : Os) (read_uint read_int : List ℕ → Option ℕ) where
  open os use {World, malloc}

  -- The copy of `optarg`, whose last byte is a 0. What `malloc` gives is not tested.
  unfoldable pub copy_text : List ℕ → World → Run (List ℕ × World)
  copy_text optarg w =
      let (block, w') = malloc (length optarg + 1) w in
      elim block [ none ↦ fault | some _ ↦ ok (optarg, w') ]

  -- The case 'p'.
  unfoldable pub set_port : List ℕ → Info → World → Run (Parsed × World)
  set_port optarg d w = elim (read_uint optarg) [
    | none ↦ ok (exits false, w)
    | some port_int ↦ elim (ltb 65535 port_int) [
      | true ↦ ok (exits false, w)
      | false ↦ do (text, w') ← copy_text optarg w; ok (runs (record d { port = text }), w')
    ]
  ]

  -- The case 'i'.
  unfoldable pub set_ip : List ℕ → Info → World → Run (Parsed × World)
  set_ip optarg d w = do (text, w') ← copy_text optarg w; ok (runs (record d { ip = text }), w')

  -- The case 'm'.
  unfoldable pub set_max : List ℕ → Info → Parsed
  set_max optarg d = elim (read_int optarg) [
    | none ↦ exits false
    | some n ↦ runs (record d { max_requests = n })
  ]

  -- The case 'n'.
  unfoldable pub set_clients : List ℕ → Info → Parsed
  set_clients optarg d = elim (read_int optarg) [
    | none ↦ exits false
    | some n ↦ runs (record d { num_of_clients = n })
  ]

  -- The case 's'.
  unfoldable pub set_msg_size : List ℕ → Info → Parsed
  set_msg_size optarg d = elim (read_uint optarg) [
    | none ↦ exits false
    | some n ↦ if n == 0 then exits false else runs (record d { msg_size = n })
  ]

  -- The `switch`: 'p' is 112, 'i' is 105, 'm' is 109, 'n' is 110, 's' is 115 and 'h' is 104; '?' and any
  -- other character fail.
  unfoldable pub set_option : ℕ × List ℕ → Info → World → Run (Parsed × World)
  set_option (c, optarg) d w = elim (c == 112) [
    | true ↦ set_port optarg d w
    | false ↦ elim (c == 105) [
      | true ↦ set_ip optarg d w
      | false ↦ ok (
        if c == 109
            then set_max optarg d
            else (if c == 110
                then set_clients optarg d
                else (if c == 115 then set_msg_size optarg d else exits (c == 104))),
        w,
      )
    ]
  ]

  -- The loop over the options.
  unfoldable pub set_options : List (ℕ × List ℕ) → Info → World → Run (Parsed × World)
  set_options [] d w = ok (runs d, w)
  set_options (o ∷ os) d w = do
    (r, w') ← set_option o d w
    elim r [ exits b ↦ ok (exits b, w') | runs d' ↦ set_options os d' w' ]
