-- ===== src/Server/Main.antt =====
-- `main` of server/main.c. `getopt_long` gives the options: a character and the argument. `read_uint`
-- is `sscanf` with `%u`. Printed text is left out.
pub mod Options
use c8005_assn.Base.{
  ℕ, Bool, true, false, Option, none, some, List, [], ◌∷◌, ltb, ◌==◌, if◌then◌else◌, ◌&&◌, u16, Run,
  ok, ◌>>=◌,
}
use c8005_assn.Os.{Os}
use c8005_assn.Util.Log.{log_open, log_close}

pub data Kind : Type 0 where
  epoll select thread : Kind

-- `port` and `server`.
pub record Config : Type 0 where
  pub port : ℕ
  pub server : Kind

pub data Parsed : Type 0 where
  runs : Config → Parsed
  exits : (success : Bool) → Parsed  -- `exit`

-- `DEFAULT_PORT` and the default server.
pub default_config : Config
default_config = record { port = 8005; server = epoll }

-- `strcmp` with 0 as its result.
pub same_text : List ℕ → List ℕ → Bool
same_text [] [] = true
same_text [] (d ∷ ds) = false
same_text (c ∷ cs) [] = false
same_text (c ∷ cs) (d ∷ ds) = (c == d) && same_text cs ds

pub epoll_name : List ℕ
epoll_name = 101 ∷ 112 ∷ 111 ∷ 108 ∷ 108 ∷ []

pub select_name : List ℕ
select_name = 115 ∷ 101 ∷ 108 ∷ 101 ∷ 99 ∷ 116 ∷ []

pub thread_name : List ℕ
thread_name = 116 ∷ 104 ∷ 114 ∷ 101 ∷ 97 ∷ 100 ∷ []

module _ (read_uint : List ℕ → Option ℕ) where
  -- The case 'p'.
  unfoldable pub set_port : List ℕ → Config → Parsed
  set_port optarg c = elim (read_uint optarg) [
    | none ↦ exits false
    | some port_int ↦
        if ltb 65535 port_int then exits false else runs (record c { port = u16 port_int })
  ]

  -- The case 's'.
  pub set_server : List ℕ → Config → Parsed
  set_server optarg c =
      if same_text optarg epoll_name
      then runs (record c { server = epoll })
      else (if same_text optarg select_name
          then runs (record c { server = select })
          else (if same_text optarg thread_name
              then runs (record c { server = thread })
              else exits false))

  -- The `switch`: 'p' is 112, 's' is 115 and 'h' is 104; '?' and any other character fail.
  unfoldable pub set_option : ℕ × List ℕ → Config → Parsed
  set_option (c, optarg) config =
      if c == 112
      then set_port optarg config
      else (if c == 115 then set_server optarg config else exits (c == 104))

  -- The loop over the options.
  unfoldable pub set_options : List (ℕ × List ℕ) → Config → Parsed
  set_options [] config = runs config
  set_options (o ∷ os) config = elim (set_option o config) [
    | exits b ↦ exits b
    | runs config' ↦ set_options os config'
  ]

  -- `serve` for a configuration; `true` is the result 0. The result of `main` is whether it ends with
  -- EXIT_SUCCESS.
  pub main :
      (os : Os)
      → (ℕ → Config → os.World → Run (Bool × os.World))
      → List ℕ
      → List (ℕ × List ℕ)
      → os.World
      → Run (Bool × os.World)
  main os serve log_name options w =
      let (limited, w1) = os.setrlimit 131072 w in
      elim limited [
        | false ↦ ok (false, w1)
        | true ↦ elim (set_options options default_config) [
          | exits b ↦ ok (b, w1)
          | runs config ↦
              let (log_fd, w2) = log_open os log_name w1 in
              elim log_fd [
                | none ↦ ok (false, w2)
                | some fd ↦ do (served, w3) ← serve fd config w2; ok (served, log_close os fd w3)
              ]
        ]
      ]
