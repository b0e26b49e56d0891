-- ===== src/Server/Request.antt =====
-- The request of one client and the loop of `handle_request`, which server/epoll_server.c and
-- server/select_server.c have word for word. A `ssize_t` count stays far below 2^63 and is a plain
-- number. `free` and the unused `which_message` are left out.
pub mod Rounds
pub mod Progress
pub mod Untouched
pub mod Typed
pub mod Session
pub mod Overrun
use c8005_assn.Base.{
  ℕ, zero, suc, ◌+◌, ◌-◌, ◌%◌, Bool, true, false, Option, none, some, List, [], ◌∷◌, ltb, leb, ◌==◌,
  if◌then◌else◌, length, drop, take, write_at, decode, Run, ok, fault, timeout, ◌>>=◌,
}
use c8005_assn.Os.{Os}
use c8005_assn.Protocol.{Received, read_data, send_data}
use c8005_assn.Server.Signals.{Flags, load_done}

-- `epoll_server_request` and `select_server_request`. `partial_msg_size` is its four bytes, and
-- `msg` the block of memory that it points to.
pub record Request : Type 0 where
  pub transferred : ℕ
  pub transfer_time : ℕ
  pub partial_msg_size : List ℕ
  pub msg_size : ℕ
  pub msg : Option (List ℕ)

-- How a round of the loop ends: it goes on, `would_block` is set, or it jumps to `cleanup` with the
-- result 0 or -1.
pub data Next : Type 0 where
  again blocked finished failed : Next

-- Bytes received into `msg`: a fault where they do not fit.
pub store : Option (List ℕ) → List ℕ → Run (Option (List ℕ))
store m [] = ok m
store none (b ∷ bs) = fault
store (some block) (b ∷ bs) =
    if leb (length (b ∷ bs)) (length block) then ok (some (write_at block 0 (b ∷ bs))) else fault

module _ (os : Os) where
  open os use {World, malloc}

  pub record Round : Type 0 where
    pub next : Next
    pub request : Request
    pub world : World

  -- A block for the message; `r` has its size.
  pub allocate : Request → World → Round
  allocate r w =
      let (b, w') = malloc r.msg_size w in
      elim b [
        | none ↦ record { next = failed; request = r; world = w' }
        | some block ↦ record { next = again; request = record r { msg = some block }; world = w' }
      ]

  -- All four bytes of the size are there.
  pub header_done : Request → World → Round
  header_done r w =
      let size = decode r.partial_msg_size in
      let r' = record r { msg_size = size } in
      if size == 0 then record { next = finished; request = r'; world = w } else (elim r.msg [
        | some block ↦ record { next = again; request = r'; world = w }
        | none ↦ allocate r' w
      ])

  -- `offset` bytes of the size were there, `left` were asked for.
  pub header_read : ℕ → ℕ → Request → Received os → Round
  header_read offset left r t =
      let r' = record r { partial_msg_size = write_at r.partial_msg_size offset t.bytes } in
      elim t.count [
        | none ↦ record { next = failed; request = r'; world = t.world }
        | some k ↦
            let r'' = record r' { transferred = r.transferred + k } in
            if ltb k left
            then record { next = blocked; request = r''; world = t.world }
            else header_done r'' t.world
      ]

  pub read_header : ℕ → ℕ → Request → World → Run Round
  read_header sock offset r w = do
    t ← read_data os sock (4 - offset) w
    ok (header_read offset (4 - offset) r t)

  -- The `do … while` that sends the message: `left` is `send_bytes_left`. `false` is -1.
  pub echo : ℕ → ℕ → List ℕ → ℕ → ℕ → World → Run (Bool × World)
  echo zero sock block size left w = timeout
  echo (suc fuel) sock block size left w = do
    s ← send_data os sock (take left (drop (size - left) block)) w
    elim s.count [
      | none ↦ ok (false, s.world)
      | some k ↦ elim (left - k == 0) [
        | true ↦ ok (true, s.world)
        | false ↦ echo fuel sock block size (left - k) s.world
      ]
    ]

  -- The whole message is there. `send` reads `msg_size` bytes from `msg`.
  pub echo_message : ℕ → ℕ → Request → World → Run Round
  echo_message spins sock r w = elim r.msg [
    | none ↦ fault
    | some block ↦ elim (leb r.msg_size (length block)) [
      | false ↦ fault
      | true ↦ do
        (sent, w') ← echo spins sock block r.msg_size r.msg_size w
        ok (record { next = if sent then again else failed; request = r; world = w' })
    ]
  ]

  pub body_read : ℕ → ℕ → ℕ → Request → Received os → Run Round
  body_read spins sock left r t = do
    m ← store r.msg t.bytes
    elim t.count [
      | none ↦ ok (record { next = failed; request = record r { msg = m }; world = t.world })
      | some k ↦
          let r' = record r { msg = m; transferred = r.transferred + k } in
          elim (ltb k left) [
            | true ↦ ok (record { next = blocked; request = r'; world = t.world })
            | false ↦ echo_message spins sock r' t.world
          ]
    ]

  -- `offset` counts from the start of the frame, so it is at least 4.
  pub read_body : ℕ → ℕ → ℕ → Request → World → Run Round
  read_body spins sock offset r w = do
    let left = r.msg_size - (offset - 4)
    t ← read_data os sock left w
    body_read spins sock left r t

  -- One round of the loop. `spins` bounds the calls of `send_data` for one message.
  pub round : ℕ → ℕ → Request → World → Run Round
  round spins sock r w =
      let offset = r.transferred % (r.msg_size + 4) in
      if ltb offset 4 then read_header sock offset r w else read_body spins sock offset r w

  pub record Served : Type 0 where
    pub next : Next
    pub request : Request
    pub flags : Flags
    pub world : World

  -- `while (!would_block && !atomic_load(&done))`, as a round decides it.
  pub serve_loop : ℕ → ℕ → ℕ → Request → Flags → World → Run Served
  serve_loop zero spins sock r f w = timeout
  serve_loop (suc fuel) spins sock r f w = do
    t ← round spins sock r w
    elim t.next [
      | again ↦
          let (done, f', w') = load_done os f t.world in
          elim done [
            | true ↦ ok (record { next = blocked; request = t.request; flags = f'; world = w' })
            | false ↦ serve_loop fuel spins sock t.request f' w'
          ]
      | other ↦ ok (record { next = other; request = t.request; flags = f; world = t.world })
    ]
