-- ===== src/Client.antt =====
-- A client thread of client/main.c. Printed text and `free` are left out. A count that is an `int` is
-- a 32-bit pattern, which a sum with a longer number wraps; `++` on an `int` that is at its greatest is
-- undefined in C, and a fault here.
pub mod Frames
pub mod Text
pub mod Refused
pub mod Options
pub mod Threads
use c8005_assn.Base.{
  ℕ, zero, suc, ◌+◌, ◌%◌, Bool, true, false, Option, none, some, List, [], ◌∷◌, ◌++◌, length,
  get_elem?, encode, u32, ◌==◌, ltb, if◌then◌else◌, not, ◌||◌, Run, ok, fault, timeout, ◌>>=◌,
}
use c8005_assn.Os.{Os, einprogress, eaddrnotavail}
use c8005_assn.Protocol.{read_data, send_data}
use c8005_assn.Server.Timing.{add_time}

-- The codes of a to z, A to Z and 0 to 9.
pub range : ℕ → ℕ → List ℕ
range zero first = []
range (suc n) first = first ∷ range n (first + 1)

pub charset : List ℕ
charset = range 26 97 ++ (range 26 65 ++ range 10 48)

-- `INT_MAX`.
abbrev pub int_max : ℕ
int_max = 2_147_483_647

-- `strlen`: the bytes before the first 0.
unfoldable pub strlen : List ℕ → ℕ
strlen [] = 0
strlen (c ∷ cs) = let rest = strlen cs in if c == 0 then 0 else rest + 1

module _ (os : Os) where
  open os use {World, errno, malloc, rand, resolve, socket, set_reuse, connect, close, freeaddrinfo}
  open os use {gettimeofday, usleep, aio_write, aio_error, format_result}

  -- The loop that fills the string, for `left` more characters; the counter `n` is an `int`.
  pub random_chars : ℕ → ℕ → World → Run (List ℕ × World)
  random_chars zero n w = ok ([], w)
  random_chars (suc left) n w =
      let (r, w') = rand w in
      elim (get_elem? charset (r % length charset)) [
        | none ↦ fault
        | some c ↦ elim (ltb n int_max) [
          | false ↦ fault
          | true ↦ do (cs, w'') ← random_chars left (n + 1) w'; ok (c ∷ cs, w'')
        ]
      ]

  -- For the length 0 the result is a pointer that was never set. `none` is NULL.
  pub make_random_string : ℕ → World → Run (Option (List ℕ) × World)
  make_random_string zero w = fault
  make_random_string (suc n) w =
      let (block, w') = malloc (suc n + 1) w in
      elim block [
        | none ↦ ok (none, w')
        | some bs ↦ do (cs, w'') ← random_chars (suc n) 0 w'; ok (some (cs ++ 0 ∷ []), w'')
      ]

  -- The `for` over the addresses: whether one took the connection, and what `sock` holds.
  pub try_addresses : List ℕ → Option ℕ → World → Bool × Option ℕ × World
  try_addresses [] sock w = (false, sock, w)
  try_addresses (rp ∷ rps) sock w =
      let (opened, w') = socket w in
      elim opened [
        | none ↦ try_addresses rps none w'
        | some s ↦
            let (reused, w'') = set_reuse s w' in
            elim reused [
              | false ↦ try_addresses rps (some s) (close s w'')
              | true ↦
                  let (connected, w''') = connect s rp w'' in
                  elim connected [
                    | true ↦ (true, some s, w''')
                    | false ↦ try_addresses rps (some s) (close s w''')
                  ]
            ]
      ]

  -- `do … while (!done)`. `none` is -1.
  pub connect_to_server : ℕ → Option ℕ → World → Run (Option ℕ × World)
  connect_to_server zero sock w = timeout
  connect_to_server (suc fuel) sock w =
      let (found, w') = resolve w in
      elim found [
        | none ↦ ok (none, w')
        | some addresses ↦
            let (connected, sock', w'') = try_addresses addresses sock w' in
            let w''' = freeaddrinfo w'' in
            elim (connected || not (errno w''' == eaddrnotavail)) [
              | true ↦ ok (sock', w''')
              | false ↦ connect_to_server fuel sock' w'''
            ]
      ]

  -- The counts of one connection.
  pub record Session : Type 0 where
    pub client_count : ℕ
    pub request_time : ℕ
    pub data_received : ℕ
    pub world : World

  -- The `for` over the requests, of which `n` are left; its own counter is `client_count`.
  pub send_requests : ℕ → ℕ → List ℕ → Session → Run Session
  send_requests zero sock msg s = ok s
  send_requests (suc n) sock msg s =
      let (start, w) = gettimeofday s.world in
      do
        size ← send_data os sock (encode 4 (u32 (length msg))) w
        elim size.count [
          | none ↦ ok (record s { world = size.world })
          | some _ ↦ do
            body ← send_data os sock msg size.world
            elim body.count [
              | none ↦ ok (record s { world = body.world })
              | some _ ↦ do
                reply ← read_data os sock (length msg) body.world
                elim reply.count [
                  | none ↦ ok (record s { world = reply.world })
                  | some k ↦
                      let (end, w') = gettimeofday reply.world in
                      elim (ltb s.client_count int_max) [
                        | false ↦ fault
                        | true ↦ send_requests n sock msg (record {
                          client_count = s.client_count + 1;
                          request_time = u32 (add_time s.request_time start end);
                          data_received = u32 (s.data_received + k);
                          world = usleep w';
                        })
                      ]
                ]
            ]
        ]

  -- `while (aio_error(&cb) == EINPROGRESS);`
  pub settle_write : ℕ → World → Run World
  settle_write zero w = timeout
  settle_write (suc fuel) w =
      let (error, w') = aio_error w in
      elim (error == einprogress) [ true ↦ settle_write fuel w' | false ↦ ok w' ]

  -- The end of a connection: the size 0 and the line of results if `errno` is 0. `false` is `return 0`,
  -- which leaves the socket open.
  pub say_goodbye : ℕ → ℕ → ℕ → Session → Run (Bool × World)
  say_goodbye fuel sock file s = elim (errno s.world == 0) [
    | false ↦ ok (true, close sock s.world)
    | true ↦ do
      size ← send_data os sock (encode 4 0) s.world
      elim size.count [
        | none ↦ ok (false, size.world)
        | some _ ↦
            let line = format_result s.client_count s.request_time s.data_received in
            let (queued, w) = aio_write file line size.world in
            do w' ← settle_write fuel (if queued then w else close file w); ok (true, close sock w')
      ]
  ]
