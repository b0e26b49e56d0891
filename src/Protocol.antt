-- ===== src/Protocol.antt =====
-- common/protocol.c: the loops over `send` and `recv`. The socket's calls come from the parameter
-- `os`. `none` as a count is -1; the bytes that `recv` stored stay in the buffer in that case too.
pub mod Read
pub mod Write
pub mod Untouched
use c8005_assn.Base.{
  ℕ, zero, suc, ◌+◌, ◌-◌, ◌≡◌, Bool, true, false, Option, none, some, List, [], ◌∷◌, ◌++◌, arith,
  ltb, ◌==◌, if◌then◌else◌, length, drop, Run, ok, fault, timeout, ◌>>=◌,
}
use c8005_assn.Os.{Os, ewouldblock}

module _ (os : Os) where
  open os use {World, errno, recv, send}

  -- What `read_data` leaves: its result, the bytes in the buffer from its start, and the world.
  pub record Received : Type 0 where
    pub count : Option ℕ
    pub bytes : List ℕ
    pub world : World

  -- The `while` of `read_data`: `total` is `read_total`, `got` what stands at `raw[0 .. total)`.
  pub read_loop : ℕ → ℕ → ℕ → ℕ → List ℕ → World → Run Received
  read_loop zero sock n total got w =
      if ltb total n then timeout else ok (record { count = some total; bytes = got; world = w })
  read_loop (suc fuel) sock n total got w = elim (ltb total n) [
    | false ↦ ok (record { count = some total; bytes = got; world = w })
    | true ↦
        let (r, w') = recv sock (n - total) w in
        elim r [
          | none ↦ ok (record {
            count = if errno w' == ewouldblock then some total else none;
            bytes = got;
            world = w';
          })
          | some [] ↦ ok (record { count = some total; bytes = got; world = w' })
          | some (b ∷ bs) ↦ read_loop fuel sock n (total + length (b ∷ bs)) (got ++ b ∷ bs) w'
        ]
  ]

  -- Every `recv` that goes on brings a byte, so `n` rounds are enough.
  pub read_data : ℕ → ℕ → World → Run Received
  read_data sock n w = read_loop n sock n 0 [] w

  pub record Sent : Type 0 where
    pub count : Option ℕ
    pub world : World

  -- The `while` of `send_data`; `left` is `raw + sent_total`, which holds `bytes_left` bytes.
  pub send_loop : ℕ → ℕ → ℕ → ℕ → List ℕ → World → Run Sent
  send_loop zero sock n total left w =
      if ltb total n then timeout else ok (record { count = some total; world = w })
  send_loop (suc fuel) sock n total left w = elim (ltb total n) [
    | false ↦ ok (record { count = some total; world = w })
    | true ↦
        let (r, w') = send sock left w in
        elim r [
          | none ↦
              ok (record {
                count = if errno w' == ewouldblock then some total else none;
                world = w';
              })
          | some k ↦ send_loop fuel sock n (total + k) (drop k left) w'
        ]
  ]

  pub send_data : ℕ → List ℕ → World → Run Sent
  send_data sock buffer w = send_loop (length buffer) sock (length buffer) 0 buffer w
