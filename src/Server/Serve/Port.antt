-- ===== src/Server/Serve/Port.antt =====
-- The string that `serve` makes of its port.
use c8005_assn.Base.{
  false, ltb→lt, ◌^◌, ℕ, ◌+◌, ◌-◌, ◌*◌, ◌/◌, ◌≡◌, ◌<◌, ◌≤◌, arith, List, [], ◌∷◌, ltb,
  if◌then◌else◌, Bool-cases, inl, inr, lt→ltb, le→ltb,
}
use c8005_assn.Server.Serve.{print_decimal, port_string}

-- The number that a string of digits stands for, as `getaddrinfo` reads it.
abbrev pub read_decimal : ℕ → List ℕ → ℕ
read_decimal n [] = n
read_decimal n (c ∷ cs) = read_decimal (10 * n + (c - 48)) cs

ltb→le : (a b : ℕ) → ltb a b ≡ false → b ≤ a
ltb→le a b h = ground arith

-- For a port of 16 bits the string holds the port if it has at most four digits, and the port without its last digit
-- otherwise.
pub port_string_lem :
    (port : ℕ)
    → port < 2 ^ 16
    → read_decimal 0 (port_string port) ≡ (if ltb port 10000 then port else port / 10)
unfolding port_string print_decimal
port_string_lem port small = elim (Bool-cases (ltb port 10)) [
  | inl a ↦
      rw (a, lt→ltb port 10000 (omega (arith, ltb→lt port 10 a))) (omega (arith, ltb→lt port 10 a))
  | inr a ↦ elim (Bool-cases (ltb (port / 10) 10)) [
    | inl b ↦
        rw (a, b, lt→ltb port 10000 (omega (arith, ltb→lt (port / 10) 10 b)))
          (omega (arith, ltb→lt (port / 10) 10 b))
    | inr b ↦ elim (Bool-cases (ltb (port / 10 / 10) 10)) [
      | inl c ↦
          let k = ltb→lt (port / 10 / 10) 10 c in
          rw (a, b, c, lt→ltb port 10000 (omega (arith, k))) (omega (arith, k))
      | inr c ↦ elim (Bool-cases (ltb (port / 10 / 10 / 10) 10)) [
        | inl d ↦
            let k = ltb→lt (port / 10 / 10 / 10) 10 d in
            rw (a, b, c, d, lt→ltb port 10000 (omega (arith, k))) (omega (arith, k))
        | inr d ↦
            let k = ltb→le (port / 10 / 10 / 10) 10 d in
            let e = lt→ltb (port / 10 / 10 / 10 / 10) 10 (omega (arith, small)) in
            rw (a, b, c, d, e, le→ltb port 10000 (omega (arith, k))) (omega (arith, k))
      ]
    ]
  ]
]
