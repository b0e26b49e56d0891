-- ===== src/Tests/Protocols.antt =====
-- common/protocol.c and the loop of `handle_request` on the simulated connection.
use c8005_assn.Base.{Ensures, Stops, false, ℕ, ◌≡◌, refl, ok, List, [], ◌∷◌, some, arith, Returns}
use c8005_assn.Protocol.{read_data, send_data}
use c8005_assn.Protocol.Read.{IsRead, read_data-IsRead}
use c8005_assn.Protocol.Write.{IsSent, send_data-IsSent}
use c8005_assn.Server.Request.{Request, Served, again, round, serve_loop}
use c8005_assn.Server.Request.Rounds.{round-body}
use c8005_assn.Server.Request.Session.{frames, IsSession, serve_loop-IsSession}
use c8005_assn.Server.Epoll.{no_request}
use c8005_assn.Base.{fault}
use c8005_assn.Server.Request.{header_done}
use c8005_assn.Server.Request.Overrun.{round-overrun}
use c8005_assn.Server.Request.Progress.{serve_loop-Stops}
use c8005_assn.Server.Request.Typed.{IsTyped, Kept}
use c8005_assn.Server.Request.Typed.Loop.{serve_loop-IsTyped}
use c8005_assn.Tests.Sim.{Wire, sim, wire, wire_arrived, wire_writable, sim_heap, wire_with}
use c8005_assn.Tests.Epolls.{no_request-IsReady, sim-IsCalm, messages}

abbrev five : List ℕ
five = 1 ∷ 2 ∷ 3 ∷ 4 ∷ 5 ∷ []

read_data-IsRead_example :
    Returns (IsRead sim 7 wire (wire_with five) 3) (read_data sim 7 3 (wire_with five))
read_data-IsRead_example = read_data-IsRead sim 7 wire 3 (wire_with five)

send_data-IsSent_example :
    Returns (IsSent sim 7 wire five (wire_with [])) (send_data sim 7 five (wire_with []))
send_data-IsSent_example = send_data-IsSent sim 7 wire five (wire_with [])

-- One byte of three had arrived before: what is sent back is not the message 1 2 3.
abbrev half_way : Request
half_way = record {
  transferred = 5;
  transfer_time = 0;
  partial_msg_size = 3 ∷ 0 ∷ 0 ∷ 0 ∷ [];
  msg_size = 3;
  msg = some (1 ∷ 0 ∷ 0 ∷ []);
}

round-body_example :
    (w' : Wire) × (round sim 1 7 half_way (wire_with (2 ∷ 3 ∷ []))
      ≡ ok (record {
        next = again;
        request = record half_way { msg = some (2 ∷ 3 ∷ 0 ∷ []); transferred = 7 };
        world = w';
      }))
    × (w'.inbox ≡ [])
    × (w'.outbox ≡ 2 ∷ 3 ∷ 0 ∷ [])
round-body_example =
    round-body sim 7 wire wire_arrived wire_writable 0 half_way (1 ∷ 0 ∷ 0 ∷ []) 1
      (wire_with (2 ∷ 3 ∷ [])) refl refl refl (omega arith)

serve_loop-IsSession_example :
    (s : Served sim) × (serve_loop sim 5 1 7 no_request
        (record { done = false; handled = false })
        (wire_with (frames messages))
      ≡ ok s)
    × IsSession sim 7 wire wire_arrived wire_writable sim_heap sim-IsCalm no_request
        (record { done = false; handled = false })
        (wire_with (frames messages))
        messages
        s
serve_loop-IsSession_example =
    serve_loop-IsSession sim 7 wire wire_arrived wire_writable sim_heap sim-IsCalm 3 5 0 no_request
      (record { done = false; handled = false }) (wire_with (frames messages)) messages
      no_request-IsReady refl (refl, (refl, tt)) (omega arith) (omega arith) refl (omega arith)

-- Two messages of one byte came before, and the size of a message of six bytes has arrived.
abbrev longer : Request
longer = record {
  transferred = 14;
  transfer_time = 0;
  partial_msg_size = 6 ∷ 0 ∷ 0 ∷ 0 ∷ [];
  msg_size = 1;
  msg = some (9 ∷ []);
}

round-overrun_example :
    (header_done sim longer (wire_with (0 ∷ five)) ≡ record {
      next = again;
      request = record longer { msg_size = 6 };
      world = wire_with (0 ∷ five);
    })
    × (round sim 1 7 (record longer { msg_size = 6 }) (wire_with (0 ∷ five)) ≡ fault)
round-overrun_example =
    round-overrun sim 7 wire wire_arrived 1 longer (9 ∷ []) (wire_with (0 ∷ five)) refl
      (λ e. omega (arith, e)) (omega arith) refl (omega arith)

serve_loop-Stops_example :
    Stops
      (λ _. Unit)
      (serve_loop sim 99 1 7 no_request
        (record { done = false; handled = false })
        (wire_with (frames messages)))
serve_loop-Stops_example =
    serve_loop-Stops sim 7 wire wire_writable 99 0 no_request
      (record { done = false; handled = false }) (wire_with (frames messages)) (omega arith)

no_request-IsTyped : IsTyped no_request
no_request-IsTyped = record {
  four = refl;
  bytes = (omega arith, (omega arith, (omega arith, (omega arith, tt))));
  small = omega arith;
}

-- The size 1 in four bytes, and a byte.
abbrev short_frame : List ℕ
short_frame = 1 ∷ 0 ∷ 0 ∷ 0 ∷ 9 ∷ []

serve_loop-IsTyped_example :
    Ensures
      (λ s. Kept sim 7 wire 5 s.next s.request s.world)
      (serve_loop sim 3 1 7 no_request
        (record { done = false; handled = false })
        (wire_with short_frame))
serve_loop-IsTyped_example =
    serve_loop-IsTyped sim 7 wire 3 1 no_request (record { done = false; handled = false })
      (wire_with short_frame) no_request-IsTyped
      (omega arith, (omega arith, (omega arith, (omega arith, (omega arith, tt)))))
