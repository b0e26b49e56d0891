-- ===== src/Client/Threads/Served.antt =====
-- A connection from the client's thread to the loop of `handle_request` on the server.
use c8005_assn.Base.{
  ℕ, zero, suc, ◌+◌, ◌*◌, ◌^◌, ◌<◌, ◌≤◌, ◌≡◌, ◌≢◌, ◌∙◌, ◌⊎◌, refl, ap, arith, true, false, some,
  List, [], ◌∷◌, ◌++◌, length, take, ok, Returns, Returns-ok, inl, inr, replicate, length-take,
  length-replicate,
}
use native.Mathlib.Nat.{zero-mod}
use c8005_assn.Os.{Os}
use c8005_assn.Os.Stream.{Connection, Writable, Arrived, Heap}
use c8005_assn.Util.Log.Laws.{EndsWithin, IsKept}
use c8005_assn.Client.{Session, int_max, strlen}
use c8005_assn.Client.Frames.{IsCounted}
use c8005_assn.Client.Options.{Info}
use c8005_assn.Client.Threads.{request_all, exchange}
use c8005_assn.Client.Threads.Exchange.{IsExchanged, exchange-IsExchanged}
use c8005_assn.Server.Signals.{Flags}
use c8005_assn.Server.Request.{Served, serve_loop}
use c8005_assn.Server.Epoll.{no_request}
use c8005_assn.Server.Request.Session.{
  frames, AllLength, IsReady, IsCalm, IsSession, serve_loop-IsSession,
}

pub AllLength-replicate :
    (k m : ℕ) (body : List ℕ) → length body ≡ m → AllLength m (replicate k body)
AllLength-replicate zero m body h = tt
AllLength-replicate (suc k) m body h = (h, AllLength-replicate k m body h)

strlen-le : (bs : List ℕ) → strlen bs ≤ length bs
unfolding strlen
strlen-le [] = omega arith
strlen-le (c ∷ cs) = ground (arith, strlen-le cs)

length-take-strlen : (bs : List ℕ) → length (take (strlen bs) bs) ≡ strlen bs
length-take-strlen bs = omega (arith, strlen-le bs, length-take (strlen bs) bs)

no_request-IsReady : (m : ℕ) → IsReady m no_request
no_request-IsReady m = record {
  aligned = refl;
  aligned_next = zero-mod (m + 4);
  size_bytes = refl;
  buffer = inl refl;
}

-- The client's side.
pub record IsClient {os : Os} {sock : ℕ} (c : Connection os sock) (file spins : ℕ) : Type 0 where
  pub writable : Writable os sock
  pub kept : (d : List ℕ) → IsKept os file (λ w. c.delivered w ≡ d)
  pub ends : (w : os.World) → EndsWithin os file spins w
  pub closes : (w : os.World) → c.delivered (os.close sock w) ≡ c.delivered w
  pub rests : (w : os.World) → c.delivered (os.usleep w) ≡ c.delivered w

module _ (os os' : Os) (sock sock' : ℕ) (c : Connection os sock) (c' : Connection os' sock')
    (file spins : ℕ) (client : IsClient c file spins) (a : Arrived os' sock' c')
    (o : Writable os' sock') (heap : Heap os') (calm : IsCalm os') (network : os.World → os'.World)
    (carries : (w : os.World) → c'.stream (network w) ≡ c.delivered w) where
  -- The server's loop has sent the text back `k` times and has ended.
  abbrev pub IsEchoed : ℕ → ℕ → Info → List ℕ → Flags → os.World → Type 0
  IsEchoed k waits d text f w1 =
      (s : Served os') × (serve_loop os' (suc (2 * d.max_requests)) (suc waits) sock' no_request f
          (network w1)
        ≡ ok s)
      × IsSession os' sock' c' a o heap calm no_request f (network w1) (replicate k text) s

  -- A client's connection on which nothing has been sent, and a server whose socket gives what the
  -- client's socket has taken. Both sockets take bytes; the server's reads give what has arrived, it
  -- has memory, and no signal comes; on the client the write for the results ends, and it, `usleep` and
  -- `close` add nothing to the connection. For a string of at least one byte and below 2^32, and at
  -- most `INT_MAX` requests: the client's loop sends a number of messages, all `max_requests`, each
  -- counted as answered, unless `read_data` fails at the reply to the last one sent, which alone is not
  -- counted; the client's thread goes on to its next connection; and unless `errno` on the client is
  -- not 0 after its requests, the server's loop counts the bytes of that many frames, sends the string
  -- back as often, has read all, and ends as a client that is done.
  pub exchange_served :
      (waits : ℕ) (d : Info) (bs : List ℕ) (f : Flags) (w : os.World)
      → 0 < strlen bs
      → strlen bs < 2 ^ 32
      → d.max_requests ≤ int_max
      → f.done ≡ false
      → c.delivered w ≡ []
      → Returns
          (λ r.
            (r.0 ≡ true)
            × (s : Session os) × (request_all os d.max_requests sock
                  (some bs)
                  (record { client_count = 0; request_time = 0; data_received = 0; world = w })
                ≡ ok s)
            × (k : ℕ) × IsCounted os sock (take (strlen bs) bs) d.max_requests k 0 s
            × (IsEchoed k waits d (take (strlen bs) bs) f r.1 ⊎ (os.errno s.world ≢ 0)))
          (exchange os (suc spins) d sock file (some bs) w)
  exchange_served waits d bs f w pos small few on fresh =
      let (r, e, (kept_on, s, sent_all, k, counted, sent)) =
        Returns-ok
          (IsExchanged os sock c client.writable file spins client.kept client.ends client.closes d
            bs w)
          (exchange os (suc spins) d sock file (some bs) w)
          (exchange-IsExchanged os sock c client.writable file spins client.kept client.ends
            client.closes client.rests d bs w small few) in
      let le : k ≤ d.max_requests = elim counted [
        | inl (all, _) ↦ omega (arith, all)
        | inr (_, within, _, _) ↦ within
      ] in
      rw (e, Returns)
        (
          kept_on,
          s,
          sent_all,
          k,
          counted,
          elim sent [
            | inr (failed, out) ↦ inr failed
            | inl out ↦
                let text = take (strlen bs) bs in
                let (served, ran, session) =
                  serve_loop-IsSession os' sock' c' a o heap calm (strlen bs)
                    (suc (2 * d.max_requests)) waits no_request f (network r.1) (replicate k text)
                    (no_request-IsReady (strlen bs)) on
                    (AllLength-replicate k (strlen bs) text (length-take-strlen bs)) pos small
                    (carries r.1 ∙ out ∙ ap (λ t. t ++ frames (replicate k text)) fresh)
                    (omega (arith, le, length-replicate k text)) in
                inl (served, ran, session)
          ],
        )
