-- ===== src/Client/Threads/Exchange.antt =====
-- What a connection of a client thread sends, and what becomes of it on the server.
use c8005_assn.Base.{
  ℕ, zero, suc, ◌^◌, ◌<◌, ◌≤◌, ◌≡◌, ◌≢◌, ◌∙◌, ◌⊎◌, refl, ap, arith, Bool, true, some, List, ◌++◌,
  length, take, ◌==◌, ok, ◌>>=◌, Bool-cases, Returns, Returns-ok, Returns-bind, inl, inr, ne→==,
  encode, replicate, append_assoc, u32, length-take,
}
use c8005_assn.Os.{Os, einprogress}
use c8005_assn.Os.Stream.{Connection, Writable}
use c8005_assn.Protocol.Write.{send_data-Writable}
use c8005_assn.Util.Log.Laws.{EndsWithin, IsKept}
use c8005_assn.Client.{Session, int_max, strlen, send_requests, settle_write, say_goodbye}
use c8005_assn.Client.Frames.{IsCounted, IsSending, repeat_frame, send_requests_lem}
use c8005_assn.Client.Options.{Info}
use c8005_assn.Client.Threads.{text_of, request_all, exchange}
use c8005_assn.Server.Request.Session.{frames}

pub length-text : (bs : List ℕ) → strlen bs < 2 ^ 32 → length (take (strlen bs) bs) < 2 ^ 32
length-text bs h = omega (arith, h, length-take (strlen bs) bs)

-- Frames and the size 0 are what the server calls the frames of a session.
repeat_frame-frames :
    (k : ℕ) (msg : List ℕ)
    → length msg < 2 ^ 32
    → repeat_frame k msg ++ encode 4 0 ≡ frames (replicate k msg)
repeat_frame-frames zero msg small = refl
repeat_frame-frames (suc k) msg small =
    let n : u32 (length msg) ≡ length msg = omega arith in
    ap (λ l. encode 4 l ++ ((msg ++ repeat_frame k msg) ++ encode 4 0)) n
    ∙ ap (λ t. encode 4 (length msg) ++ t)
        (append_assoc msg (repeat_frame k msg) (encode 4 0)
          ∙ ap (λ t. msg ++ t) (repeat_frame-frames k msg small))

module _ (os : Os) (sock : ℕ) (c : Connection os sock) (o : Writable os sock) (file spins : ℕ)
    (kept : (d : List ℕ) → IsKept os file (λ w. c.delivered w ≡ d))
    (ends : (w : os.World) → EndsWithin os file spins w)
    (closes : (w : os.World) → c.delivered (os.close sock w) ≡ c.delivered w) where
  open os use {World}

  settle_write-Returns :
      (d : List ℕ) (n : ℕ) (w : World)
      → EndsWithin os file n w
      → c.delivered w ≡ d
      → Returns (λ w'. c.delivered w' ≡ d) (settle_write os (suc n) w)
  unfolding settle_write
  settle_write-Returns d zero w e p =
      rw (ne→== (os.aio_error w).0 einprogress e, Returns) ((kept d).kept_error w p)
  settle_write-Returns d (suc n) w (inl e) p =
      rw (ne→== (os.aio_error w).0 einprogress e, Returns) ((kept d).kept_error w p)
  settle_write-Returns d (suc n) w (inr e) p =
      elim (Bool-cases ((os.aio_error w).0 == einprogress)) [
        | inl busy ↦
            rw (busy, Returns)
              (settle_write-Returns d n (os.aio_error w).1 e ((kept d).kept_error w p))
        | inr ended ↦ rw (ended, Returns) ((kept d).kept_error w p)
      ]

  -- What the end of a connection leaves: the size 0 is sent if `errno` is 0.
  abbrev Parting : Session os → Bool × World → Type 0
  Parting s r =
      (r.0 ≡ true)
      × ((c.delivered r.1 ≡ c.delivered s.world ++ encode 4 0)
          ⊎ ((os.errno s.world ≢ 0) × (c.delivered r.1 ≡ c.delivered s.world)))

  say_goodbye_lem : (s : Session os) → Returns (Parting s) (say_goodbye os (suc spins) sock file s)
  unfolding say_goodbye
  say_goodbye_lem s = elim (Bool-cases (os.errno s.world == 0)) [
    | inr failed ↦ rw (failed, Returns) (refl, inr (ground (arith, failed), closes s.world))
    | inl fine ↦
        let (size, q, full, out, left) = send_data-Writable os sock c (encode 4 0) o s.world in
        let line = os.format_result s.client_count s.request_time s.data_received in
        let w = (os.aio_write file line size.world).1 in
        let kept_out = kept (c.delivered s.world ++ encode 4 0) in
        let p = kept_out.kept_write line size.world out in
        rw (fine, Returns)
          (rw (q, Returns)
            (rw (full, Returns)
              (elim (Bool-cases (os.aio_write file line size.world).0) [
                | inl queued ↦ rw (queued, Returns) (settled w p)
                | inr refused ↦
                    rw (refused, Returns) (settled (os.close file w) (kept_out.kept_close w p))
              ])))
  ]
    where
      settled :
          (w : World)
          → c.delivered w ≡ c.delivered s.world ++ encode 4 0
          → Returns (Parting s) (do w' ← settle_write os (suc spins) w; ok (true, os.close sock w'))
      settled w p =
          Returns-bind (λ v. c.delivered v ≡ c.delivered s.world ++ encode 4 0) (Parting s)
            (settle_write os (suc spins) w) _
            (settle_write-Returns (c.delivered s.world ++ encode 4 0) spins w (ends w) p)
            (λ w' h. (refl, inl (closes w' ∙ h)))

  request_all-text :
      (n : ℕ) (bs : List ℕ) (s : Session os)
      → request_all os n sock (some bs) s ≡ send_requests os n sock (take (strlen bs) bs) s
  unfolding request_all text_of send_requests
  request_all-text zero bs s = refl
  request_all-text (suc n) bs s = refl

  -- The loop over the requests has sent `k` frames, and then the size 0 comes, if `errno` is 0.
  abbrev pub IsExchanged : Info → List ℕ → World → Bool × World → Type 0
  IsExchanged d bs w r =
      (r.0 ≡ true)
      × (s : Session os) × (request_all os d.max_requests sock (some bs)
            (record { client_count = 0; request_time = 0; data_received = 0; world = w })
          ≡ ok s)
      × (k : ℕ) × IsCounted os sock (take (strlen bs) bs) d.max_requests k 0 s
      × ((c.delivered r.1 ≡ c.delivered w ++ frames (replicate k (take (strlen bs) bs)))
          ⊎ ((os.errno s.world ≢ 0)
              × (c.delivered r.1 ≡ c.delivered w ++ repeat_frame k (take (strlen bs) bs))))

  -- On a socket that takes bytes, and if a write for the file ends, a connection with a string sends
  -- frames of that string, as many as requests are asked for unless a reply is lost, and then the size
  -- 0; the size is left out only where `errno` is not 0 after the requests. The thread goes on.
  pub exchange-IsExchanged :
      (calm : (w : World) → c.delivered (os.usleep w) ≡ c.delivered w) (d : Info) (bs : List ℕ)
      (w : World)
      → strlen bs < 2 ^ 32
      → d.max_requests ≤ int_max
      → Returns (IsExchanged d bs w) (exchange os (suc spins) d sock file (some bs) w)
  unfolding exchange
  exchange-IsExchanged calm d bs w small few =
      let text = take (strlen bs) bs in
      let s0 : Session os = record {
        client_count = 0;
        request_time = 0;
        data_received = 0;
        world = w;
      } in
      let (s, e, (k, out, counted)) =
        Returns-ok (IsSending c text d.max_requests s0)
          (send_requests os d.max_requests sock text s0)
          (send_requests_lem os sock c o text calm d.max_requests s0 (omega (arith, few))) in
      let ran = request_all-text d.max_requests bs s0 ∙ e in
      let (r, e', (kept_on, parted)) =
        Returns-ok (Parting s) (say_goodbye os (suc spins) sock file s) (say_goodbye_lem s) in
      rw (ran, Returns)
        (rw (e', Returns)
          (
            kept_on,
            s,
            ran,
            k,
            counted,
            elim parted [
              | inr (failed, same) ↦ inr (failed, same ∙ out)
              | inl sent ↦ inl (
                  sent
                  ∙ ap (λ t. t ++ encode 4 0) out
                  ∙ append_assoc (c.delivered w) (repeat_frame k text) (encode 4 0)
                  ∙ ap (λ t. c.delivered w ++ t)
                      (repeat_frame-frames k text (length-text bs small)))
            ],
          ))
