-- ===== src/Client/Refused.antt =====
-- `connect_to_server` of client/main.c where no address takes the connection.
use c8005_assn.Base.{
  inl, inr, ℕ, suc, ◌≡◌, ◌≢◌, refl, ◌∙◌, false, List, [], ◌∷◌, Option, some, ne→==, ok, Bool-cases,
}
use c8005_assn.Os.{Os, eaddrnotavail}
use c8005_assn.Client.{try_addresses, connect_to_server}

-- Sockets can be had, and every connection is refused with another code than EADDRNOTAVAIL.
pub record IsRefusing (os : Os) : Type 0 where
  pub opens : (w : os.World) → (s : ℕ) × ((os.socket w).0 ≡ some s)
  pub refuses : (sock address : ℕ) (w : os.World) → (os.connect sock address w).0 ≡ false
  pub other : (w : os.World) → os.errno (os.freeaddrinfo w) ≢ eaddrnotavail

module _ (os : Os) (no : IsRefusing os) where
  -- An address that refuses leaves its socket in `sock`, closed.
  one_refused :
      (address : ℕ) (rest : List ℕ) (sock : Option ℕ) (w : os.World)
      → (s : ℕ) × (w' : os.World) × (try_addresses os (address ∷ rest) sock w
          ≡ try_addresses os rest (some s) w')
  unfolding try_addresses
  one_refused address rest sock w =
      let (s, opened) = no.opens w in
      let w1 = (os.socket w).1 in
      let w2 = (os.set_reuse s w1).1 in
      elim (Bool-cases (os.set_reuse s w1).0) [
        | inr kept ↦ (s, os.close s w2, rw (opened, try_addresses) (rw (kept, try_addresses)))
        | inl reused ↦ (
          s,
          os.close s (os.connect s address w2).1,
          rw (opened, try_addresses)
              (rw (reused, try_addresses) (rw (no.refuses s address w2, try_addresses))),
        )
      ]

  all_refused :
      (addresses : List ℕ) (s : ℕ) (w : os.World)
      → (s' : ℕ) × (w' : os.World) × (try_addresses os addresses (some s) w ≡ (false, some s', w'))
  unfolding try_addresses
  all_refused [] s w = (s, w, refl)
  all_refused (a ∷ rest) s w =
      let (s1, w1, e) = one_refused a rest (some s) w in
      let (s2, w2, e') = all_refused rest s1 w1 in (s2, w2, e ∙ e')

  -- Where every connection is refused, with another code than EADDRNOTAVAIL, `connect_to_server`
  -- returns after one round, and not with -1: it gives a descriptor, if there is an address and sockets
  -- can be had.
  pub connect_to_server-refused :
      (fuel address : ℕ) (rest : List ℕ) (sock : Option ℕ) (w : os.World)
      → (os.resolve w).0 ≡ some (address ∷ rest)
      → (s : ℕ) × (w' : os.World) × (connect_to_server os (suc fuel) sock w ≡ ok (some s, w'))
  unfolding connect_to_server
  connect_to_server-refused fuel address rest sock w resolved =
      let (s1, w1, e) = one_refused address rest sock (os.resolve w).1 in
      let (s2, w2, e') = all_refused rest s1 w1 in
      (
        s2,
        os.freeaddrinfo w2,
        rw (resolved, connect_to_server)
            (rw (e ∙ e', connect_to_server)
              (rw (ne→== _ _ (no.other w2), connect_to_server) (rw (e ∙ e')))),
      )
