-- ===== src/Os/Stream.antt =====
-- What the code relies on of a TCP socket, for the theorems that need it: the bytes of a peer arrive
-- in order and what is sent goes out in order, `recv` stores no more than was asked for, and other
-- calls leave the connection alone.
use c8005_assn.Base.{ℕ, ◌≡◌, ◌≢◌, ◌≤◌, ◌<◌, ◌++◌, ◌∷◌, List, [], some, none, length, take}
use c8005_assn.Os.{Os, ewouldblock}

module _ (os : Os) (sock : ℕ) where
  open os use {World, errno, recv, send, malloc, gettimeofday, signalled}

  pub record Connection : Type 0 where
    -- The bytes that the peer sends and `recv` has not stored yet.
    pub stream : World → List ℕ
    -- The bytes that the kernel took for the peer.
    pub delivered : World → List ℕ
    pub recv_some :
        (n : ℕ) (w : World) (bs : List ℕ)
        → (recv sock n w).0 ≡ some bs
        → (length bs ≤ n)
          × (stream w ≡ bs ++ stream (recv sock n w).1)
          × (delivered (recv sock n w).1 ≡ delivered w)
    pub recv_none :
        (n : ℕ) (w : World)
        → (recv sock n w).0 ≡ none
        → (stream (recv sock n w).1 ≡ stream w) × (delivered (recv sock n w).1 ≡ delivered w)
    pub send_some :
        (bs : List ℕ) (w : World) (k : ℕ)
        → (send sock bs w).0 ≡ some k
        → (k ≤ length bs)
          × (bs ≢ [] → 0 < k)
          × (stream (send sock bs w).1 ≡ stream w)
          × (delivered (send sock bs w).1 ≡ delivered w ++ take k bs)
    pub send_none :
        (bs : List ℕ) (w : World)
        → (send sock bs w).0 ≡ none
        → (stream (send sock bs w).1 ≡ stream w) × (delivered (send sock bs w).1 ≡ delivered w)
    pub malloc_apart :
        (n : ℕ) (w : World)
        → (stream (malloc n w).1 ≡ stream w) × (delivered (malloc n w).1 ≡ delivered w)
    pub signalled_apart :
        (w : World)
        → (stream (signalled w).1 ≡ stream w) × (delivered (signalled w).1 ≡ delivered w)
    pub time_apart :
        (w : World)
        → (stream (gettimeofday w).1 ≡ stream w) × (delivered (gettimeofday w).1 ≡ delivered w)

  -- `recv` gives bytes wherever there are some to come: what the peer sends has arrived, or the
  -- socket blocks until it does.
  pub record Ready (c : Connection) : Type 0 where
    pub gives :
        (n : ℕ) (w : World)
        → 0 < n
        → c.stream w ≢ []
        → (b : ℕ) × (bs : List ℕ) × ((recv sock n w).0 ≡ some (b ∷ bs))

  -- All that the peer sends has arrived, and nothing else is waited for.
  pub record Arrived (c : Connection) : Type 0 where
    pub ready :
        (n : ℕ) (w : World)
        → 0 < n
        → c.stream w ≢ []
        → (b : ℕ) × (bs : List ℕ) × ((recv sock n w).0 ≡ some (b ∷ bs))
    pub dry :
        (n : ℕ) (w : World)
        → 0 < n
        → c.stream w ≡ []
        → ((recv sock n w).0 ≡ none) × (errno (recv sock n w).1 ≡ ewouldblock)

  -- The socket takes bytes whenever it is given some.
  pub record Writable : Type 0 where
    pub takes : (bs : List ℕ) (w : World) → bs ≢ [] → (k : ℕ) × ((send sock bs w).0 ≡ some k)

-- A block that `malloc` gives has the size asked for.
pub record Heap (os : Os) : Type 0 where
  pub malloc_length :
      (n : ℕ) (w : os.World) (bs : List ℕ) → (os.malloc n w).0 ≡ some bs → length bs ≡ n
