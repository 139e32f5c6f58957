-- ===== src/Select/Invariant.antt =====
-- The descriptors of the select servers: the fd_set, the clients, max_fd and what is open.
use cpp_backend.Prelude.{
  ℕ, ◌<◌, ◌≤◌, ◌≡◌, ◌≢◌, sym, ◌∙◌, Bool, true, false, ◌||◌, Option, none, some, List, [], ◌∷◌, ◌++◌,
  ◌==◌, All, All-snoc, arith,
}
use cpp_backend.DescendingSet.{has, IsDescending, has-first}
use cpp_backend.Select.Os.{Os}
use cpp_backend.Select.Machine.{Job, communicate, leaving, closing, reply, Scan, State, highest}

abbrev pub fd_of : Job → ℕ
fd_of (communicate fd) = fd
fd_of (leaving fd) = fd
fd_of (closing fd) = fd
fd_of (reply fd msg) = fd

abbrev pub is_adding : Option ℕ → ℕ → Bool
is_adding none i = false
is_adding (some fd) i = i == fd

module _ (os : Os) (server : ℕ) (base : ℕ → Bool) where
  abbrev pub AllClients : List Job → Type 0
  AllClients js = All (λ j. base (fd_of j) ≡ false) js

  -- `base` is what is open besides the clients. Of a client that is about to be added, which another thread may
  -- close, nothing is said but that it is not of `base`.
  pub record Inv (s : State os) : Type 0 where
    pub order : IsDescending s.client_fds
    pub reads : s.looping ≡ true → (i : ℕ) → s.read_fds i ≡ (i == server || has i s.client_fds)
    pub bound : (i : ℕ) → has i s.client_fds ≡ true → (i ≤ s.max_fd) × (base i ≡ false)
    pub above : server ≤ s.max_fd
    pub inside : s.max_fd < 1024
    pub fits : s.overrun ≡ false
    pub no_leak :
        (i : ℕ)
        → os.is_open s.world i ≡ true
        → is_adding s.adding i ≡ false
        → (base i || has i s.client_fds) ≡ true
    pub kept : (i : ℕ) → base i ≡ true → os.is_open s.world i ≡ true
    pub new : (i : ℕ) → is_adding s.adding i ≡ true → (base i ≡ false) × (i < 1024)
    pub jobs : AllClients s.jobs
    pub ready :
        (c : Scan) → s.scanning ≡ some c → (i : ℕ) → c.ready i ≡ true → i ≢ server → base i ≡ false

  pub Inv-world :
      (s : State os) (w : os.World)
      → Inv s
      → ((i : ℕ) → os.is_open w i ≡ os.is_open s.world i)
      → Inv (record s { world = w })
  Inv-world s w v keeps = record {
    order = v.order;
    reads = v.reads;
    bound = v.bound;
    above = v.above;
    inside = v.inside;
    fits = v.fits;
    no_leak = λ i h. v.no_leak i (sym (keeps i) ∙ h);
    kept = λ i h. keeps i ∙ v.kept i h;
    new = v.new;
    jobs = v.jobs;
    ready = v.ready;
  }

  pub Inv-jobs :
      (s : State os) (js : List Job) → Inv s → AllClients js → Inv (record s { jobs = js })
  Inv-jobs s js v all = record {
    order = v.order;
    reads = v.reads;
    bound = v.bound;
    above = v.above;
    inside = v.inside;
    fits = v.fits;
    no_leak = v.no_leak;
    kept = v.kept;
    new = v.new;
    jobs = all;
    ready = v.ready;
  }

  pub Inv-submit :
      (s : State os) (j : Job)
      → Inv s
      → base (fd_of j) ≡ false
      → Inv (record s { jobs = s.jobs ++ j ∷ [] })
  Inv-submit s j v h =
      Inv-jobs s (s.jobs ++ j ∷ []) v (All-snoc (λ j. base (fd_of j) ≡ false) s.jobs j v.jobs h)

  pub Inv-scanning :
      (s : State os) (o : Option Scan)
      → Inv s
      → ((c : Scan) → o ≡ some c → (i : ℕ) → c.ready i ≡ true → i ≢ server → base i ≡ false)
      → Inv (record s { scanning = o })
  Inv-scanning s o v of_clients = record {
    order = v.order;
    reads = v.reads;
    bound = v.bound;
    above = v.above;
    inside = v.inside;
    fits = v.fits;
    no_leak = v.no_leak;
    kept = v.kept;
    new = v.new;
    jobs = v.jobs;
    ready = of_clients;
  }

  pub Inv-looping :
      (s : State os) (b : Bool) → Inv s → s.looping ≡ true → Inv (record s { looping = b })
  Inv-looping s b v runs = record {
    order = v.order;
    reads = λ l. v.reads runs;
    bound = v.bound;
    above = v.above;
    inside = v.inside;
    fits = v.fits;
    no_leak = v.no_leak;
    kept = v.kept;
    new = v.new;
    jobs = v.jobs;
    ready = v.ready;
  }

  -- max_fd is set to anything that is large enough.
  pub Inv-max :
      (s : State os) (m : ℕ)
      → Inv s
      → ((i : ℕ) → has i s.client_fds ≡ true → i ≤ m)
      → server ≤ m
      → m < 1024
      → Inv (record s { max_fd = m })
  Inv-max s m v large above inside = record {
    order = v.order;
    reads = v.reads;
    bound = λ i h. (large i h, (v.bound i h).1);
    above = above;
    inside = inside;
    fits = v.fits;
    no_leak = v.no_leak;
    kept = v.kept;
    new = v.new;
    jobs = v.jobs;
    ready = v.ready;
  }

  -- What `highest` is of a descending list
  pub highest-above : (cs : List ℕ) → server ≤ highest os server cs
  highest-above [] = omega arith
  highest-above (c ∷ cs) = ground arith

  pub highest-bound :
      (cs : List ℕ) → IsDescending cs → (i : ℕ) → has i cs ≡ true → i ≤ highest os server cs
  highest-bound [] d i h = absurd (cc)
  highest-bound (c ∷ cs) d i h = let top : i ≤ c = has-first i c cs d h in ground arith

  pub highest-inside :
      (cs : List ℕ)
      → server < 1024
      → ((i : ℕ) → has i cs ≡ true → i < 1024)
      → highest os server cs < 1024
  highest-inside [] small all = small
  highest-inside (c ∷ cs) small all = let top : c < 1024 = all c (ground arith) in ground arith
