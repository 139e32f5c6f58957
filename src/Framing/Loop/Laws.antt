-- ===== src/Framing/Loop/Laws.antt =====
-- The loop reads its data from whatever pieces recv gives, and always returns.
use cpp_backend.Prelude.{
  ℕ, zero, suc, ◌+◌, ◌-◌, ◌%◌, ◌<◌, ◌≤◌, ◌≡◌, refl, sym, ap, ◌∙◌, true, false, Option, some, List,
  [], ◌∷◌, ◌++◌, length, min, arith, length-append, append-split,
}
use native.Mathlib.Decide.{dec_lt}
use mathlib.Core.List.{append_assoc, append-nil}
use cpp_backend.Framing.Net.{Net, Recv, bytes, failed, IsBounded, Delivers}
use cpp_backend.Framing.Words.{word}
use cpp_backend.Framing.Loop.{Result, read_data}

-- One round of the second loop.
pub read_data-round :
    (net : Net) (size fuel : ℕ) (done bs : List ℕ) (data_len total : ℕ) (c c' : net.Conn)
    → total < data_len
    → total + length bs < word
    → 0 < length bs
    → net.recv (min size (data_len - total)) c ≡ (bytes bs, c')
    → read_data net size (suc fuel) done data_len total c
      ≡ read_data net size fuel (done ++ bs) data_len (total + length bs) c'
unfolding read_data
read_data-round net size fuel done bs data_len total c c' more small some_bytes got = ground arith

pub read_data-end :
    (net : Net) (size fuel : ℕ) (done : List ℕ) (data_len total : ℕ) (c : net.Conn)
    → data_len ≤ total
    → read_data net size (suc fuel) done data_len total c
      ≡ some (record { ok = true; out_data = done; conn = c })
unfolding read_data
read_data-end net size fuel done data_len total c over = ground arith

module _ (net : Net) (size : ℕ) (room : 0 < size) (incoming : net.Conn → List ℕ)
    (delivers : Delivers net incoming) where
  -- The loop has read its data, and the stream goes on behind it.
  abbrev pub Reads : Option (Result net) → List ℕ → List ℕ → Type 0
  Reads r out rest =
      (c' : net.Conn) × (r ≡ some (record { ok = true; out_data = out; conn = c' }))
      × (incoming c' ≡ rest)

  read_data-next :
      (fuel : ℕ) (done bs todo text rest : List ℕ) (total data_len : ℕ) (c c' : net.Conn)
      → total < data_len
      → total + length bs < word
      → 0 < length bs
      → net.recv (min size (data_len - total)) c ≡ (bytes bs, c')
      → text ≡ bs ++ todo
      → Reads
          (read_data net size fuel (done ++ bs) data_len (total + length bs) c')
          ((done ++ bs) ++ todo)
          rest
      → Reads (read_data net size (suc fuel) done data_len total c) (done ++ text) rest
  read_data-next fuel done bs todo text rest total data_len c c' more small some_bytes got split
        (d, runs, at) =
      (
        d,
        read_data-round net size fuel done bs data_len total c c' more small some_bytes got
            ∙ runs
            ∙ ap (λ o. some (record { ok = true; out_data = o; conn = d }))
                (append_assoc done bs todo ∙ ap (◌++◌ done) (sym split)),
        at,
      )

  -- What is still to be read is `todo`; `total` bytes were read.
  pub read_data_lem :
      (fuel : ℕ) (done todo rest : List ℕ) (total data_len : ℕ) (c : net.Conn)
      → length todo < fuel
      → total + length todo ≡ data_len
      → data_len < word
      → incoming c ≡ todo ++ rest
      → Reads (read_data net size fuel done data_len total c) (done ++ todo) rest
  read_data_lem zero done todo rest total data_len c enough sum small e = elim enough [ ]
  read_data_lem (suc fuel) done [] rest total data_len c enough sum small e =
      (c, rw (append-nil done) (read_data-end net size fuel done data_len total c (omega arith)), e)
  read_data_lem (suc fuel) done (x ∷ xs) rest total data_len c enough sum small e =
      let size : ℕ = min size (data_len - total) in
      let (bs, c', got, some_bytes, few, front) =
        delivers size c (omega arith) (omega (arith, ap length e)) in
      let (todo, split, now) =
        append-split bs (x ∷ xs) (incoming c') rest (omega arith) (sym front ∙ e) in
      let left : length xs + 1 ≡ length bs + length todo =
        omega (arith, ap length split, length-append bs todo) in
      read_data-next fuel done bs todo (x ∷ xs) rest total data_len c c' (omega arith) (omega arith)
        some_bytes got split
        (read_data_lem fuel (done ++ bs) todo rest (total + length bs) data_len c' (omega arith)
          (omega arith) small now)

-- Whatever recv does within its bounds, the loop returns: it never runs out of fuel.
module _ (net : Net) (size : ℕ) (bounded : IsBounded net) where
  abbrev pub Returns : Option (Result net) → Type 0
  Returns o = (r : Result net) × (o ≡ some r)

  data_round :
      (fuel : ℕ) (done : List ℕ) (data_len total : ℕ) (c : net.Conn) (p : Recv × net.Conn)
      → net.recv (min size (data_len - total)) c ≡ p
      → total < data_len
      → ((bs : List ℕ) (c' : net.Conn)
          → p ≡ (bytes bs, c')
          → 0 < length bs
          → Returns (read_data net size fuel (done ++ bs) data_len ((total + length bs) % word) c'))
      → Returns (read_data net size (suc fuel) done data_len total c)
  unfolding read_data
  data_round fuel done data_len total c (failed, c') got more rest =
      (record { ok = false; out_data = done; conn = c' }, ground arith)
  data_round fuel done data_len total c (bytes [], c') got more rest =
      (record { ok = false; out_data = done; conn = c' }, ground arith)
  data_round fuel done data_len total c (bytes (b ∷ bs), c') got more rest =
      let (r, runs) = rest (b ∷ bs) c' refl (omega arith) in (r, ground arith)

  pub read_data-Returns :
      (fuel : ℕ) (done : List ℕ) (data_len total : ℕ) (c : net.Conn)
      → data_len - total < fuel
      → data_len < word
      → Returns (read_data net size fuel done data_len total c)
  read_data-Returns zero done data_len total c h small = elim h [ ]
  read_data-Returns (suc fuel) done data_len total c h small = elim (dec_lt total data_len) [
    | no over ↦ (_, read_data-end net size fuel done data_len total c (omega arith))
    | yes more ↦
        data_round fuel done data_len total c (net.recv (min size (data_len - total)) c) refl more
          λ bs c' got pos.
            let few : length bs ≤ min size (data_len - total) = bounded _ c c' bs got in
            read_data-Returns fuel (done ++ bs) data_len ((total + length bs) % word) c'
              (omega arith) small
  ]
