-- ===== src/Framing/Loop.antt =====
-- `while (total_read < data_len)` of recv_packet, which package_sticking.cpp and package_client.cpp share but for
-- the size of the buffer.
pub mod Laws
use cpp_backend.Prelude.{
  ℕ, zero, suc, ◌+◌, ◌-◌, ◌%◌, Bool, true, false, Option, none, some, List, ◌++◌, length, ltb, min,
  ◌==◌,
}
use cpp_backend.Framing.Net.{Net, bytes, failed}
use cpp_backend.Framing.Words.{word}

-- What the functions return, the string that they fill, and the socket after them.
pub record Result (net : Net) : Type 0 where
  pub ok : Bool
  pub out_data : List ℕ
  pub conn : net.Conn

module _ (net : Net) (size : ℕ) where
  -- `none` is the fuel's end.
  unfoldable pub read_data : ℕ → List ℕ → ℕ → ℕ → net.Conn → Option (Result net)
  read_data zero out_data data_len total_read c = none
  read_data (suc fuel) out_data data_len total_read c = elim (ltb total_read data_len) [
    | false ↦ some (record { ok = true; out_data = out_data; conn = c })
    | true ↦
        let (r, c') = net.recv (min size (data_len - total_read)) c in
        elim r [
          | failed ↦ some (record { ok = false; out_data = out_data; conn = c' })
          | bytes len_read ↦ elim (length len_read == 0) [
            | true ↦ some (record { ok = false; out_data = out_data; conn = c' })
            | false ↦
                read_data fuel (out_data ++ len_read) data_len
                  ((total_read + length len_read) % word) c'
          ]
        ]
  ]
