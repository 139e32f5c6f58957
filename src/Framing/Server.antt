-- ===== src/Framing/Server.antt =====
-- send_packet and recv_packet of Cpp_WebPrograming/package_sticking.cpp, where one call of send or recv has to do
-- for the prefix, and one of send for the data.
pub mod Prefix
use cpp_backend.Prelude.{
  ℕ, zero, suc, ◌+◌, ◌-◌, ◌%◌, Bool, true, false, Option, none, some, List, [], ◌∷◌, ◌++◌, length,
  replicate, ltb, leb, if◌then◌else◌, min, ◌==◌,
}
use cpp_backend.Framing.Net.{Net, Recv, bytes, failed, Sent, sent, refused}
use cpp_backend.Framing.Words.{word, htonl, ntohl}
use cpp_backend.Framing.Loop.{Result, read_data}

-- sizeof(buffer)
abbrev pub buffer_size : ℕ
buffer_size = 4096

-- The value of data_len, which was 0 before recv wrote these bytes over it.
abbrev pub data_len_of : List ℕ → ℕ
data_len_of len_read = ntohl (len_read ++ replicate (4 - length len_read) 0)

module _ (net : Net) where
  unfoldable pub send_packet : List ℕ → net.Conn → Bool × net.Conn
  send_packet text c =
      let (r, c1) = net.send (htonl (length text % word)) c in
      elim r [
        | refused ↦ (false, c1)
        | sent len_sent ↦ elim (len_sent == 4) [
          | false ↦ (false, c1)
          | true ↦
              let (q, c2) = net.send text c1 in
              elim q [ refused ↦ (false, c2) | sent len_sent ↦ (len_sent == length text, c2) ]
        ]
      ]

  unfoldable pub recv_packet : net.Conn → Option (Result net)
  unfolding read_data
  recv_packet c =
      let (r, c') = net.recv 4 c in
      elim r [
        | failed ↦ some (record { ok = false; out_data = []; conn = c' })
        | bytes len_read ↦
            if length len_read == 0
            then some (record { ok = false; out_data = []; conn = c' })
            else read_data net buffer_size (suc (data_len_of len_read)) [] (data_len_of len_read) 0
                c'
      ]
