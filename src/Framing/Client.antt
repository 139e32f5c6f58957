-- ===== src/Framing/Client.antt =====
-- send_packet and recv_packet of Cpp_WebPrograming/package_client.cpp.
pub mod Receive
pub mod Transmit
use cpp_backend.Prelude.{
  ℕ, zero, suc, ◌+◌, ◌-◌, ◌*◌, ◌%◌, ◌≡◌, Bool, true, false, Option, none, some, List, [], ◌∷◌, ◌++◌,
  length, take, drop, ◌>>=◌, ltb, leb, if◌then◌else◌, min, ◌==◌,
}
use cpp_backend.Framing.Net.{Net, Recv, bytes, failed, Sent, sent, refused}
use cpp_backend.Framing.Words.{word, htonl, ntohl}
use cpp_backend.Framing.Loop.{Result, read_data}

-- sizeof(buffer), and the longest packet that is read
abbrev pub buffer_size : ℕ
buffer_size = 1024

abbrev pub max_packet : ℕ
max_packet = 1024 * 1024

module _ (net : Net) where
  -- `while (len_remaining > 0)`: the bytes of data_len that are read so far. `none` is the fuel's end.
  unfoldable pub read_prefix : ℕ → List ℕ → ℕ → net.Conn → Option (Result net)
  read_prefix zero len_buf len_remaining c = none
  read_prefix (suc fuel) len_buf len_remaining c = elim (ltb 0 len_remaining) [
    | false ↦ some (record { ok = true; out_data = len_buf; conn = c })
    | true ↦
        let (r, c') = net.recv len_remaining c in
        elim r [
          | failed ↦ some (record { ok = false; out_data = []; conn = c' })
          | bytes len_read ↦ elim (length len_read == 0) [
            | true ↦ some (record { ok = false; out_data = []; conn = c' })
            | false ↦
                read_prefix fuel (len_buf ++ len_read)
                  ((len_remaining + word - length len_read) % word) c'
          ]
        ]
  ]

  -- After the prefix: refuse what is too long, or read the data.
  unfoldable pub after_prefix : Result net → Option (Result net)
  unfolding read_data
  after_prefix r =
      if r.ok
      then (let data_len = ntohl r.out_data in
          if ltb max_packet data_len
          then some (record { ok = false; out_data = []; conn = r.conn })
          else read_data net buffer_size (suc data_len) [] data_len 0 r.conn)
      else some r

  -- recv_packet, with fuel for one byte in each round.
  unfoldable pub recv_packet : net.Conn → Option (Result net)
  unfolding read_prefix after_prefix
  recv_packet c = read_prefix 5 [] 4 c >>= λ r. after_prefix r

  -- `while (remaining > 0)`: the data from data_ptr on.
  unfoldable pub send_data : ℕ → List ℕ → ℕ → net.Conn → Option (Bool × net.Conn)
  send_data zero data_ptr remaining c = none
  send_data (suc fuel) data_ptr remaining c = elim (ltb 0 remaining) [
    | false ↦ some (true, c)
    | true ↦
        let (r, c') = net.send (take remaining data_ptr) c in
        elim r [
          | refused ↦ some (false, c')
          | sent len_sent ↦ elim (len_sent == 0) [
            | true ↦ some (false, c')
            | false ↦
                send_data fuel (drop len_sent data_ptr) ((remaining + word - len_sent) % word) c'
          ]
        ]
  ]

  -- send_packet
  unfoldable pub send_packet : List ℕ → net.Conn → Option (Bool × net.Conn)
  unfolding send_data
  send_packet text c =
      let (r, c') = net.send (htonl (length text % word)) c in
      elim r [
        | refused ↦ some (false, c')
        | sent len_sent ↦
            if len_sent == 4
            then send_data (suc (length text % word)) text (length text % word) c'
            else some (false, c')
      ]
