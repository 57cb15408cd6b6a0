-- ===== src/Utp/Tests.antt =====
-- The properties of packets and selective acknowledgements at concrete inputs.
use project_based_learning.Base.{◌≡◌, refl, [], ◌∷◌, Bytes, arith, codes}
use project_based_learning.Base.Outcome.{ok}
use project_based_learning.Utp.Packet.{Packet, encode_packet, decode_packet}
use project_based_learning.Utp.Packet.RoundTrip.{decode-encode_packet}

abbrev state_packet : Packet
state_packet = record {
  header = record {
    type = 2;
    version = 1;
    extension = 1;
    conn_id = 4660;
    timestamp = 70000;
    time_diff = 12;
    wnd_size = 4200;
    seq_nr = 7;
    ack_nr = 6;
  };
  extensions = record { type = 1; payload = 3 ∷ 0 ∷ 0 ∷ 0 ∷ [] } ∷ [];
  payload = codes "tail";
}

decode-encode_packet_example : decode_packet (encode_packet state_packet) ≡ ok state_packet
decode-encode_packet_example =
    decode-encode_packet state_packet
      (record {
        type_fits = omega arith;
        version_known = refl;
        conn_id_fits = omega arith;
        timestamp_fits = omega arith;
        time_diff_fits = omega arith;
        wnd_size_fits = omega arith;
        seq_nr_fits = omega arith;
        ack_nr_fits = omega arith;
      })
      refl ((ground arith, omega arith), tt)

-- A header that announces an extension, and the extension cut short.
abbrev cut_short : Bytes
cut_short =
    0x21 ∷ 1 ∷ 0 ∷ 0 ∷ 0 ∷ 0 ∷ 0 ∷ 0 ∷ 0 ∷ 0 ∷ 0 ∷ 0 ∷ 0 ∷ 0 ∷ 0 ∷ 0 ∷ 0 ∷ 0 ∷ 0 ∷ 0 ∷ 0 ∷ 200 ∷ []

abbrev mask : Bytes
mask = 5 ∷ 128 ∷ 0 ∷ 0 ∷ []
