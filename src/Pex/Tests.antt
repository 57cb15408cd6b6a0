-- ===== src/Pex/Tests.antt =====
-- The peer exchange at concrete inputs.
use project_based_learning.Base.{◌≡◌, refl, ◌∷◌, [], replicate, Bytes, arith}
use project_based_learning.Base.Assoc.{has, put, delete}
use project_based_learning.Base.Outcome.{ok}
use project_based_learning.Bencode.Decimal.{decimal}
use project_based_learning.Bencode.Value.{encode, encode_str}
use project_based_learning.Pex.Message.{
  PeerEntry, Message, encode_message, decode_message, encode_compact_4, encode_compact_6,
}
use project_based_learning.Pex.Message.RoundTrip.{decode-encode_pex}
use project_based_learning.Pex.Tracker.{
  DiffTracker, new_diff_tracker, add_peer, remove_peer, addr, missing, diff,
}
use project_based_learning.Net.{to_4, to_16}
use project_based_learning.Pex.Tracker.Told.{
  told, Reach, start, added, removed, sent, IsWhole, told-diff,
}

abbrev peer_4 : PeerEntry
peer_4 = record { ip = 10 ∷ 0 ∷ 0 ∷ 7 ∷ []; port = 6881; flags = 2 }

abbrev gone_4 : PeerEntry
gone_4 = record { ip = 10 ∷ 0 ∷ 0 ∷ 8 ∷ []; port = 51413; flags = 0 }

abbrev peer_6 : PeerEntry
peer_6 = record { ip = replicate 16 254; port = 6881; flags = 17 }

abbrev news : Message
news = record { added = peer_4 ∷ []; dropped = gone_4 ∷ []; added_6 = peer_6 ∷ []; dropped_6 = [] }

decode-encode_pex_example : decode_message (encode_message news) ≡ ok news
decode-encode_pex_example =
    decode-encode_pex news ((refl, omega arith), tt) ((refl, omega arith, refl), tt)
      ((refl, omega arith), tt) tt
      (unfold encode_message encode encode_str decimal encode_compact_4 encode_compact_6 to_4
          to_16 in
        omega arith)

abbrev changed : DiffTracker
changed =
    remove_peer (10 ∷ 0 ∷ 0 ∷ 8 ∷ []) 51413
      (add_peer peer_6 (diff (add_peer gone_4 new_diff_tracker)).1)

changed-Reach : Reach changed
changed-Reach = removed (10 ∷ 0 ∷ 0 ∷ 8 ∷ []) 51413 (added peer_6 (sent (added gone_4 start)))

changed-IsWhole : IsWhole changed
changed-IsWhole =
    unfold add_peer remove_peer diff missing addr to_4 to_16 put delete in
    record {
      added_fit = omega arith;
      added_6_fit = omega arith;
      dropped_fit = omega arith;
      dropped_6_fit = omega arith;
    }

told-diff_example :
    ((k : Bytes) → told k (diff changed).0 (has k changed.last_sent) ≡ has k changed.current)
    × ((diff changed).1 ≡ record { current = changed.current; last_sent = changed.current })
told-diff_example = told-diff changed-Reach changed-IsWhole
