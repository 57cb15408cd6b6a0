-- ===== src/Bencode/Tests.antt =====
-- Runs of the encoder and the decoder, and the properties at concrete inputs.
use project_based_learning.Base.{◌≡◌, refl, ◌∷◌, ◌++◌, arith, codes, pos, negsuc}
use project_based_learning.Bencode.Value.{
  Value, Entries, str, int, list, dict, nil, cons, end, entry, encode_str, encode,
}
use project_based_learning.Bencode.Outcome.{Ensures, ok, err, panic, unexpected_end, invalid_format}
use project_based_learning.Bencode.Decode.{
  decode_str, slice_str, cut_str, decode_int, cut_int, decode, decode_dict_raw,
}
use project_based_learning.Bencode.RoundTrip.{
  IsCanonical, raw_entries, decode-encode, decode_dict_raw-encode,
}
use project_based_learning.Bencode.Sound.{decode-Ensures}
use project_based_learning.Bencode.Order.{exchange, encode-SameMap}
use project_based_learning.Bencode.Edges.{decode-overflow}
use project_based_learning.Bencode.Decimal.{decimal, append_int, parse_int, parse_magnitude}

abbrev sample : Value
sample = dict (
    entry (codes "bar") (str (codes "spam"))
      (entry (codes "foo") (list (cons (int (pos 42)) (cons (int (negsuc 6)) nil))) end))

sample_text : encode sample ≡ codes "d3:bar4:spam3:fooli42ei-7eee"
unfolding encode encode_str decimal append_int
sample_text = refl

sample_back : decode (codes "d3:bar4:spam3:fooli42ei-7eee") ≡ ok sample
unfolding decode decode_str slice_str cut_str parse_int parse_magnitude decode_int cut_int
sample_back = refl

unsorted : decode (codes "d3:foo1:a3:bar1:be") ≡ err invalid_format
unfolding decode decode_str slice_str cut_str parse_int parse_magnitude decode_int cut_int
unsorted = refl

truncated : decode (codes "5:ab") ≡ err unexpected_end
unfolding decode decode_str slice_str cut_str parse_int parse_magnitude decode_int cut_int
truncated = refl

huge : decode (codes "9223372036854775807:") ≡ panic
unfolding decode decode_str slice_str cut_str parse_int parse_magnitude decode_int cut_int
huge = refl

plus : decode (codes "i+5e") ≡ ok (int (pos 5))
unfolding decode decode_str slice_str cut_str parse_int parse_magnitude decode_int cut_int
plus = refl

minus_zero_accepted : decode (codes "i-05e") ≡ ok (int (negsuc 4))
unfolding decode decode_str slice_str cut_str parse_int parse_magnitude decode_int cut_int
minus_zero_accepted = refl

abbrev sample_entries : Entries
sample_entries = entry (codes "info") (int (pos 7)) (entry (codes "name") (str (codes "x")) end)

sample-IsCanonical : IsCanonical sample
sample-IsCanonical = (refl, tt, (refl, (omega arith, (omega arith, tt)), tt))

decode-encode_example : decode (encode sample) ≡ ok sample
decode-encode_example =
    decode-encode sample sample-IsCanonical
      (unfold encode encode_str decimal append_int in omega arith)

decode_dict_raw-encode_example :
    decode_dict_raw (encode (dict sample_entries) ++ codes "e") ≡ ok (raw_entries sample_entries)
decode_dict_raw-encode_example =
    decode_dict_raw-encode sample_entries (codes "e") (refl, omega arith, (refl, tt, tt))
      (unfold encode encode_str decimal append_int in omega arith)

encode-SameMap_example :
    encode (dict (entry (codes "b") (int (pos 1)) (entry (codes "a") (int (pos 2)) end)))
    ≡ encode (dict (entry (codes "a") (int (pos 2)) (entry (codes "b") (int (pos 1)) end)))
encode-SameMap_example =
    encode-SameMap (exchange (codes "b") (codes "a") (int (pos 1)) (int (pos 2)) (ground arith))

decode-Ensures_example : Ensures IsCanonical (decode (codes "li1ei2ee"))
decode-Ensures_example = decode-Ensures (codes "li1ei2ee")

decode-overflow_example : decode (codes "9223372036854775800" ++ b':' ∷ codes "abc") ≡ panic
decode-overflow_example =
    decode-overflow b'9' (codes "223372036854775800") (codes "abc") 9223372036854775800
      (omega arith) refl (omega arith) (omega arith)
