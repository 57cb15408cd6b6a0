-- ===== src/Tracker/Udp/Options.antt =====
-- The options of an announce read back as BEP 41 defines them.
use project_based_learning.Base.{
  ℕ, zero, suc, ◌%◌, ◌≤◌, ◌≡◌, refl, true, false, [], ◌∷◌, ◌++◌, ltb, ◌==◌, arith, if◌then◌else◌,
  length, length-take, length-drop, length-append_bytes, take, drop, Bytes,
}
use project_based_learning.Base.Wire.{take_exact, drop_exact}
use project_based_learning.Tracker.Udp.{url_chunks, encode_url_data_option}

-- The data of the options of type 2, joined; another type ends the reading.
unfoldable pub read_options : ℕ → Bytes → Bytes
read_options zero o = []
read_options (suc fuel) (t ∷ n ∷ o) =
    let rest = take n o ++ read_options fuel (drop n o) in if t == 2 then rest else []
read_options (suc fuel) o = []

take-drop-length : (n : ℕ) (d : Bytes) → take n d ++ drop (length (take n d)) d ≡ d
take-drop-length zero d = refl
take-drop-length (suc n) [] = refl
take-drop-length (suc n) (a ∷ d) = rw (take-drop-length n d)

read_chunk :
    (more : ℕ) (c o : Bytes)
    → length c ≤ 255
    → read_options (suc more) (2 ∷ length c % 256 ∷ (c ++ o)) ≡ c ++ read_options more o
unfolding read_options
read_chunk more c o h =
    let e : length c % 256 ≡ length c = omega arith in
    rw (e, take_exact (length c) c o refl, drop_exact (length c) c o refl)

read_chunks :
    (fuel more : ℕ) (d : Bytes)
    → length d ≤ fuel
    → length d ≤ more
    → read_options more (url_chunks fuel d) ≡ d
unfolding read_options url_chunks
read_chunks zero zero [] h h' = refl
read_chunks zero (suc more) [] h h' = refl
read_chunks (suc fuel) zero [] h h' = refl
read_chunks (suc fuel) (suc more) [] h h' = refl
read_chunks zero more (a ∷ d) h h' = absurd (omega arith)
read_chunks (suc fuel) zero (a ∷ d) h h' = absurd (omega arith)
read_chunks (suc fuel) (suc more) (a ∷ d) h h' =
    let d' = a ∷ d in
    let c = take 255 d' in
    let rest = drop (length c) d' in
    let c_length = length-take 255 d' in
    let rest_length = length-drop (length c) d' in
    let read = read_chunks fuel more rest (omega arith) (omega arith) in
    let nonempty : ltb 0 (length d') ≡ true = ground arith in
    rw (nonempty, read_chunk more c (url_chunks fuel rest) (omega arith), read)
      (take-drop-length 255 d')

chunks_length : (fuel : ℕ) (d : Bytes) → length d ≤ fuel → length d ≤ length (url_chunks fuel d)
unfolding url_chunks
chunks_length zero [] h = omega arith
chunks_length zero (a ∷ d) h = absurd (omega arith)
chunks_length (suc fuel) [] h = omega arith
chunks_length (suc fuel) (a ∷ d) h =
    let d' = a ∷ d in
    let c = take 255 d' in
    let rest = drop (length c) d' in
    let c_length = length-take 255 d' in
    let rest_length = length-drop (length c) d' in
    let more = chunks_length fuel rest (omega arith) in
    let nonempty : ltb 0 (length d') ≡ true = ground arith in
    let joined = length-append_bytes c (url_chunks fuel rest) in
    rw nonempty (omega (arith, more, joined))

-- The options of a request carry just the path and the query, whatever their length, in segments
-- that a length of one byte can tell.
pub read-encode_url_data :
    (d : Bytes) → read_options (length (encode_url_data_option d)) (encode_url_data_option d) ≡ d
unfolding encode_url_data_option read_options
read-encode_url_data [] = refl
read-encode_url_data (a ∷ d) =
    let opts = url_chunks (length (a ∷ d)) (a ∷ d) in
    let size = chunks_length (length (a ∷ d)) (a ∷ d) (omega arith) in
    let some_opts : (length opts == 0) ≡ false = ground arith in
    rw some_opts (read_chunks (length (a ∷ d)) (length opts) (a ∷ d) (omega arith) size)
