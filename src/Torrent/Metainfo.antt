-- ===== src/Torrent/Metainfo.antt =====
-- Metainfo files (torrent/torrent.go, lines 25 to 113 and 202 to 441). SHA-1 is the parameter `sha`.
pub mod Agree
pub mod Sizes
use project_based_learning.Base.{
  ℕ, zero, suc, ◌/◌, ◌%◌, ℤ, pos, Bool, true, false, not, ◌&&◌, ◌||◌, Option, none, some, List, [],
  ◌∷◌, ◌++◌, ◌==◌, if◌then◌else◌, length, take, drop, Bytes, codes, ltb_ℤ, eq_ℤ, add_64, sub_64,
  mul_64,
}
use project_based_learning.Base.Wire.{bytes_eq}
use project_based_learning.Base.Outcome.{Outcome, ok, err, ◌>>=◌, or_err}
use project_based_learning.Bencode.Value.{Value, Items, Entries, str, int, list, dict, nil, cons}
use project_based_learning.Bencode.Decode.{RawValue, RawDict, decode, decode_dict_raw}
use project_based_learning.Bencode.Access.{
  as_str, as_dict, lookup, raw_lookup, str_at, int_at, list_at, is_some, from_bencode,
}

pub record File : Type 0 where
  pub len : ℤ
  pub path : List Bytes
  pub attr : Bytes

-- The fields of a Torrent that `parseInfo` sets, and the others.
pub record Info : Type 0 where
  pub name : Bytes
  pub piece_length : ℤ
  pub pieces : List Bytes
  pub len : ℤ
  pub files : List File
  pub is_private : Bool

pub record Torrent : Type 0 where
  pub announce : Bytes
  pub announce_list : List (List Bytes)
  pub url_list : List Bytes
  pub http_seeds : List Bytes
  pub info_hash : Bytes
  pub info : Info

abbrev pub hash_len : ℕ
hash_len = 20

unfoldable pub is_pad : Bytes → Bool
is_pad [] = false
is_pad (c ∷ attr) = c == b'p' || is_pad attr

abbrev pub is_single_file : Info → Bool
is_single_file t = length t.files == 0

-- The closure `add` of `Trackers`, on the result; `seen` holds what the result holds.
abbrev pub seen : Bytes → List Bytes → Bool
seen u [] = false
seen u (v ∷ vs) = bytes_eq v u || seen u vs

abbrev pub add : List Bytes → Bytes → List Bytes
add result u = if not (length u == 0) && not (seen u result) then result ++ u ∷ [] else result

unfoldable pub add_tier : List Bytes → List Bytes → List Bytes
add_tier result [] = result
add_tier result (u ∷ tier) = add_tier (add result u) tier

unfoldable pub add_tiers : List Bytes → List (List Bytes) → List Bytes
unfolding add_tier
add_tiers result [] = result
add_tiers result (tier ∷ tiers) = add_tiers (add_tier result tier) tiers

unfoldable pub trackers : Torrent → List Bytes
unfolding add_tiers
trackers t = add (add_tiers [] t.announce_list) t.announce

unfoldable pub sum_lengths : ℤ → List File → ℤ
sum_lengths total [] = total
sum_lengths total (f ∷ fs) = sum_lengths (add_64 total f.len) fs

unfoldable pub total_length : Info → ℤ
total_length t = if is_single_file t then t.len else sum_lengths (pos 0) t.files

unfoldable pub piece_len : Info → ℤ → ℤ
piece_len t index =
    let start = mul_64 index t.piece_length in
    let end_ = add_64 start t.piece_length in
    let total = total_length t in sub_64 (if ltb_ℤ total end_ then total else end_) start

-- The strings of a list, with the empty ones and without.
abbrev pub strings : Items → List Bytes
strings nil = []
strings (cons (str s) xs) = s ∷ strings xs
strings (cons v xs) = strings xs

abbrev pub non_empty_strings : Items → List Bytes
non_empty_strings nil = []
non_empty_strings (cons (str []) xs) = non_empty_strings xs
non_empty_strings (cons (str (c ∷ s)) xs) = (c ∷ s) ∷ non_empty_strings xs
non_empty_strings (cons v xs) = non_empty_strings xs

abbrev pub add_urls : List Bytes → List (List Bytes) → List (List Bytes)
add_urls [] tiers = tiers
add_urls (u ∷ urls) tiers = (u ∷ urls) ∷ tiers

abbrev pub tiers_of : Items → List (List Bytes)
tiers_of nil = []
tiers_of (cons (list tl) xs) = add_urls (strings tl) (tiers_of xs)
tiers_of (cons v xs) = tiers_of xs

abbrev pub announce_of : Option Value → Bytes
announce_of (some (str s)) = s
announce_of v = []

abbrev pub announce_list_of : Option Value → List (List Bytes)
announce_list_of (some (list xs)) = tiers_of xs
announce_list_of v = []

abbrev pub url_list_of : Option Value → List Bytes
url_list_of (some (str s)) = non_empty_strings (cons (str s) nil)
url_list_of (some (list xs)) = non_empty_strings xs
url_list_of v = []

abbrev pub http_seeds_of : Option Value → List Bytes
http_seeds_of (some (list xs)) = non_empty_strings xs
http_seeds_of v = []

-- The hashes of `n` pieces.
unfoldable pub cut_pieces : ℕ → Bytes → List Bytes
cut_pieces zero d = []
cut_pieces (suc n) d = take hash_len d ∷ cut_pieces n (drop hash_len d)

unfoldable pub parse_path : Items → Outcome (List Bytes)
parse_path nil = ok []
parse_path (cons (str s) xs) = parse_path xs >>= λ path. ok (s ∷ path)
parse_path (cons v xs) = err

abbrev pub or_empty : Option Bytes → Bytes
or_empty none = []
or_empty (some s) = s

unfoldable pub parse_file : Value → Outcome File
parse_file v = do
  fd ← or_err (as_dict v)
  fl ← or_err (int_at (codes "length") fd)
  path_list ← or_err (list_at (codes "path") fd)
  path ← parse_path path_list
  ok (record { len = fl; path = path; attr = or_empty (str_at (codes "attr") fd) })

unfoldable pub parse_files : Items → Outcome (List File)
parse_files nil = ok []
parse_files (cons v xs) = do f ← parse_file v; fs ← parse_files xs; ok (f ∷ fs)

-- The length, and the files, of a torrent of one file or of several.
unfoldable pub parse_content : Entries → Outcome (ℤ × List File)
parse_content info =
    let has_length = is_some (lookup (codes "length") info) in
    let has_files = is_some (lookup (codes "files") info) in
    if has_length && has_files
    then err
    else if has_length
    then (or_err (int_at (codes "length") info) >>= λ n. ok (n, []))
    else if has_files
    then (or_err (list_at (codes "files") info) >>= λ xs. parse_files xs >>= λ fs. ok (pos 0, fs))
    else err

abbrev pub is_one : Option ℤ → Bool
is_one none = false
is_one (some n) = eq_ℤ n (pos 1)

unfoldable pub parse_info : Entries → Outcome Info
parse_info info = do
  name ← or_err (str_at (codes "name") info)
  pl ← or_err (int_at (codes "piece length") info)
  ps ← or_err (str_at (codes "pieces") info)
  content ← (if not (length ps % hash_len == 0) then err else parse_content info)
  ok (record {
    name = name;
    piece_length = pl;
    pieces = cut_pieces (length ps / hash_len) ps;
    len = content.0;
    files = content.1;
    is_private = is_one (int_at (codes "private") info);
  })

abbrev pub val_of : Option RawValue → Option Value
val_of none = none
val_of (some r) = some r.val

abbrev pub val_at : Bytes → RawDict → Option Value
val_at k d = val_of (raw_lookup k d)

-- The Torrent of a file, from the entries, the hash and the info.
abbrev pub from_entries : RawDict → Bytes → Info → Torrent
from_entries entries hash info = record {
  announce = announce_of (val_at (codes "announce") entries);
  announce_list = announce_list_of (val_at (codes "announce-list") entries);
  url_list = url_list_of (val_at (codes "url-list") entries);
  http_seeds = http_seeds_of (val_at (codes "httpseeds") entries);
  info_hash = hash;
  info = info;
}

unfoldable pub parse : (Bytes → Bytes) → Bytes → Outcome Torrent
parse sha d = do
  entries ← from_bencode (decode_dict_raw d)
  info_raw ← or_err (raw_lookup (codes "info") entries)
  info_dict ← or_err (as_dict info_raw.val)
  info ← parse_info info_dict
  ok (from_entries entries (sha info_raw.raw) info)

abbrev pub first_tracker : List Bytes → Bytes
first_tracker [] = []
first_tracker (u ∷ us) = u

abbrev pub one_tier : List Bytes → List (List Bytes)
one_tier (u ∷ v ∷ us) = (u ∷ v ∷ us) ∷ []
one_tier us = []

abbrev pub from_magnet : List Bytes → Bytes → Info → Torrent
from_magnet urls hash info = record {
  announce = first_tracker urls;
  announce_list = one_tier urls;
  url_list = [];
  http_seeds = [];
  info_hash = hash;
  info = info;
}

unfoldable pub from_info_dict : Bytes → Bytes → List Bytes → Outcome Torrent
from_info_dict raw_info info_hash urls = do
  val ← from_bencode (decode raw_info)
  info_dict ← or_err (as_dict val)
  info ← parse_info info_dict
  ok (from_magnet urls info_hash info)
