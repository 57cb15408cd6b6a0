-- ===== src/Download/Picker.antt =====
-- `Picker` (download/picker.go, lines 17 to 195). The lists are the slices that `NewPicker` makes,
-- of `num_pieces` elements each. An index is a number: a negative one panics as one past the end
-- does. `rand` stands for `rand.IntN`, of which the code uses that `rand n` lies below `n`.
pub mod Scan
pub mod Choice
pub mod State
pub mod Reach
use project_based_learning.Base.{
  ℕ, zero, suc, ◌+◌, ◌-◌, ◌^◌, ◌<◌, Bool, true, false, not, ◌&&◌, ◌||◌, Option, none, some, List,
  [], ◌∷◌, ◌++◌, leb, if◌then◌else◌, length, get_or, set, replicate, Bytes, ℤ, pos, ltb_ℤ, eq_ℤ,
  add_64, sub_64,
}
use project_based_learning.Base.Fallible.{Fallible, ok, panic}
use project_based_learning.Download.Bitfield.{has_piece}

pub record Picker : Type 0 where
  pub num_pieces : ℕ
  pub frequency : List ℤ
  pub done : List Bool
  pub inflight : List Bool
  pub endgame : Bool

unfoldable pub new_picker : ℕ → Picker
new_picker n = record {
  num_pieces = n;
  frequency = replicate n (pos 0);
  done = replicate n false;
  inflight = replicate n false;
  endgame = false;
}

-- `p.done[i]`, `p.inflight[i]` and `p.frequency[i]`, below `num_pieces`.
abbrev pub done_at : Picker → ℕ → Bool
done_at p i = get_or p.done i false

abbrev pub inflight_at : Picker → ℕ → Bool
inflight_at p i = get_or p.inflight i false

abbrev pub frequency_at : Picker → ℕ → ℤ
frequency_at p i = get_or p.frequency i (pos 0)

-- One step of the loops of `AddPeer` and `RemovePeer`, from the piece `i` on.
unfoldable pub count : (ℤ → ℤ) → Bytes → ℕ → List ℤ → List ℤ
count step bits i [] = []
count step bits i (f ∷ fs) = (if has_piece bits i then step f else f) ∷ count step bits (suc i) fs

unfoldable pub add_peer : Bytes → Picker → Picker
add_peer bits p = record p { frequency = count (λ f. add_64 f (pos 1)) bits 0 p.frequency }

unfoldable pub remove_peer : Bytes → Picker → Picker
remove_peer bits p = record p { frequency = count (λ f. sub_64 f (pos 1)) bits 0 p.frequency }

-- `bestFreq` and `candidates`.
abbrev pub Best : Type 0
Best = ℤ × List ℕ

-- The body of the loop of `Pick`.
unfoldable pub consider : Picker → Bytes → ℕ → Best → Best
consider p bits i (best, candidates) =
    let f = frequency_at p i in
    if done_at p i
    then (best, candidates)
    else if inflight_at p i && not p.endgame
    then (best, candidates)
    else if not (has_piece bits i)
    then (best, candidates)
    else if ltb_ℤ f best
    then (f, i ∷ [])
    else if eq_ℤ f best
    then (best, candidates ++ i ∷ [])
    else (best, candidates)

-- `for i := range n`.
unfoldable pub scan : Picker → Bytes → ℕ → Best
scan p bits zero = (pos (2 ^ 63 - 1), [])
scan p bits (suc n) = consider p bits n (scan p bits n)

-- The loop of `pickEndgame`.
unfoldable pub duplicates : Picker → Bytes → ℕ → List ℕ
duplicates p bits zero = []
duplicates p bits (suc n) =
    let before = duplicates p bits n in
    if done_at p n || not (inflight_at p n)
    then before
    else if not (has_piece bits n)
    then before
    else before ++ n ∷ []

-- The first loop of `shouldEnterEndgame`: no piece is left that is neither done nor in flight.
unfoldable pub all_taken : Picker → ℕ → Bool
all_taken p zero = true
all_taken p (suc n) =
    let before = all_taken p n in
    if not (done_at p n) && not (inflight_at p n) then false else before

unfoldable pub some_left : List Bool → Bool
some_left [] = false
some_left (d ∷ ds) = if not d then true else some_left ds

unfoldable pub should_enter_endgame : Picker → Bool
should_enter_endgame p = if all_taken p p.num_pieces then some_left p.done else false

-- `candidates[rand.IntN(len(candidates))]`
unfoldable pub draw : (ℕ → ℕ) → List ℕ → Option ℕ
draw rand [] = none
draw rand (c ∷ cs) = some (get_or (c ∷ cs) (rand (length (c ∷ cs))) 0)

-- `pickEndgame`: none is the result (-1, false).
unfoldable pub pick_endgame : (ℕ → ℕ) → Bytes → Picker → Option ℕ
pick_endgame rand bits p = draw rand (duplicates p bits p.num_pieces)

abbrev pub take_piece : Picker → Option ℕ → Picker × Option ℕ
take_piece p none = (p, none)
take_piece p (some c) = (record p { inflight = set p.inflight c true }, some c)

-- What `Pick` does with its candidates.
unfoldable pub pick_from : (ℕ → ℕ) → Bytes → Picker → List ℕ → Picker × Option ℕ
pick_from rand bits p [] =
    let entered = record p { endgame = true } in
    if not p.endgame && should_enter_endgame p
    then (entered, pick_endgame rand bits entered)
    else (p, none)
pick_from rand bits p (c ∷ cs) = take_piece p (draw rand (c ∷ cs))

unfoldable pub pick : (ℕ → ℕ) → Bytes → Picker → Picker × Option ℕ
pick rand bits p = pick_from rand bits p (scan p bits p.num_pieces).1

unfoldable pub finish : ℕ → Picker → Fallible Picker
finish i p =
    if leb (length p.done) i
    then panic
    else if leb (length p.inflight) i
    then panic
    else ok (record p { done = set p.done i true; inflight = set p.inflight i false })

unfoldable pub abort : ℕ → Picker → Fallible Picker
abort i p =
    if leb (length p.inflight) i then panic else ok (record p { inflight = set p.inflight i false })

unfoldable pub is_done : ℕ → Picker → Fallible Bool
is_done i p = if leb (length p.done) i then panic else ok (done_at p i)

unfoldable pub all_done : List Bool → Bool
all_done [] = true
all_done (d ∷ ds) = if not d then false else all_done ds

-- `Done`
unfoldable pub complete : Picker → Bool
complete p = all_done p.done

unfoldable pub count_left : List Bool → ℕ
count_left [] = 0
count_left (d ∷ ds) = (if not d then 1 else 0) + count_left ds

-- `Remaining`
unfoldable pub remaining : Picker → ℕ
remaining p = count_left p.done
