-- ===== src/Seed/Tests.antt =====
-- An evaluation of concrete connections.
use project_based_learning.Base.{ℕ, true, List, [], ◌∷◌, codes}
use Prim.Native.String.{String}
use project_based_learning.Seed.Choker.{UploadConn, Choker}

abbrev conn : String → ℕ → UploadConn
conn addr n = record {
  addr = codes addr;
  interested = true;
  choked = true;
  upload_bytes = n;
  has_conn = true;
}

abbrev three_conns : List UploadConn
three_conns = conn "a" 10 ∷ conn "b" 30 ∷ conn "c" 20 ∷ []

abbrev one_slot : Choker
one_slot = record { upload_slots = 1; optimistic = [] }
