-- ===== src/Peer/MsgId.antt =====
-- The identifiers of messages (peer/message.go, lines 23 to 46).
use project_based_learning.Base.{ℕ}

abbrev pub choke : ℕ
choke = 0

abbrev pub unchoke : ℕ
unchoke = 1

abbrev pub interested : ℕ
interested = 2

abbrev pub not_interested : ℕ
not_interested = 3

abbrev pub have : ℕ
have = 4

abbrev pub bitfield : ℕ
bitfield = 5

abbrev pub request : ℕ
request = 6

abbrev pub piece : ℕ
piece = 7

abbrev pub cancel : ℕ
cancel = 8

abbrev pub suggest_piece : ℕ
suggest_piece = 13

abbrev pub have_all : ℕ
have_all = 14

abbrev pub have_none : ℕ
have_none = 15

abbrev pub reject_request : ℕ
reject_request = 16

abbrev pub allowed_fast : ℕ
allowed_fast = 17
