-- ===== src/Torrent/Metainfo/Agree.antt =====
-- A torrent file and the info dictionary of a magnet link give the same torrent.
