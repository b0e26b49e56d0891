-- ===== src/Server/Thread/Handshake/Safety.antt =====
-- What holds of the workers whatever the order of the accesses.
