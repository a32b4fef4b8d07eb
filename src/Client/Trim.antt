-- ===== src/Client/Trim.antt =====
-- bytes.Trim on a repaired chunk: the padding of the XOR is zero bytes behind the block.
