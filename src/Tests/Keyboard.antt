-- ===== src/Tests/Keyboard.antt =====
-- A sequence of keys, and the theorem on the keyboard at it.
