-- ===== src/Shell/Execute/Safety.antt =====
-- What every key leaves in order: the cursor on the screen, and the line within its buffer.
