-- ===== src/Worker/Tests.antt =====
-- The theorems about the background workers on concrete values.

-- A certificate that expires in two days.
