-- ===== src/State/Manager/Certificates/Laws.antt =====
-- Certificates: the bytes that are stored give the same pair back.
use statiko.Base.{
  ℕ, ◌+◌, ◌-◌, drop-drop, ◌%◌, ◌^◌, ◌≡◌, ◌<◌, ◌≤◌, ◌++◌, refl, length, length-append, drop, slice,
  take_all, take-append_left, drop-append_left, arith,
}
use statiko.Base.Exec.{ok}
use statiko.State.Types.{Bytes}
use statiko.State.Manager.Certificates.{put_uint32, uint32, uint32_mod, serialize, unserialize}

-- A length below 2 ^ 32 is read back as it was written.
pub uint32-put_uint32 : (n : ℕ) → n < 2 ^ 32 → uint32 (put_uint32 n) ≡ n
unfolding put_uint32 uint32
uint32-put_uint32 n h = omega arith

module _ (key cert : Bytes) (hk : length key ≤ 204800) (hc : length cert ≤ 204800) where
  abbrev body : Bytes
  body = serialize key cert

  length-body : length body ≡ 8 + length key + length cert
  unfolding serialize put_uint32
  length-body = omega (arith, length-append key cert)

  read_key_len : uint32 (slice body 0 4) ≡ length key
  unfolding serialize put_uint32 uint32
  read_key_len = omega arith

  read_cert_len : uint32 (slice body 4 8) ≡ length cert
  unfolding serialize put_uint32 uint32
  read_cert_len = omega arith

  drop_header : drop 8 body ≡ key ++ cert
  unfolding serialize put_uint32
  drop_header = refl

  read_key : slice body 8 (length key + 8) ≡ key
  read_key = rw drop_header (take-append_left key cert (length key + 8 - 8) (omega arith))

  read_cert : slice body (length key + 8) (length body) ≡ cert
  read_cert =
      rw (drop-drop 8 (length key), drop_header, drop-append_left key cert (length key) refl)
        (take_all cert (length body - (length key + 8)) (omega (arith, length-body)))

  -- A pair of at most 204800 bytes each, neither of them empty, is read back as it was written.
  pub unserialize-serialize : 0 < length key → 0 < length cert → unserialize body ≡ ok (key, cert)
  unfolding unserialize
  unserialize-serialize pk pc =
      let middle : (length key + 8) % uint32_mod ≡ length key + 8 = omega arith in
      rw (read_key_len, read_cert_len, unserialize)
        (rw (middle, unserialize) (ground (arith, length-body, read_key, read_cert)))
