-- ===== src/AppManager/Files/Laws.antt =====
-- A file that was written if it had changed.
use statiko.Base.{
  String, ltb, length, Bool, true, false, ◌&&◌, ◌≡◌, ◌≢◌, refl, ◌∙◌, ◌⊎◌, inl, inr, Option, none,
  some, [], ◌∷◌, arith, if◌then◌else◌,
}
use statiko.Base.Exec.{Error, Result, ok, err}
use statiko.State.Types.{Bytes}
use statiko.Os.{OsError, FileSystem, IsLawful}
use statiko.AppManager.Bundles.{bytes_eq}
use statiko.AppManager.Bundles.Laws.{bytes_eq_lem}
use statiko.AppManager.Files.{
  write_file_if_changed, write_after_read, write_unless_same, updated_after,
}

bytes_eq_self : (b : Bytes) → bytes_eq b b ≡ true
unfolding bytes_eq
bytes_eq_self [] = refl
bytes_eq_self (x ∷ b) = ground (arith, bytes_eq_self b)

module _ (F : FileSystem) (L : IsLawful F) (p : String) (val : Bytes) where
  -- What a call that has not failed leaves: the file, and the same world if it says so.
  abbrev Leaves : F.World → Result Bool × F.World → Type 0
  Leaves w r = (b : Bool) → r.0 ≡ ok b → (F.read_file p r.1 ≡ inr val) × (b ≡ false → r.1 ≡ w)

  updated_lem :
      (w : F.World) (r : Option Error × F.World)
      → (r.0 ≡ none → F.read_file p r.1 ≡ inr val)
      → Leaves w (updated_after F r)
  updated_lem w (none, v) there b h = (there refl, λ e. cc)
  updated_lem w (some e, v) there b h = absurd cc

  unless_lem :
      (read : Bytes) (w : F.World)
      → (ltb 0 (length read) ≡ true → F.read_file p w ≡ inr read)
      → Leaves w (write_unless_same F p val read w)
  unless_lem read w there = split (ltb 0 (length read) && bytes_eq read val) refl
    where
      split :
          (c : Bool)
          → (ltb 0 (length read) && bytes_eq read val) ≡ c
          → Leaves w (if c then (ok false, w) else updated_after F (F.write_file p val w))
      split true same b h =
          ((there (ground arith)) ∙ rw (bytes_eq_lem read val (ground arith)) refl, λ e. refl)
      split false other b h = updated_lem w (F.write_file p val w) (L.read-write p val w) b h

  read_lem :
      (r : OsError ⊎ Bytes) (w : F.World)
      → F.read_file p w ≡ r
      → Leaves w (write_after_read F p val r w)
  read_lem (inr b) w e = unless_lem b w (λ _. e)
  read_lem (inl x) w e = split x.is_not_exist
    where
      split : (c : Bool) → Leaves w (if c then write_unless_same F p val [] w else (err x.text, w))
      split true b h = unless_lem [] w (λ h. absurd (ground (arith, h))) b h
      split false b h = absurd cc

  -- When `writeFileIfChanged` returns without an error the file holds the given bytes, and if it
  -- returns false, nothing has been written.
  pub write_file_if_changed_lem :
      (w : F.World) (b : Bool)
      → (write_file_if_changed F p val w).0 ≡ ok b
      → (F.read_file p (write_file_if_changed F p val w).1 ≡ inr val)
        × (b ≡ false → (write_file_if_changed F p val w).1 ≡ w)
  unfolding write_file_if_changed
  write_file_if_changed_lem w b h = read_lem (F.read_file p w) w refl b h

  -- After a call of `writeFileIfChanged` without an error, a second one changes nothing and returns
  -- false, if the given bytes are not empty.
  pub write_file_if_changed_twice :
      (w : F.World) (b : Bool)
      → val ≢ []
      → (write_file_if_changed F p val w).0 ≡ ok b
      → write_file_if_changed F p val (write_file_if_changed F p val w).1
        ≡ (ok false, (write_file_if_changed F p val w).1)
  unfolding write_file_if_changed
  write_file_if_changed_twice w b nonempty h =
      let v = (write_file_if_changed F p val w).1 in
      let (there, same) = write_file_if_changed_lem w b h in again v there
    where
      pos : (x : Bytes) → x ≢ [] → ltb 0 (length x) ≡ true
      pos [] h = absurd (h refl)
      pos (x ∷ b) h = ground arith

      again :
          (v : F.World)
          → F.read_file p v ≡ inr val
          → write_file_if_changed F p val v ≡ (ok false, v)
      again v there = rw (write_file_if_changed, there, pos val nonempty, bytes_eq_self val) refl
