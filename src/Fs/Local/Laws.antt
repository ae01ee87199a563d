-- ===== src/Fs/Local/Laws.antt =====
-- What deleting a bundle does to the repository.
use Prim.Native.String.{len}
use text.Mathlib.Text.{starts_with}
use text.Mathlib.TextPositions.{len-append, slice-append_right, starts_with-append}
use mathlib.Core.Path.{subst}
use statiko.Base.{
  String, ◌<>◌, false, ◌≡◌, ◌≢◌, refl, sym, ap, ◌∙◌, ◌⊎◌, inl, inr, Option, none, some, arith,
  Bool-cases,
}
use statiko.Base.Exec.{Error, ok, err}
use statiko.State.Types.{Bytes}
use statiko.Os.{OsError, FileSystem, IsLawful, IsMissing}
use statiko.Fs.Local.{
  LocalLib, is_invalid, data_path, metadata_path, get, found, delete, removed, remove_both,
}

pub append_left : (p a b : String) → (p <> a) ≡ (p <> b) → a ≡ b
append_left p a b e =
    let lengths : len a ≡ len b = omega (arith, ap len e, len-append p a, len-append p b) in
    sym (slice-append_right p a) ∙ (rw (e, lengths) refl) ∙ slice-append_right p b

module _ (F : FileSystem) (L : IsLawful F) (J : LocalLib) where
  -- A file of a bundle is not the one of its metadata.
  pub paths_differ : (name : String) → metadata_path F J name ≢ data_path F J name
  paths_differ name e = omega (
    arith,
    ap len (append_left J.base_path (".metadata." <> name) name e),
    len-append ".metadata." name,
  )

  removed_lem : (e f : Option OsError) → removed F J e f ≡ ok tt → e ≡ none
  removed_lem none f h = refl
  removed_lem (some e) f h = ground (arith, h)

  missing_found : (r m : OsError ⊎ Bytes) → IsMissing r → found F J r m ≡ ok none
  missing_found (inl e) m (x, same, gone) = ground (arith, same, gone)
  missing_found (inr b) m (x, same, gone) = absurd cc

  -- What a successful `Delete` has done.
  delete_lem :
      (name : String) (w : F.World)
      → (delete F J name w).0 ≡ ok tt
      → (is_invalid name ≡ false)
        × IsMissing (F.read_file (data_path F J name) (delete F J name w).1)
  unfolding delete
  delete_lem name w h = elim (Bool-cases (is_invalid name)) [
    | inl bad ↦ absurd (refused (rw bad at h))
    | inr good ↦ (good, rw good (gone (rw good at h)))
  ]
    where
      refused : {e : Error} → err e ≡ ok (tt {0}) → ⊥
      refused h = cc

      gone :
          (remove_both F J name w).0 ≡ ok tt
          → IsMissing (F.read_file (data_path F J name) (remove_both F J name w).1)
      gone done =
          let v = (F.remove (data_path F J name) w).1 in
          subst IsMissing
            (sym (
              L.read-remove_other (metadata_path F J name) (data_path F J name) v
                (paths_differ name)))
            (L.read-remove (data_path F J name) w (
              removed_lem (F.remove (data_path F J name) w).0
                (F.remove (metadata_path F J name) v).0 done))

  -- After `Delete` has returned nil, `Get` finds nothing under that name.
  pub get-delete :
      (name : String) (w : F.World)
      → (delete F J name w).0 ≡ ok tt
      → get F J name (delete F J name w).1 ≡ ok none
  unfolding get
  get-delete name w h =
      let (good, gone) = delete_lem name w h in
      rw good (
        missing_found (F.read_file (data_path F J name) (delete F J name w).1)
          (F.read_file (metadata_path F J name) (delete F J name w).1) gone)

  -- The files of another bundle are different ones.
  valid_lem : (other name : String) → is_invalid other ≡ false → other ≢ (".metadata." <> name)
  unfolding is_invalid
  valid_lem other name good e =
      let hidden = starts_with-append ".metadata." name in
      let visible : starts_with other ".metadata." ≡ false = ground arith in
      cc (sym visible ∙ rw e refl ∙ hidden)

  kept_lem :
      (name other : String) (w : F.World) (q : String)
      → data_path F J name ≢ q
      → metadata_path F J name ≢ q
      → F.read_file q (remove_both F J name w).1 ≡ F.read_file q w
  kept_lem name other w q a b =
      L.read-remove_other (metadata_path F J name) q (F.remove (data_path F J name) w).1 b
      ∙ L.read-remove_other (data_path F J name) q w a

  -- `Delete` leaves every other bundle and its metadata, whatever its outcome, where both names are
  -- valid.
  pub get-delete_other :
      (name other : String) (w : F.World)
      → name ≢ other
      → is_invalid name ≡ false
      → is_invalid other ≡ false
      → get F J other (delete F J name w).1 ≡ get F J other w
  unfolding get delete
  get-delete_other name other w differs good fine =
      rw
        (
          good,
          fine,
          kept_lem name other w (data_path F J other) data_data meta_data,
          kept_lem name other w (metadata_path F J other) data_meta meta_meta,
        )
        refl
    where
      data_data : data_path F J name ≢ data_path F J other
      data_data e = differs (append_left J.base_path name other e)

      meta_data : metadata_path F J name ≢ data_path F J other
      meta_data e =
          valid_lem other name fine (sym (append_left J.base_path (".metadata." <> name) other e))

      data_meta : data_path F J name ≢ metadata_path F J other
      data_meta e =
          valid_lem name other good (append_left J.base_path name (".metadata." <> other) e)

      meta_meta : metadata_path F J name ≢ metadata_path F J other
      meta_meta e = differs (
          append_left ".metadata." name other
            (append_left J.base_path (".metadata." <> name) (".metadata." <> other) e))
