-- ===== src/AppManager/Bundles/Laws.antt =====
-- What a fetched bundle is known to be.
use Prim.Native.String.{len}
use text.Mathlib.TextPositions.{len-append}
use mathlib.Core.Path.{subst}
use statiko.Base.{
  String, ◌<>◌, ◌==◌, Bool, true, false, ◌&&◌, ◌≡◌, ◌≢◌, refl, ap, ◌∙◌, inl, inr, Option, none,
  some, [], ◌∷◌, arith, Bool-cases,
}
use statiko.Base.Dict.{Dict, lookup}
use statiko.Base.Exec.{Error, Result, ok, err, panic, of_error}
use statiko.State.Types.{Bytes}
use statiko.Os.{FileSystem, IsLawful, IsMissing}
use statiko.AppManager.Bundles.{
  BundleEnv, bytes_eq, cache_path, type_path, wanted_hash, wanted_signature, check_hash,
  check_signature, unless_refused, write_type, after_signature, after_hash, written, store_bundle,
  with_signature, with_hash, with_bundle, fetch_bundle, typed, has_none,
}

pub bytes_eq_lem : (a b : Bytes) → bytes_eq a b ≡ true → a ≡ b
unfolding bytes_eq
bytes_eq_lem [] [] h = refl
bytes_eq_lem [] (y ∷ b) h = cc
bytes_eq_lem (x ∷ a) [] h = cc
bytes_eq_lem (x ∷ a) (y ∷ b) h = ground (arith, bytes_eq_lem a b)

module _ (F : FileSystem) (L : IsLawful F) (E : BundleEnv F) where
  paths_differ : (bundle : String) → type_path F E bundle ≢ cache_path F E bundle
  paths_differ bundle e = omega (
    arith,
    ap len e,
    len-append E.app_root ("cache/.type." <> bundle),
    len-append E.app_root ("cache/" <> bundle),
    len-append "cache/.type." bundle,
    len-append "cache/" bundle,
  )

  -- What is known of a bundle in the cache.
  pub record IsVerified (bundle : String) (w w' : F.World) : Type 0 where
    pub content : Bytes
    pub meta : Dict String
    pub got : E.get bundle w ≡ ok (some (content, meta))
    pub cached : F.read_file (cache_path F E bundle) w' ≡ inr content
    pub hash : Option Bytes
    pub wanted : wanted_hash F E meta ≡ ok hash
    pub hashed : (h : Bytes) → hash ≡ some h → h ≡ E.sha256 content
    pub signature : Option Bytes
    pub found : wanted_signature F E meta ≡ ok signature
    pub present : E.sign_required ≡ true → signature ≢ none
    pub signed :
        (s : Bytes)
        → signature ≡ some s
        → (k : E.Key) × (E.key ≡ some k) × (E.verify k (E.sha256 content) s ≡ none)

  write_type_lem :
      (bundle : String) (t : Option String) (w : F.World)
      → (write_type F E bundle t w).0 ≡ ok tt
      → F.read_file (cache_path F E bundle) (write_type F E bundle t w).1
        ≡ F.read_file (cache_path F E bundle) w
  unfolding write_type
  write_type_lem bundle none w h = refl
  write_type_lem bundle (some t) w h = elim (Bool-cases (t == "")) [
    | inl empty ↦ rw empty refl
    | inr named ↦
        let path = type_path F E bundle in
        rw named (
          split (F.write_file path (E.to_bytes t) w).0 (F.write_file path (E.to_bytes t) w).1
            (L.read-write_other path (cache_path F E bundle) (E.to_bytes t) w (paths_differ bundle))
            (rw named at h))
  ]
    where
      split :
          (r : Option Error) (w' : F.World)
          → F.read_file (cache_path F E bundle) w' ≡ F.read_file (cache_path F E bundle) w
          → (typed F E bundle (r, w')).0 ≡ ok tt
          → F.read_file (cache_path F E bundle) (typed F E bundle (r, w')).1
            ≡ F.read_file (cache_path F E bundle) w
      split none w' same h = same
      split (some e) w' same h = absurd cc

  check_hash_lem :
      (o : Option Bytes) (hashed h : Bytes)
      → check_hash F E o hashed ≡ ok tt
      → o ≡ some h
      → h ≡ hashed
  unfolding check_hash
  check_hash_lem none hashed h passed e = absurd cc
  check_hash_lem (some x) hashed h passed e = ground (arith, bytes_eq_lem x hashed)

  of_error_lem : (e : Option Error) → of_error e ≡ ok tt → e ≡ none
  of_error_lem none h = refl
  of_error_lem (some e) h = absurd cc

  check_signature_lem :
      (k : Option E.Key) (o : Option Bytes) (hashed s : Bytes)
      → check_signature F E k o hashed ≡ ok tt
      → o ≡ some s
      → (key : E.Key) × (k ≡ some key) × (E.verify key hashed s ≡ none)
  unfolding check_signature
  check_signature_lem k none hashed s passed e = absurd cc
  check_signature_lem none (some x) hashed s passed e = absurd cc
  check_signature_lem (some key) (some x) hashed s passed e = (
    key,
    refl,
    of_error_lem (E.verify key hashed s)
        (subst (λ y. of_error (E.verify key hashed y) ≡ ok tt) (inside e) passed),
  )
    where
      inside : {a b : Bytes} → some a ≡ some b → a ≡ b
      inside h = cc

  module _ (bundle : String) (w : F.World) (content : Bytes) (meta : Dict String)
      (got : E.get bundle w ≡ ok (some (content, meta))) where
    signature_step :
        (sign : Option Bytes) (r : Result (Unit {0})) (v : F.World)
        → (after_signature F E bundle meta r v).0 ≡ ok tt
        → (r ≡ ok tt)
          × (F.read_file (cache_path F E bundle) (after_signature F E bundle meta r v).1
              ≡ F.read_file (cache_path F E bundle) v)
    signature_step sign (ok x) v h = (refl, write_type_lem bundle (lookup "type" meta) v h)
    signature_step sign (err e) v h = absurd cc
    signature_step sign panic v h = absurd cc

    hash_step :
        (sign : Option Bytes) (r : Result (Unit {0})) (v : F.World)
        → (after_hash F E bundle meta sign (E.sha256 content) r v).0 ≡ ok tt
        → (r ≡ ok tt)
          × (check_signature F E E.key sign (E.sha256 content) ≡ ok tt)
          × (F.read_file
                (cache_path F E bundle)
                (after_hash F E bundle meta sign (E.sha256 content) r v).1
              ≡ F.read_file (cache_path F E bundle) v)
    hash_step sign (ok x) v h =
        let (a, b) = signature_step sign (check_signature F E E.key sign (E.sha256 content)) v h in
        (refl, a, b)
    hash_step sign (err e) v h = absurd cc
    hash_step sign panic v h = absurd cc

    written_step :
        (hash sign : Option Bytes) (r : Option Error) (v : F.World)
        → (r ≡ none → F.read_file (cache_path F E bundle) v ≡ inr content)
        → (written F E bundle (content, meta) hash sign (r, v)).0 ≡ ok tt
        → (check_hash F E hash (E.sha256 content) ≡ ok tt)
          × (check_signature F E E.key sign (E.sha256 content) ≡ ok tt)
          × (F.read_file
                (cache_path F E bundle)
                (written F E bundle (content, meta) hash sign (r, v)).1
              ≡ inr content)
    written_step hash sign (some e) v there h = absurd cc
    written_step hash sign none v there h =
        let (a, b, same) = hash_step sign (check_hash F E hash (E.sha256 content)) v h in
        (a, b, same ∙ there refl)

    present_lem :
        (sign : Option Bytes)
        → (has_none F E sign && E.sign_required) ≡ false
        → E.sign_required ≡ true
        → sign ≢ none
    present_lem none h required = absurd (ground arith)
    present_lem (some s) h required = cc

    store_step :
        (hash sign : Option Bytes)
        → wanted_hash F E meta ≡ ok hash
        → wanted_signature F E meta ≡ ok sign
        → (store_bundle F E bundle (content, meta) hash sign w).0 ≡ ok tt
        → IsVerified bundle w (store_bundle F E bundle (content, meta) hash sign w).1
    unfolding store_bundle
    store_step hash sign wanted found h = split (has_none F E sign && E.sign_required) refl h
      where
        conclude :
            {v : F.World}
            → (E.sign_required ≡ true → sign ≢ none)
            → (check_hash F E hash (E.sha256 content) ≡ ok tt)
              × (check_signature F E E.key sign (E.sha256 content) ≡ ok tt)
              × (F.read_file (cache_path F E bundle) v ≡ inr content)
            → IsVerified bundle w v
        conclude present (a, b, cached) = record {
          content = content;
          meta = meta;
          got = got;
          cached = cached;
          hash = hash;
          wanted = wanted;
          hashed = λ x e. check_hash_lem hash (E.sha256 content) x a e;
          signature = sign;
          found = found;
          present = present;
          signed = λ s e. check_signature_lem E.key sign (E.sha256 content) s b e;
        }

        split :
            (b : Bool)
            → (has_none F E sign && E.sign_required) ≡ b
            → (unless_refused F E bundle (content, meta) hash sign b w).0 ≡ ok tt
            → IsVerified bundle w (unless_refused F E bundle (content, meta) hash sign b w).1
        split true refused done = absurd cc
        split false allowed done =
            let path = cache_path F E bundle in
            conclude (present_lem sign allowed) (
              written_step hash sign (F.write_file path content w).0 (F.write_file path content w).1
                (L.read-write path content w) done)

    signed_step :
        (hash : Option Bytes) (r : Result (Option Bytes))
        → wanted_hash F E meta ≡ ok hash
        → wanted_signature F E meta ≡ r
        → (with_signature F E bundle (content, meta) hash r w).0 ≡ ok tt
        → IsVerified bundle w (with_signature F E bundle (content, meta) hash r w).1
    signed_step hash (ok sign) a b h = store_step hash sign a b h
    signed_step hash (err e) a b h = absurd cc
    signed_step hash panic a b h = absurd cc

    hashed_step :
        (r : Result (Option Bytes))
        → wanted_hash F E meta ≡ r
        → (with_hash F E bundle (content, meta) r w).0 ≡ ok tt
        → IsVerified bundle w (with_hash F E bundle (content, meta) r w).1
    hashed_step (ok hash) a h = signed_step hash (wanted_signature F E meta) a refl h
    hashed_step (err e) a h = absurd cc
    hashed_step panic a h = absurd cc

  got_step :
      (bundle : String) (w : F.World) (r : Result (Option (Bytes × Dict String)))
      → E.get bundle w ≡ r
      → (with_bundle F E bundle r w).0 ≡ ok tt
      → IsVerified bundle w (with_bundle F E bundle r w).1
  got_step bundle w (ok none) e h = absurd cc
  got_step bundle w (ok (some (b, meta))) e h =
      hashed_step bundle w b meta e (wanted_hash F E meta) refl h
  got_step bundle w (err x) e h = absurd cc
  got_step bundle w panic e h = absurd cc

  -- When `FetchBundle` returns nil, the file in the cache is the bundle that the repository has; its
  -- SHA-256 is the one in the metadata, if there is one of 32 bytes; a signature of 512 bytes in the
  -- metadata is one of that hash by the key of the node; and there is a signature if the node
  -- requires one.
  pub fetch_bundle-IsVerified :
      (bundle : String) (w : F.World)
      → (fetch_bundle F E bundle w).0 ≡ ok tt
      → IsVerified bundle w (fetch_bundle F E bundle w).1
  unfolding fetch_bundle
  fetch_bundle-IsVerified bundle w h = got_step bundle w (E.get bundle w) refl h

  mismatch_lem :
      (h hashed : Bytes) → h ≢ hashed → check_hash F E (some h) hashed ≡ err "hash does not match"
  unfolding check_hash
  mismatch_lem h hashed differs = elim (Bool-cases (bytes_eq h hashed)) [
    | inl same ↦ absurd (differs (bytes_eq_lem h hashed same))
    | inr other ↦ rw other refl
  ]

  -- A bundle that was written to the cache, for which any required signature is present, and whose
  -- SHA-256 is not the one in the metadata, is an error, and no longer in the cache if its removal has
  -- succeeded.
  pub fetch_bundle_rejected :
      (bundle : String) (w : F.World) (content : Bytes) (meta : Dict String) (h : Bytes)
      (sign : Option Bytes)
      → E.get bundle w ≡ ok (some (content, meta))
      → wanted_hash F E meta ≡ ok (some h)
      → wanted_signature F E meta ≡ ok sign
      → (has_none F E sign && E.sign_required) ≡ false
      → (v : F.World) → F.write_file (cache_path F E bundle) content w ≡ (none, v)
      → h ≢ E.sha256 content
      → (F.remove (cache_path F E bundle) v).0 ≡ none
      → ((fetch_bundle F E bundle w).0 ≡ err "hash does not match")
        × IsMissing (F.read_file (cache_path F E bundle) (fetch_bundle F E bundle w).1)
  unfolding fetch_bundle store_bundle
  fetch_bundle_rejected bundle w content meta h sign got wanted found allowed v wrote differs gone =
      rw (got, wanted, found, allowed, wrote, mismatch_lem h (E.sha256 content) differs)
        (refl, L.read-remove (cache_path F E bundle) v gone)
