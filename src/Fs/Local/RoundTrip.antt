-- ===== src/Fs/Local/RoundTrip.antt =====
-- What has been stored in the local repository is found there.
use statiko.Base.{
  String, Bool, true, false, ◌≡◌, ◌≢◌, refl, ◌∙◌, ◌⊎◌, inl, inr, Option, none, some, [], ◌∷◌,
  Bool-cases,
}
use statiko.Base.Dict.{Dict, lookup}
use statiko.Base.Exec.{Error, Result, ok, err, panic, of_error, continue}
use statiko.State.Types.{Bytes}
use statiko.Os.{FileSystem, IsLawful, file_exists}
use statiko.Fs.Local.{
  LocalLib, is_invalid, data_path, metadata_path, metadata_of, get, found, set_with_context, create,
  create_unless, store_metadata, store_encoded, undo, make_parent, get_metadata, set_metadata,
  replace_metadata, write_encoded, when_there, if_there, decode, decoded,
}
use statiko.Fs.Local.Laws.{paths_differ}

-- Encoding gives some text, and decoding it gives the same map back.
pub record IsFaithful (J : LocalLib) : Type 0 where
  pub decodes :
      (d : Dict String) (b : Bytes)
      → J.marshal d ≡ inr b
      → (b ≢ [])
        × ((d' : Dict String) × (J.unmarshal b ≡ inr d')
            × ((k : String) → lookup k d' ≡ lookup k d))

module _ (F : FileSystem) (L : IsLawful F) (J : LocalLib) where
  -- The value that a reader finds.
  abbrev pub Finds : Bytes → Dict String → Result (Option (Bytes × Option (Dict String))) → Type 0
  Finds b d r =
      (d' : Dict String) × (r ≡ ok (some (b, some d'))) × ((k : String) → lookup k d' ≡ lookup k d)

  decode_lem :
      (x : Bytes) (d' : Dict String) → x ≢ [] → J.unmarshal x ≡ inr d' → decode F J x ≡ ok (some d')
  decode_lem [] d' nonempty h = absurd (nonempty refl)
  decode_lem (y ∷ x) d' nonempty h = rw h refl

  found_lem :
      (b : Bytes) (d' : Dict String) (x : Bytes)
      → b ≢ []
      → x ≢ []
      → J.unmarshal x ≡ inr d'
      → found F J (inr b) (inr x) ≡ ok (some (b, some d'))
  unfolding metadata_of
  found_lem [] d' x nonempty n h = absurd (nonempty refl)
  found_lem (y ∷ b) d' x nonempty n h = rw (decode_lem x d' n h) refl

  run_lem :
      (p : Option Error × F.World) (f : F.World → Result (Unit {0}) × F.World)
      → (continue (of_error p.0) (λ _. f) p.1).0 ≡ ok tt
      → (p.0 ≡ none) × ((f p.1).0 ≡ ok tt) × ((continue (of_error p.0) (λ _. f) p.1) ≡ f p.1)
  run_lem (none, w) f h = (refl, h, refl)
  run_lem (some e, w) f h = absurd cc

  undo_lem :
      (name : String) (p : Option Error × F.World)
      → (undo F J name p).0 ≡ ok tt
      → (p.0 ≡ none) × ((undo F J name p).1 ≡ p.1)
  undo_lem name (none, w) h = (refl, refl)
  undo_lem name (some e, w) h = absurd cc

  store_lem :
      IsFaithful J
      → (name : String) (b : Bytes) (d : Dict String) (r : Error ⊎ Bytes) (w : F.World)
      → J.marshal d ≡ r
      → b ≢ []
      → F.read_file (data_path F J name) w ≡ inr b
      → (store_encoded F J name r w).0 ≡ ok tt
      → Finds b d (
          found F J
            (F.read_file (data_path F J name) (store_encoded F J name r w).1)
            (F.read_file (metadata_path F J name) (store_encoded F J name r w).1))
  store_lem faithful name b d (inl e) w m nonempty there h = absurd cc
  store_lem faithful name b d (inr x) w m nonempty there h =
      let path = metadata_path F J name in
      let (wrote, same) = undo_lem name (F.write_file path x w) h in
      let (n, (d', decoded, agree)) = faithful.decodes d x m in
      let still =
        L.read-write_other path (data_path F J name) x w (paths_differ F L J name) ∙ there in
      (
        d',
        rw (same, still, L.read-write path x w wrote) (found_lem b d' x nonempty n decoded),
        agree,
      )

  create_lem :
      IsFaithful J
      → (name : String) (b : Bytes) (k : String) (v : String) (d : Dict String) (r : Result Bool)
        (w : F.World)
      → b ≢ []
      → (create_unless F J name b ((k, v) ∷ d) r w).0 ≡ ok tt
      → Finds b ((k, v) ∷ d) (
          found F J
            (F.read_file (data_path F J name) (create_unless F J name b ((k, v) ∷ d) r w).1)
            (F.read_file (metadata_path F J name) (create_unless F J name b ((k, v) ∷ d) r w).1))
  create_lem faithful name b k v d (ok true) w nonempty h = absurd cc
  create_lem faithful name b k v d (ok false) w nonempty h =
      let p = F.write_file (data_path F J name) b w in
      let (wrote, stored, same) = run_lem p (store_metadata F J name ((k, v) ∷ d)) h in
      rw same (
        store_lem faithful name b ((k, v) ∷ d) (J.marshal ((k, v) ∷ d)) p.1 refl nonempty
          (L.read-write (data_path F J name) b w wrote) stored)
  create_lem faithful name b k v d (err e) w nonempty h = absurd cc
  create_lem faithful name b k v d panic w nonempty h = absurd cc

  -- Where metadata can be decoded after it has been encoded: when `Set` of a bundle that is not empty,
  -- with metadata that is not empty, has returned nil, `Get` gives the bundle, and metadata with the
  -- same values.
  pub get-set_with_context :
      IsFaithful J
      → (name : String) (b : Bytes) (k : String) (v : String) (d : Dict String) (w : F.World)
      → b ≢ []
      → (set_with_context F J name b ((k, v) ∷ d) w).0 ≡ ok tt
      → Finds b ((k, v) ∷ d) (get F J name (set_with_context F J name b ((k, v) ∷ d) w).1)
  unfolding set_with_context get
  get-set_with_context faithful name b k v d w nonempty h = elim (Bool-cases (is_invalid name)) [
    | inl bad ↦ absurd (refused (rw bad at h))
    | inr good ↦ rw good (
        made (make_parent F J (J.parent name) w).0 (make_parent F J (J.parent name) w).1
          (rw good at h))
  ]
    where
      refused : {e : Error} → err e ≡ ok (tt {0}) → ⊥
      refused h = cc

      made :
          (r : Result (Unit {0})) (u : F.World)
          → (continue r (λ _. create F J name b ((k, v) ∷ d)) u).0 ≡ ok tt
          → Finds b ((k, v) ∷ d) (
              found F J
                (F.read_file
                  (data_path F J name)
                  (continue r (λ _. create F J name b ((k, v) ∷ d)) u).1)
                (F.read_file
                  (metadata_path F J name)
                  (continue r (λ _. create F J name b ((k, v) ∷ d)) u).1))
      made (ok x) u done =
          create_lem faithful name b k v d (file_exists (F.stat (data_path F J name) u)) u nonempty
            done
      made (err e) u done = absurd cc
      made panic u done = absurd cc

  -- The metadata that `SetMetadata` has written.
  abbrev pub Reads : Dict String → Result (Option (Dict String)) → Type 0
  Reads d r = (d' : Dict String) × (r ≡ ok (some d')) × ((k : String) → lookup k d' ≡ lookup k d)

  of_error_lem : (e : Option Error) → of_error e ≡ ok tt → e ≡ none
  of_error_lem none h = refl
  of_error_lem (some e) h = absurd cc

  encoded_lem :
      IsFaithful J
      → (name : String) (d : Dict String) (r : Error ⊎ Bytes) (w : F.World) → J.marshal d ≡ r
      → (write_encoded F J name r w).0 ≡ ok tt
      → Reads d
          (metadata_of F J (F.read_file (metadata_path F J name) (write_encoded F J name r w).1))
        × (F.stat (data_path F J name) (write_encoded F J name r w).1
            ≡ F.stat (data_path F J name) w)
  unfolding metadata_of
  encoded_lem faithful name d (inl e) w m h = absurd cc
  encoded_lem faithful name d (inr x) w m h =
      let path = metadata_path F J name in
      let wrote = of_error_lem (F.write_file path x w).0 h in
      let (n, (d', decoded, agree)) = faithful.decodes d x m in
      (
        (d', rw (L.read-write path x w wrote, decode_lem x d' n decoded) refl, agree),
        L.stat-write_other path (data_path F J name) x w (paths_differ F L J name),
      )

  there_lem :
      IsFaithful J
      → (name : String) (k : String) (v : String) (d : Dict String) (r : Result Bool) (w : F.World)
      → file_exists (F.stat (data_path F J name) w) ≡ r
      → (if_there F J (replace_metadata F J name ((k, v) ∷ d)) r w).0 ≡ ok tt
      → Reads
          ((k, v) ∷ d)
          (when_there F J name
            (λ u. (metadata_of F J (F.read_file (metadata_path F J name) u), u))
            (if_there F J (replace_metadata F J name ((k, v) ∷ d)) r w).1).0
  there_lem faithful name k v d (ok true) w e h =
      let (reads, same) =
        encoded_lem faithful name ((k, v) ∷ d) (J.marshal ((k, v) ∷ d)) w refl h in
      rw (same, e) reads
  there_lem faithful name k v d (ok false) w e h = absurd cc
  there_lem faithful name k v d (err x) w e h = absurd cc
  there_lem faithful name k v d panic w e h = absurd cc

  -- Where metadata can be decoded after it has been encoded: when `SetMetadata` of metadata that is
  -- not empty has returned nil, `GetMetadata` gives the same values.
  pub get_metadata-set_metadata :
      IsFaithful J
      → (name : String) (k : String) (v : String) (d : Dict String) (w : F.World)
      → (set_metadata F J name ((k, v) ∷ d) w).0 ≡ ok tt
      → Reads ((k, v) ∷ d) (get_metadata F J name (set_metadata F J name ((k, v) ∷ d) w).1).0
  unfolding set_metadata get_metadata
  get_metadata-set_metadata faithful name k v d w h = elim (Bool-cases (is_invalid name)) [
    | inl bad ↦ absurd (refused (rw bad at h))
    | inr good ↦ rw good (
        there_lem faithful name k v d (file_exists (F.stat (data_path F J name) w)) w refl
          (rw good at h))
  ]
    where
      refused : {e : Error} → err e ≡ ok (tt {0}) → ⊥
      refused h = cc
