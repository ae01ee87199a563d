-- ===== src/Webserver/Files/Laws.antt =====
-- What the loop of `SyncConfiguration` over the desired files leaves on the disk.
use Prim.Native.String
use Prim.Native.String.{len}
use mathlib.Core.Path.{subst}
use statiko.Base.{
  string_dec, ◌-◌, String, ◌<>◌, false, arith, ◌==◌, Bool, true, false, ◌||◌, ◌≡◌, ◌≢◌, refl, sym,
  ap, ◌∙◌, ◌⊎◌, inl, inr, Option, none, some, List, [], ◌∷◌, Bool-cases, if◌then◌else◌,
}
use statiko.Base.Dict.{Dict, lookup}
use statiko.Base.Entries.{AreDifferent, in_tail, of_tail, nothing, at_head, of_head, other_key}
use statiko.Base.Steps.{continued, kept_bind}
use statiko.Base.Exec.{Error, Result, ok, err, continue, of_error, pure, ◌>>◌}
use statiko.State.Types.{Bytes, SiteState}
use statiko.State.Store.{StateStore}
use statiko.Os.{OsError, FileSystem, IsLawful, IsMissing, run}
use statiko.AppManager.Bundles.{bytes_eq}
use statiko.AppManager.Bundles.Laws.{bytes_eq_lem}
use statiko.AppManager.Local.{Local, on_world}
use statiko.Webserver.Manifest.{TextLib}
use statiko.Webserver.Server.{Shell, passed, config_test}
use statiko.Fs.Local.Laws.{append_left}
use statiko.Webserver.Files.{
  NginxLib, path_of, marked, remove_key, keep_or_remove, is_site_key, test_key, write_key, sync_key,
  go_on, sync_files,
}

-- The test has found the configuration valid.
abbrev pub Passes : {F : FileSystem} → Shell F → String × Option Error → Type 0
Passes C r = (r.1 ≡ none) × ((C.trim_space r.0 == "") ≡ true)

-- The test has refused the configuration.
abbrev pub Refuses : {F : FileSystem} → Shell F → String × Option Error → Type 0
Refuses C r = (r.1 ≡ some "exit status 1") ⊎ ((r.1 ≡ none) × ((C.trim_space r.0 == "") ≡ false))

passed_lem :
    (F : FileSystem) (C : Shell F) (r : String × Option Error)
    → (passed F C r ≡ ok true → Passes C r) × (passed F C r ≡ ok false → Refuses C r)
passed_lem F C (s, none) = (λ h. (refl, ground (arith, h)), λ h. inr (refl, ground (arith, h)))
passed_lem F C (s, some e) = elim (Bool-cases (e == "exit status 1")) [
  | inl refused ↦ rw refused (λ h. absurd cc, λ h. inl (ground (arith, refused)))
  | inr other ↦ rw other (λ h. absurd cc, λ h. absurd cc)
]

-- The test leaves the files of the configuration as they are; it may write others, as the web server's
-- logs.
module _ (S : StateStore) (F : FileSystem) (L : IsLawful F) (C : Shell F) (X : TextLib)
    (N : NginxLib)
    (quiet : (w : F.World) (key : String)
      → F.read_file (N.config_path <> key) (C.execute C.test w).1
        ≡ F.read_file (N.config_path <> key) w)
    (sites : List SiteState) where
  abbrev at_path : String → Local S F → OsError ⊎ Bytes
  at_path q t = F.read_file (path_of S F C X N q) t.1

  marked_frame :
      (q site : String) (l : List SiteState) (t : Local S F)
      → at_path q (marked S F C X N site l t).1 ≡ at_path q t
  marked_frame q site [] t = refl
  marked_frame q site (s ∷ l) t = elim (Bool-cases (s.domain == site)) [
    | inl same ↦ rw same refl
    | inr other ↦ rw other (marked_frame q site l t)
  ]

  keep_frame :
      (q key : String) (b : Bool) (t : Local S F)
      → path_of S F C X N key ≢ path_of S F C X N q
      → at_path q (keep_or_remove S F C X N sites key b t).1 ≡ at_path q t
  keep_frame q key true t h = refl
  keep_frame q key false t h =
      kept_bind (at_path q) (at_path q t)
        (marked S F C X N (String.slice key 7 (len key - 5)) sites t)
        (λ _. on_world S F (remove_key S F C X N key))
        (marked_frame q (String.slice key 7 (len key - 5)) sites t)
        (λ a s. L.read-remove_other (path_of S F C X N key) (path_of S F C X N q) s.1 h)

  test_frame :
      (q key : String) (t : Local S F)
      → path_of S F C X N key ≢ path_of S F C X N q
      → at_path q (test_key S F C X N sites key t).1 ≡ at_path q t
  unfolding config_test
  test_frame q key t h = elim (Bool-cases (is_site_key S F C X N key)) [
    | inl site ↦ rw site (
        kept_bind (at_path q) (at_path q t) (on_world S F (config_test F C) t)
          (keep_or_remove S F C X N sites key) (quiet t.1 q) (λ b s. keep_frame q key b s h))
    | inr plain ↦ rw plain refl
  ]

  write_frame :
      (q key : String) (b : Bytes) (t : Local S F)
      → path_of S F C X N key ≢ path_of S F C X N q
      → at_path q (write_key S F C X N sites key b t).1 ≡ at_path q t
  write_frame q key b t h =
      kept_bind (at_path q) (at_path q t)
        (on_world S F (run F (F.write_file (path_of S F C X N key) b)) t)
        (λ _. test_key S F C X N sites key >> pure true)
        (L.read-write_other (path_of S F C X N key) (path_of S F C X N q) b t.1 h)
        (λ a s.
          kept_bind (at_path q) (at_path q s) (test_key S F C X N sites key s) (λ _. pure true)
            (test_frame q key s h) (λ a u. refl))

  sync_frame :
      (q key : String) (b : Bytes) (o : Option (Option Bytes)) (t : Local S F)
      → path_of S F C X N key ≢ path_of S F C X N q
      → at_path q (sync_key S F C X N sites key b o t).1 ≡ at_path q t
  sync_frame q key b none t h = write_frame q key b t h
  sync_frame q key b (some none) t h = write_frame q key b t h
  sync_frame q key b (some (some old)) t h = elim (Bool-cases (bytes_eq b old)) [
    | inl same ↦ rw same refl
    | inr other ↦ rw other (write_frame q key b t h)
  ]

  -- The test has been made of a disk that had the file, with the given verdict.
  abbrev pub WasTested : (String × Option Error → Type 0) → String → Bytes → Type 0
  WasTested Verdict key b =
      (v : F.World) × ((F.read_file (path_of S F C X N key) v ≡ inr b)
        × Verdict (C.execute C.test v).0)

  -- The file of a key has the given content, as it had before, or since it is none of a site, or since
  -- the configuration with it has been found valid. Or it is one of a site and is not there, since the
  -- configuration with it has been refused. `o` is what had been found before.
  abbrev pub IsSettled : Option (Option Bytes) → String → Bytes → F.World → Type 0
  IsSettled o key b w =
      ((F.read_file (path_of S F C X N key) w ≡ inr b)
        × ((o ≡ some (some b))
            ⊎ ((is_site_key S F C X N key ≡ false) ⊎ WasTested (Passes C) key b)))
      ⊎ ((is_site_key S F C X N key ≡ true)
          × IsMissing (F.read_file (path_of S F C X N key) w)
          × WasTested (Refuses C) key b)

  abbrev After : Type 0
  After = Result (Unit {0}) × Local S F

  removed_lem :
      (e : Option OsError)
      → (elim e as (λ _. Result (Unit {0})) [ none ↦ ok tt | some x ↦ err x.text ]) ≡ ok tt
      → e ≡ none
  removed_lem none h = refl
  removed_lem (some x) h = absurd cc

  wrote_lem : (e : Option Error) (a : Unit {0}) → of_error e ≡ ok a → e ≡ none
  wrote_lem none a h = refl
  wrote_lem (some x) a h = absurd cc

  keep-IsSettled :
      (o : Option (Option Bytes)) (key : String) (b : Bytes) (u : Bool) (v : F.World)
      (t : Local S F)
      → F.read_file (path_of S F C X N key) v ≡ inr b
      → passed F C (C.execute C.test v).0 ≡ ok u
      → F.read_file (path_of S F C X N key) t.1 ≡ inr b
      → is_site_key S F C X N key ≡ true
      → (keep_or_remove S F C X N sites key u t).0 ≡ ok tt
      → IsSettled o key b (keep_or_remove S F C X N sites key u t).1.1
  keep-IsSettled o key b true v t held verdict there site h =
      inl (there, inr (inr (v, (held, (passed_lem F C (C.execute C.test v).0).0 verdict))))
  keep-IsSettled o key b false v t held verdict there site h =
      let p = marked S F C X N (String.slice key 7 (len key - 5)) sites t in
      let (a, done, same) = continued p (λ _. on_world S F (remove_key S F C X N key)) tt h in
      subst (λ (x : After). IsSettled o key b x.1.1) (sym same)
        (inr (
          site,
          L.read-remove (path_of S F C X N key) p.1.1 (
              removed_lem (F.remove (path_of S F C X N key) p.1.1).0
                (ap (λ (x : After). x.0) (sym same) ∙ h)),
          (v, (held, (passed_lem F C (C.execute C.test v).0).1 verdict)),
        ))

  test-IsSettled :
      (o : Option (Option Bytes)) (key : String) (b : Bytes) (t : Local S F)
      → F.read_file (path_of S F C X N key) t.1 ≡ inr b
      → (test_key S F C X N sites key t).0 ≡ ok tt
      → IsSettled o key b (test_key S F C X N sites key t).1.1
  unfolding config_test
  test-IsSettled o key b t there h = choose (is_site_key S F C X N key) refl h
    where
      tested : After
      tested =
          continue (config_test F C t.1).0 (keep_or_remove S F C X N sites key)
            (t.0, (config_test F C t.1).1)

      choose :
          (c : Bool)
          → is_site_key S F C X N key ≡ c
          → (if c then tested else (ok tt, t)).0 ≡ ok tt
          → IsSettled o key b (if c then tested else (ok tt, t)).1.1
      choose true site done =
          let p = on_world S F (config_test F C) t in
          let (u, verdict, same) = continued p (keep_or_remove S F C X N sites key) tt done in
          subst (λ (x : After). IsSettled o key b x.1.1) (sym same)
            (keep-IsSettled o key b u t.1 p.1 there verdict (quiet t.1 key ∙ there) site
              (ap (λ (x : After). x.0) (sym same) ∙ done))
      choose false plain done = inl (there, inr (inl plain))

  write-IsSettled :
      (o : Option (Option Bytes)) (key : String) (b : Bytes) (t : Local S F) (r : Bool)
      → (write_key S F C X N sites key b t).0 ≡ ok r
      → IsSettled o key b (write_key S F C X N sites key b t).1.1
  write-IsSettled o key b t r h =
      let p = on_world S F (run F (F.write_file (path_of S F C X N key) b)) t in
      let (a, wrote, same) = continued p (λ _. test_key S F C X N sites key >> pure true) r h in
      let (c, tested, same') =
        continued (test_key S F C X N sites key p.1) (λ _. pure true) r
          (ap (λ (x : Result Bool × Local S F). x.0) (sym same) ∙ h) in
      subst (λ (x : Result Bool × Local S F). IsSettled o key b x.1.1) (sym (same ∙ same'))
        (test-IsSettled o key b p.1
          (L.read-write (path_of S F C X N key) b t.1
            (wrote_lem (F.write_file (path_of S F C X N key) b t.1).0 a wrote))
          tested)

  sync-IsSettled :
      (key : String) (b : Bytes) (o : Option (Option Bytes)) (t : Local S F) (r : Bool)
      → ((old : Bytes) → o ≡ some (some old) → F.read_file (path_of S F C X N key) t.1 ≡ inr old)
      → (sync_key S F C X N sites key b o t).0 ≡ ok r
      → IsSettled o key b (sync_key S F C X N sites key b o t).1.1
  sync-IsSettled key b none t r there h = write-IsSettled none key b t r h
  sync-IsSettled key b (some none) t r there h = write-IsSettled (some none) key b t r h
  sync-IsSettled key b (some (some old)) t r there h = elim (Bool-cases (bytes_eq b old)) [
    | inl same ↦
        let equal = sym (bytes_eq_lem b old same) in
        rw same (inl (there old refl ∙ ap inr equal, inl (ap (λ x. some (some x)) equal)))
    | inr other ↦ rw other (write-IsSettled (some (some old)) key b t r (rw other at h))
  ]

  other_path : (k key : String) → k ≢ key → path_of S F C X N k ≢ path_of S F C X N key
  other_path k key differs e = differs (append_left N.config_path k key e)

  -- Other files than the desired ones are left as they are.
  files_frame :
      (existing : Dict (Option Bytes)) (q : String) (l : List (String × Bytes)) (u : Bool)
      (t : Local S F)
      → ((key : String) (b : Bytes)
          → lookup key l ≡ some b
          → path_of S F C X N key ≢ path_of S F C X N q)
      → at_path q (sync_files S F C X N sites existing l u t).1 ≡ at_path q t
  unfolding sync_files
  files_frame existing q [] u t h = refl
  files_frame existing q ((key, b) ∷ l) u t h =
      kept_bind (at_path q) (at_path q t) (sync_key S F C X N sites key b (lookup key existing) t)
        (go_on S F C X N (sync_files S F C X N sites existing l) u)
        (sync_frame q key b (lookup key existing) t (h key b (at_head key b l)))
        (λ c s. files_frame existing q l (u || c) s tail)
    where
      tail :
          (k : String) (v : Bytes) → lookup k l ≡ some v → path_of S F C X N k ≢ path_of S F C X N q
      tail k v e = elim (string_dec key k) [
        | yes same ↦
            subst (λ x. path_of S F C X N x ≢ path_of S F C X N q) same (h key b (at_head key b l))
        | no differs ↦ h k v (in_tail key k b v l differs e)
      ]

  same_read :
      (o : Option (Option Bytes)) (key : String) (b : Bytes) (v w : F.World)
      → F.read_file (path_of S F C X N key) v ≡ F.read_file (path_of S F C X N key) w
      → IsSettled o key b w
      → IsSettled o key b v
  same_read o key b v w e (inl (there, why)) = inl (e ∙ there, why)
  same_read o key b v w e (inr (site, missing, why)) =
      inr (site, subst (λ (x : OsError ⊎ Bytes). IsMissing x) (sym e) missing, why)

  -- Where the desired files have different names, the contents that have been found are those on the
  -- disk and the test leaves the files of the configuration as they are: if the loop over the desired
  -- files has ended without an error, each of them is on the disk with its content, and if it is one of
  -- a site and was not there so before, then the test has found the configuration with it valid; or it
  -- is one of a site and not there, and the test has refused the configuration with it.
  pub sync_files_lem :
      (existing : Dict (Option Bytes)) (l : List (String × Bytes)) (u : Bool) (t : Local S F)
      → AreDifferent l
      → ((key : String) (b old : Bytes)
          → lookup key l ≡ some b
          → lookup key existing ≡ some (some old)
          → F.read_file (path_of S F C X N key) t.1 ≡ inr old)
      → (r : Bool) → (sync_files S F C X N sites existing l u t).0 ≡ ok r
      → (key : String) (b : Bytes) → lookup key l ≡ some b
      → IsSettled (lookup key existing) key b (sync_files S F C X N sites existing l u t).1.1
  unfolding sync_files AreDifferent
  sync_files_lem existing [] u t different there r h key b e = absurd (nothing key b e)
  sync_files_lem existing ((k, v) ∷ l) u t (absent, different) there r h key b e =
      let p = sync_key S F C X N sites k v (lookup k existing) t in
      let (c, done, same) =
        continued p (go_on S F C X N (sync_files S F C X N sites existing l) u) r h in
      subst (λ (x : Result Bool × Local S F). IsSettled (lookup key existing) key b x.1.1)
        (sym same)
        (elim (string_dec k key) [
          | yes it ↦
              subst
                (λ x.
                  IsSettled (lookup x existing) x b
                    (sync_files S F C X N sites existing l (u || c) p.1).1.1)
                it
                (same_read (lookup k existing) k b
                  (sync_files S F C X N sites existing l (u || c) p.1).1.1 p.1.1
                  (files_frame existing k l (u || c) p.1 (λ key' b' e'.
                    other_path key' k (λ x. other_key k key' b' l absent e' (sym x))))
                  (subst (λ x. IsSettled (lookup k existing) k x p.1.1) (of_head k key v b l it e)
                    (sync-IsSettled k v (lookup k existing) t c
                      (λ old e'. there k v old (at_head k v l) e') done)))
          | no differs ↦
              sync_files_lem existing l (u || c) p.1 different
                (λ key' b' old e' found.
                  sync_frame key' k v (lookup k existing) t
                    (other_path k key' (other_key k key' b' l absent e'))
                  ∙ there key' b' old (in_tail k key' v b' l (other_key k key' b' l absent e') e')
                      found)
                r (ap (λ (x : Result Bool × Local S F). x.0) (sym same) ∙ h) key b
                (of_tail k key v b l differs e)
        ])
