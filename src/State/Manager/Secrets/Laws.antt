-- ===== src/State/Manager/Secrets/Laws.antt =====
-- Secrets: what is stored is what is read, and other secrets stay.
use statiko.Base.{
  String, Bool, true, false, inr, ◌≡◌, refl, ap, ◌∙◌, Option, none, some, [], ◌++◌, length,
  take-append_left, drop-append_left, length-append, arith, ltb, if◌then◌else◌, ◌==◌,
}
use statiko.Base.Dict.{Dict, lookup, insert, lookup-insert, lookup-erase}
use statiko.Base.Exec.{Result, ok, err, panic, lift, ◌>>◌}
use statiko.State.Types.{Time, Bytes, NodeState}
use statiko.State.Store.{StateStore, IsLawful}
use statiko.State.Manager.Locks.{Manager, state_of, commit}
use statiko.State.Manager.Frame.{
  Core, core, Ensures, Outcome, Outcome-ok, locked-Outcome, commit_lem,
}
use statiko.State.Manager.Secrets.{
  Crypto, IsSound, dict_of, secrets_cipher, decrypt_found, get_secret, set_secret, store_secret,
  delete_secret, erase_secret, erase_from, make_secrets,
}

-- A value stored under a nonce of twelve bytes decrypts to what was encrypted.
pub decrypt_found-seal :
    (c : Crypto)
    → IsSound c
    → (key nonce value : Bytes) → secrets_cipher c ≡ ok key
    → length nonce ≡ 12
    → decrypt_found c (some (nonce ++ c.seal key nonce value)) ≡ ok value
unfolding decrypt_found
decrypt_found-seal c sound key nonce value cipher twelve =
    let cut = c.seal key nonce value in
    let long : ltb (length (nonce ++ cut)) 12 ≡ false = ground (arith, length-append nonce cut) in
    rw (long, decrypt_found)
      (rw (cipher, decrypt_found)
        (rw
          (
            take-append_left nonce cut 12 (omega arith),
            drop-append_left nonce cut 12 (omega arith),
            sound.unseal-seal key nonce value,
          )
          refl))

lookup-erase_from :
    (key j : String) (d : Option (Dict Bytes))
    → lookup j (dict_of (erase_from key d)) ≡ (if key == j then none else lookup j (dict_of d))
unfolding lookup
lookup-erase_from key j none = ground arith
lookup-erase_from key j (some d) = lookup-erase j key d

module _ (S : StateStore) (L : IsLawful S) (now : Time) (m : Manager S) (n : NodeState)
    (loaded : state_of S m ≡ some n) where
  -- The manager after its secrets have become `d`.
  abbrev pub with_secrets : Option (Dict Bytes) → Core
  with_secrets d = record (core S m) { state = some (record n { secrets = d }); updated = some now }

  state_same : (m' : Manager S) → core S m' ≡ core S m → state_of S m' ≡ some n
  state_same m' same = ap (λ (c : Core). c.state) same ∙ loaded

  secrets_lem :
      (d : Option (Dict Bytes)) (m' : Manager S)
      → core S m' ≡ core S m
      → Ensures S (Outcome (core S m) (some (with_secrets d))) (
          commit S (record m' {
            store = S.modify (record n { secrets = d }) m'.store;
            updated = some now;
          }))
  secrets_lem d m' same =
      commit_lem S L (record n { secrets = d }) (S.modify (record n { secrets = d }) m'.store) m m'
        same (L.get-modify (record n { secrets = d }) m'.store) (some now)

  -- `DeleteSecret` takes the key out and sets the time of the update, or fails and changes nothing.
  pub delete_secret-Outcome :
      (key : String)
      → Ensures S
          (Outcome (core S m) (some (with_secrets (erase_from key n.secrets))))
          (delete_secret S now key m)
  unfolding delete_secret
  delete_secret-Outcome key =
      locked-Outcome S L (some (with_secrets (erase_from key n.secrets))) (erase_secret S now key) m
        (λ m' same. rw (state_same m' same) (secrets_lem (erase_from key n.secrets) m' same))

  module _ (c : Crypto) where
    -- What `SetSecret` puts in the map.
    abbrev pub encrypted : Bytes → Bytes → Bytes → Bytes
    encrypted k nonce value = nonce ++ c.seal k nonce value

    -- `SetSecret` with a usable key and a nonce puts the encrypted value in the map and sets the
    -- time of the update, or fails and changes nothing.
    pub set_secret-Outcome :
        (k nonce : Bytes) (key : String) (value : Bytes)
        → secrets_cipher c ≡ ok k
        → Ensures S
            (Outcome (core S m) (
              some
                (with_secrets (some (insert key (encrypted k nonce value) (dict_of n.secrets))))))
            (set_secret S c now (inr nonce) key value m)
    unfolding set_secret
    set_secret-Outcome k nonce key value usable = rw usable (
        locked-Outcome S L
          (some (with_secrets (some (insert key (encrypted k nonce value) (dict_of n.secrets)))))
          (store_secret S now key (encrypted k nonce value)) m
          (λ m' same. rw (state_same m' same) (
            secrets_lem (some (insert key (encrypted k nonce value) (dict_of n.secrets))) m' same)))

    made_lem :
        (d : Option (Dict Bytes)) (r : Result Bytes) → ((make_secrets S n d >> lift r) m).0 ≡ r
    made_lem none (ok v) = refl
    made_lem none (err e) = refl
    made_lem none panic = refl
    made_lem (some d) r = refl

    -- `GetSecret` answers from the map alone.
    pub get_secret_lem :
        (key : String) → (get_secret S c key m).0 ≡ decrypt_found c (lookup key (dict_of n.secrets))
    unfolding get_secret
    get_secret_lem key =
        rw loaded (made_lem n.secrets (decrypt_found c (lookup key (dict_of n.secrets))))

module _ (S : StateStore) (L : IsLawful S) (c : Crypto) (now : Time) (m : Manager S) (n : NodeState)
    (loaded : state_of S m ≡ some n) (k nonce : Bytes) (usable : secrets_cipher c ≡ ok k) where
  stored_state :
      (key : String) (value : Bytes)
      → (set_secret S c now (inr nonce) key value m).0 ≡ ok tt
      → state_of S (set_secret S c now (inr nonce) key value m).1
        ≡ some (record n {
          secrets =
              some (insert key (encrypted S L now m n loaded c k nonce value) (dict_of n.secrets));
        })
  stored_state key value done =
      ap (λ (x : Core). x.state)
        (Outcome-ok (core S m) _ _ _
          (set_secret-Outcome S L now m n loaded c k nonce key value usable) done)

  -- After `SetSecret` with a nonce of twelve bytes has returned nil, `GetSecret` gives the value
  -- back for that key, and what it gave before for every other key.
  pub get_secret-set_secret :
      IsSound c
      → length nonce ≡ 12
      → (key j : String) (value : Bytes) → (set_secret S c now (inr nonce) key value m).0 ≡ ok tt
      → (get_secret S c j (set_secret S c now (inr nonce) key value m).1).0
        ≡ (if key == j then ok value else (get_secret S c j m).0)
  get_secret-set_secret sound twelve key j value done =
      get_secret_lem S L now (set_secret S c now (inr nonce) key value m).1 _
        (stored_state key value done) c j
      ∙ rw lookup-insert (
          choose (key == j) (c.seal k nonce value) (lookup j (dict_of n.secrets))
          ∙ rw (
            decrypt_found-seal c sound k nonce value usable twelve,
            get_secret_lem S L now m n loaded c j,
          ))
    where
      choose :
          (b : Bool) (v : Bytes) (o : Option Bytes)
          → decrypt_found c (if b then some (nonce ++ v) else o)
            ≡ (if b then decrypt_found c (some (nonce ++ v)) else decrypt_found c o)
      choose true v o = refl
      choose false v o = refl

module _ (S : StateStore) (L : IsLawful S) (c : Crypto) (now : Time) (m : Manager S) (n : NodeState)
    (loaded : state_of S m ≡ some n) where
  -- After `DeleteSecret` has returned nil, `GetSecret` finds nothing for that key, and what it
  -- found before for every other key.
  pub get_secret-delete_secret :
      (key j : String)
      → (delete_secret S now key m).0 ≡ ok tt
      → (get_secret S c j (delete_secret S now key m).1).0
        ≡ (if key == j then ok [] else (get_secret S c j m).0)
  unfolding decrypt_found
  get_secret-delete_secret key j done =
      get_secret_lem S L now (delete_secret S now key m).1 _
        (ap (λ (x : Core). x.state)
          (Outcome-ok (core S m) _ _ _ (delete_secret-Outcome S L now m n loaded key) done))
        c j
      ∙ rw lookup-erase_from (
          choose (key == j) (lookup j (dict_of n.secrets))
          ∙ rw (get_secret_lem S L now m n loaded c j))
    where
      choose :
          (b : Bool) (o : Option Bytes)
          → decrypt_found c (if b then none else o) ≡ (if b then ok [] else decrypt_found c o)
      choose true o = refl
      choose false o = refl
