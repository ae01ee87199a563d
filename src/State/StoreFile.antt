-- ===== src/State/StoreFile.antt =====
-- state/store-file.go: the state in one JSON file of the local disk. The file system is what it
-- holds at the configured path and the errors that it reports; JSON is a codec that is not code of
-- the program.
use statiko.Base.{String, true, ◌≡◌, ◌≢◌, inr, refl, Option, none, some, [], ◌∷◌, arith}
use statiko.Base.Dict.{Dict, lookup}
use statiko.Base.Exec.{Error}
use statiko.State.Types.{Bytes, NodeState}
use statiko.State.Store.{StateStore, IsLawful}

-- The path `state.file.path`: its contents, if it exists, and the errors of each system call.
pub record Disk : Type 0 where
  pub content : Option Bytes
  pub stat_error : Option Error
  pub read_error : Option Error
  pub write_error : Option Error

pub record FileStore : Type 0 where
  pub state : Option NodeState
  pub disk : Disk

-- `json.MarshalIndent`, and `json.Unmarshal` into a new `NodeState`, which may be filled in partly
-- when it fails.
pub record Codec : Type 0 where
  pub marshal : Option NodeState → Option Error × Bytes
  pub unmarshal : Bytes → Option Error × NodeState

abbrev pub secret_of : Option (Dict Bytes) → String → Option Bytes
secret_of none k = none
secret_of (some d) k = lookup k d

-- The same state, as far as a reader of the maps can tell.
pub record SameState (m n : NodeState) : Type 0 where
  pub sites : m.sites ≡ n.sites
  pub dhparams : m.dhparams ≡ n.dhparams
  pub secrets : (k : String) → secret_of m.secrets k ≡ secret_of n.secrets k

-- Encoding gives some text, and decoding it gives the same state back.
pub record IsFaithful (c : Codec) : Type 0 where
  pub decodes :
      (n : NodeState) (b : Bytes)
      → c.marshal (some n) ≡ (none, b)
      → (b ≢ []) × ((c.unmarshal b).0 ≡ none) × SameState (c.unmarshal b).1 n

-- A new process has the disk and no state in memory.
abbrev pub restart : FileStore → FileStore
restart s = record s { state = none }

module _ (c : Codec) where
  -- `renameio.WriteFile` replaces the whole file or leaves it.
  write_file : Bytes → FileStore → Option Error × FileStore
  write_file b s = elim s.disk.write_error [
    | none ↦ (none, record s { disk = record s.disk { content = some b } })
    | some e ↦ (some e, s)
  ]

  -- `WriteState`
  unfoldable pub write_state : FileStore → Option Error × FileStore
  unfolding write_file
  write_state s = elim (c.marshal s.state).0 [
    | none ↦ write_file (c.marshal s.state).1 s
    | some e ↦ (some e, s)
  ]

  abbrev pub empty_state : NodeState
  empty_state = record { sites = []; secrets = none; dhparams = none }

  -- `createStateFile`
  create_state_file : FileStore → Option Error × FileStore
  unfolding write_state
  create_state_file s = write_state (record s { state = some empty_state })

  -- The part of `ReadState` behind `ioutil.ReadFile`. The error of `createStateFile` is dropped.
  parse_file : Bytes → FileStore → Option Error × FileStore
  unfolding create_state_file
  parse_file [] s = (none, (create_state_file s).1)
  parse_file (x ∷ b) s =
      ((c.unmarshal (x ∷ b)).0, record s { state = some (c.unmarshal (x ∷ b)).1 })

  -- `ReadState`
  unfoldable pub read_state : FileStore → Option Error × FileStore
  unfolding parse_file create_state_file
  read_state s = elim s.disk.stat_error [
    | some e ↦ (some e, s)
    | none ↦ elim s.disk.content [
      | none ↦ (none, (create_state_file s).1)
      | some b ↦ elim s.disk.read_error [ some e ↦ (some e, s) | none ↦ parse_file b s ]
    ]
  ]

  -- There is one node: a lock is never waited for, and the store is always healthy.
  abbrev pub file_store : StateStore
  file_store = record {
    Store = FileStore;
    Lease = Unit;
    acquire_lock = λ name timeout s. (inr tt, s);
    release_lock = λ l s. s;
    get_state = λ s. s.state;
    modify = λ n s. record s { state = some n };
    set_state = λ n s. (none, record s { state = some n });
    write_state = write_state;
    read_state = read_state;
    healthy = λ s. ((true, none), s);
    store_node_health = λ h s. (none, s);
  }

  state-write_state : (s : FileStore) → (write_state s).1.state ≡ s.state
  unfolding write_state
  state-write_state s = ground arith

  -- The file store meets what the clients of a store rely on.
  pub file_store-IsLawful : IsLawful file_store
  file_store-IsLawful = record {
    get-modify = λ n s. refl;
    get-set = λ n s. refl;
    set_total = λ n s. refl;
    get-acquire = λ name timeout s. refl;
    get-release = λ l s. refl;
    get-write = state-write_state;
    healthy_error = λ s h. cc;
    get-healthy = λ s. refl;
    get-store_node_health = λ h s. refl;
  }

  written_lem :
      (s : FileStore) (n : NodeState)
      → s.state ≡ some n
      → (write_state s).0 ≡ none
      → ((c.marshal (some n)).0 ≡ none)
        × ((write_state s).1
            ≡ record s { disk = record s.disk { content = some (c.marshal (some n)).1 } })
  unfolding write_state
  written_lem s n loaded written = ground arith

  read_lem :
      (s : FileStore) (b : Bytes)
      → s.disk.content ≡ some b
      → b ≢ []
      → s.disk.stat_error ≡ none
      → s.disk.read_error ≡ none
      → read_state s ≡ ((c.unmarshal b).0, record s { state = some (c.unmarshal b).1 })
  unfolding read_state
  read_lem s b there nonempty st rd = ground arith

  -- After a write that reported no error, a new process that can read the file loads the same
  -- state: the same sites and DH parameters, and the same value for each secret.
  pub read_state-write_state :
      IsFaithful c
      → (s : FileStore) (n : NodeState) → s.state ≡ some n
      → (write_state s).0 ≡ none
      → s.disk.stat_error ≡ none
      → s.disk.read_error ≡ none
      → ((read_state (restart (write_state s).1)).0 ≡ none)
        × ((m : NodeState) × ((read_state (restart (write_state s).1)).1.state ≡ some m)
            × SameState m n)
  read_state-write_state f s n loaded written st rd =
      let (encoded, after) = written_lem s n loaded written in
      let b = (c.marshal (some n)).1 in
      let (nonempty, decoded, same) = f.decodes n b (ground (arith, encoded)) in
      let back =
        read_lem (restart (record s { disk = record s.disk { content = some b } })) b refl nonempty
          st rd in
      rw (after, back) (decoded, ((c.unmarshal b).1, refl, same))
