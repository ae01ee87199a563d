-- ===== src/State/Etcd.antt =====
-- The client of etcd as state/store-etcd.go and worker/controller-etcd.go use it, over an unknown
-- state of the cluster and of the connection, and what the documentation says of it.
pub mod Memory
use statiko.Base.{
  ℕ, String, ◌<>◌, Bool, true, false, ◌≡◌, ◌≢◌, ◌⊎◌, inl, inr, Option, none, some, List, [], ◌∷◌,
}
use statiko.Base.Dict.{Dict, lookup}
use statiko.Base.Exec.{Error}
use statiko.State.Types.{Bytes}

-- The answer to a transaction: whether its condition held, and the revision of the cluster.
pub record Transaction : Type 0 where
  pub succeeded : Bool
  pub revision : ℕ

-- `put_if_absent` is the transaction that compares the version, or the revision, of a key with
-- zero, and `put_if_other` the one that compares its value; a lease may be given. The number of a
-- lease is never zero. `revision` is the one in the header of an answer, `connection` is the state of a connection that is not ready, and `sleep` a
-- second that passes. Other clients may act during each call.
pub record Etcd : Type 1 where
  pub Server : Type 0
  pub grant : ℕ → Server → (Error ⊎ ℕ) × Server
  pub keep_alive : ℕ → Server → Option Error × Server
  pub revoke : ℕ → Server → Option Error × Server
  pub put_if_absent : String → Bytes → Option ℕ → Server → (Error ⊎ Transaction) × Server
  pub put_if_other : String → Bytes → Option ℕ → Server → (Error ⊎ Transaction) × Server
  pub put : String → Bytes → Server → Option Error × Server
  pub delete : String → Server → Option Error × Server
  pub get : String → Server → (Error ⊎ Option Bytes) × Server
  pub get_prefix : String → Server → (Error ⊎ List (String × Bytes)) × Server
  pub revision : Server → ℕ
  pub connection : Server → Option String
  pub sleep : Server → Server

-- Every key begins with the prefix.
unfoldable pub AreUnder : String → List (String × Bytes) → Type 0
AreUnder p [] = Unit
AreUnder p ((j, b) ∷ l) = ((k : String) × (j ≡ p <> k)) × AreUnder p l

-- The keys of the cluster as a map, while no other client writes. A range of keys has each key
-- that begins with the prefix once; here it is said by the values that are found in it.
pub record IsKeyValue (E : Etcd) : Type 0 where
  pub value : String → E.Server → Option Bytes
  pub absent :
      (k : String) (b : Bytes) (l : Option ℕ) (s : E.Server) (t : Transaction)
      → (E.put_if_absent k b l s).0 ≡ inr t
      → t.succeeded ≡ true
      → value k (E.put_if_absent k b l s).1 ≡ some b
  pub present :
      (k : String) (b : Bytes) (l : Option ℕ) (s : E.Server) (t : Transaction)
      → (E.put_if_absent k b l s).0 ≡ inr t
      → t.succeeded ≡ false
      → (x : Bytes) × (value k (E.put_if_absent k b l s).1 ≡ some x)
  pub absent_other :
      (k j : String) (b : Bytes) (l : Option ℕ) (s : E.Server)
      → k ≢ j
      → value j (E.put_if_absent k b l s).1 ≡ value j s
  pub other :
      (k : String) (b x : Bytes) (l : Option ℕ) (s : E.Server) (t : Transaction)
      → value k s ≡ some x
      → (E.put_if_other k b l s).0 ≡ inr t
      → value k (E.put_if_other k b l s).1 ≡ some b
  pub other_other :
      (k j : String) (b : Bytes) (l : Option ℕ) (s : E.Server)
      → k ≢ j
      → value j (E.put_if_other k b l s).1 ≡ value j s
  pub put :
      (k : String) (b : Bytes) (s : E.Server)
      → (E.put k b s).0 ≡ none
      → value k (E.put k b s).1 ≡ some b
  pub deleted :
      (k : String) (s : E.Server) → (E.delete k s).0 ≡ none → value k (E.delete k s).1 ≡ none
  pub still_none :
      (k j : String) (s : E.Server) → value j s ≡ none → value j (E.delete k s).1 ≡ none
  pub deleted_other : (k j : String) (s : E.Server) → k ≢ j → value j (E.delete k s).1 ≡ value j s
  pub got : (k : String) (s : E.Server) (o : Option Bytes) → (E.get k s).0 ≡ inr o → o ≡ value k s
  pub value-get : (k j : String) (s : E.Server) → value j (E.get k s).1 ≡ value j s
  pub listed :
      (p k : String) (s : E.Server) (l : List (String × Bytes))
      → (E.get_prefix p s).0 ≡ inr l
      → lookup (p <> k) l ≡ value (p <> k) s
  pub under :
      (p : String) (s : E.Server) (l : List (String × Bytes))
      → (E.get_prefix p s).0 ≡ inr l
      → AreUnder p l
  pub value-get_prefix : (p j : String) (s : E.Server) → value j (E.get_prefix p s).1 ≡ value j s
