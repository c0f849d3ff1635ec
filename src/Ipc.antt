-- ===== src/Ipc.antt =====
-- The objects of System V IPC that the programs share: what the kernel gives, as a parameter of the
-- models, and the behaviour of it that they rely on.
pub mod Create
pub mod Attach
pub mod Objects
pub mod Semaphores
pub mod Sharing
pub mod Teardown
pub mod Removal
pub mod Cleanup
pub mod Foreign
pub mod Own
use cpu_scheduler.Base.{
  ℕ, ◌≤◌, ◌≡◌, ◌≢◌, ◌&&◌, Bool, true, Option, none, some, ℤ, minus_one, eqb_ℤ, if◌then◌else◌,
}

-- Message queues, shared memory and semaphores.
pub data Kind : Type 0 where
  queue memory semaphore : Kind

-- The flags 0666 alone, with IPC_CREAT, and with IPC_EXCL besides.
pub data Mode : Type 0 where
  attach create exclusive : Mode

pub data Errno : Type 0 where
  eexist einval other : Errno

-- The files that `ftok` is given: "../keyFile" and "../keyfile".
pub data KeyFile : Type 0 where
  key_file lower_key_file : KeyFile

-- `ours` says whether the user of the programs may remove it: as its owner or its creator, or with
-- the privilege to; IPC_RMID fails with EPERM for any other user.
pub record Object : Type 0 where
  pub id : ℤ
  pub size : ℕ
  pub ours : Bool

-- What the programs call. `get` is msgget, shmget and semget, `remove` is IPC_RMID, `receive` a
-- `msgrcv` with IPC_NOWAIT for any type, with whether it took a message; `store` writes a slot of an
-- attached memory.
pub record Kernel : Type 1 where
  pub State : Type 0
  pub ftok : KeyFile → ℕ → ℤ
  pub get : Kind → (key : ℤ) → (size : ℕ) → Mode → State → ℤ × State
  pub errno : State → Errno
  pub remove : Kind → ℤ → State → State
  pub receive : ℤ → State → Bool × State
  pub shmat : ℤ → State → ℤ × State
  pub shmdt : ℤ → State → State
  pub store : ℤ → (slot : ℕ) → ℤ → State → State
  pub setval : ℤ → ℕ → State → ℤ × State
  -- The object that has a key, and the messages that wait in a queue.
  pub found : Kind → ℤ → State → Option Object
  pub pending : ℤ → State → ℕ

pub Kind-discrete : Discrete Kind
Kind-discrete = hlevel

-- What is left of an object behind IPC_RMID for this id.
abbrev pub without : ℤ → Option Object → Option Object
without id none = none
without id (some o) = if eqb_ℤ o.id id && o.ours then none else some o

-- The documented behaviour of the calls.
pub record Laws (K : Kernel) : Type 0 where
  -- A call that succeeds gives the id of the object that then has the key.
  pub get_found :
      (k : Kind) (key : ℤ) (n : ℕ) (m : Mode) (s : K.State)
      → (K.get k key n m s).0 ≢ minus_one
      → (o : Object) × (K.found k key (K.get k key n m s).1 ≡ some o)
        × (o.id ≡ (K.get k key n m s).0)
        × (n ≤ o.size)
  -- No call to get an object takes one away.
  pub get_keeps :
      (k : Kind) (key : ℤ) (n : ℕ) (m : Mode) (s : K.State) (j : Kind) (at : ℤ) (o : Object)
      → K.found j at s ≡ some o
      → K.found j at (K.get k key n m s).1 ≡ some o
  -- An object that is there, and is large enough, is found by its key.
  pub get_attach :
      (k : Kind) (key : ℤ) (n : ℕ) (s : K.State) (o : Object)
      → K.found k key s ≡ some o
      → n ≤ o.size
      → K.get k key n attach s ≡ (o.id, s)
  -- Without IPC_CREAT no object is made.
  pub get_attach_found :
      (k : Kind) (key : ℤ) (n : ℕ) (s : K.State) (j : Kind) (at : ℤ)
      → K.found j at (K.get k key n attach s).1 ≡ K.found j at s
  pub found_valid :
      (k : Kind) (key : ℤ) (s : K.State) (o : Object) → K.found k key s ≡ some o → o.id ≢ minus_one
  -- Objects of one kind with different keys have different ids.
  pub found_apart :
      (k : Kind) (a b : ℤ) (s : K.State) (o p : Object)
      → a ≢ b
      → K.found k a s ≡ some o
      → K.found k b s ≡ some p
      → o.id ≢ p.id
  pub remove_found :
      (k : Kind) (id key : ℤ) (s : K.State)
      → K.found k key (K.remove k id s) ≡ without id (K.found k key s)
  pub remove_other :
      (k j : Kind) (id key : ℤ) (s : K.State)
      → j ≢ k
      → K.found j key (K.remove k id s) ≡ K.found j key s
  -- The other calls neither make nor remove an object.
  pub receive_found :
      (id : ℤ) (s : K.State) (k : Kind) (key : ℤ)
      → K.found k key (K.receive id s).1 ≡ K.found k key s
  pub shmat_found :
      (id : ℤ) (s : K.State) (k : Kind) (key : ℤ) → K.found k key (K.shmat id s).1 ≡ K.found k key s
  pub shmdt_found :
      (at : ℤ) (s : K.State) (k : Kind) (key : ℤ) → K.found k key (K.shmdt at s) ≡ K.found k key s
  pub store_found :
      (at : ℤ) (slot : ℕ) (v : ℤ) (s : K.State) (k : Kind) (key : ℤ)
      → K.found k key (K.store at slot v s) ≡ K.found k key s
  pub setval_found :
      (id : ℤ) (v : ℕ) (s : K.State) (k : Kind) (key : ℤ)
      → K.found k key (K.setval id v s).1 ≡ K.found k key s
  pub setval_bad : (v : ℕ) (s : K.State) → (K.setval minus_one v s).0 ≡ minus_one

-- All objects that the programs come upon may be removed by their user.
abbrev pub OneUser : Kernel → Type 0
OneUser K =
    (s : K.State) (k : Kind) (key : ℤ) (o : Object) → K.found k key s ≡ some o → o.ours ≡ true
