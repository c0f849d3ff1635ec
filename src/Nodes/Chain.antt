-- ===== src/Nodes/Chain.antt =====
-- When linked nodes of data_structures/PCB/Sch_PCB.c stand for a list, and how a write to the heap
-- changes that.
use cpu_scheduler.Base.{
  ℕ, ◌==◌, ◌<◌, ◌≡◌, refl, ◌∙◌, false, Option, none, some, List, [], ◌∷◌, arith, length,
}
use cpu_scheduler.Queue.{Queue}
use cpu_scheduler.Nodes.{Node, Linked, store}

pub apart : (p q : ℕ) → (p == q) ≡ false → (q == p) ≡ false
apart p q h = ground arith

module _ {A : Type 0} where
  abbrev pub values : List (ℕ × A) → List A
  values [] = []
  values ((p, x) ∷ cs) = x ∷ values cs

  abbrev pub head : List (ℕ × A) → Option ℕ
  head [] = none
  head ((p, x) ∷ cs) = some p

  abbrev pub last : List (ℕ × A) → Option ℕ
  last [] = none
  last ((p, x) ∷ []) = some p
  last ((p, x) ∷ c ∷ cs) = last (c ∷ cs)

  -- No node of the list is at this address.
  abbrev pub Misses : ℕ → List (ℕ × A) → Type 0
  Misses p [] = Unit
  Misses p ((q, x) ∷ cs) = ((q == p) ≡ false) × Misses p cs

  abbrev pub IsDistinct : List (ℕ × A) → Type 0
  IsDistinct [] = Unit
  IsDistinct ((p, x) ∷ cs) = Misses p cs × IsDistinct cs

  -- Every node of the list is at an address below this one.
  abbrev pub IsBelow : ℕ → List (ℕ × A) → Type 0
  IsBelow n [] = Unit
  IsBelow n ((p, x) ∷ cs) = (p < n) × IsBelow n cs

  -- The nodes lie on the heap, each pointing to the next, the last one to none.
  abbrev pub Chain : (ℕ → Option (Node A)) → List (ℕ × A) → Type 0
  Chain h [] = Unit
  Chain h ((p, x) ∷ cs) = (h p ≡ some (record { value = x; next = head cs })) × Chain h cs

  pub IsBelow-Misses : (n : ℕ) (cs : List (ℕ × A)) → IsBelow n cs → Misses n cs
  IsBelow-Misses n [] h = tt
  IsBelow-Misses n ((p, x) ∷ cs) h = (ground arith, IsBelow-Misses n cs h.1)

  pub store-at : (h : ℕ → Option (Node A)) (p : ℕ) (o : Option (Node A)) → store h p o p ≡ o
  unfolding store
  store-at h p o = ground arith

  pub store-other :
      (h : ℕ → Option (Node A)) (p q : ℕ) (o : Option (Node A))
      → (q == p) ≡ false
      → store h p o q ≡ h q
  unfolding store
  store-other h p q o e = rw e refl

  -- A write elsewhere leaves the nodes alone.
  pub Chain-store :
      (h : ℕ → Option (Node A)) (p : ℕ) (o : Option (Node A)) (cs : List (ℕ × A))
      → Misses p cs
      → Chain h cs
      → Chain (store h p o) cs
  Chain-store h p o [] m c = tt
  Chain-store h p o ((q, x) ∷ cs) m c =
      (store-other h p q o m.0 ∙ c.0, Chain-store h p o cs m.1 c.1)

  -- The linked queue consists of these nodes, and stands for the list of their values.
  pub record Laid (s : Linked A) (q : Queue A) (cs : List (ℕ × A)) : Type 0 where
    pub items : q.items ≡ values cs
    pub front : s.front ≡ head cs
    pub rear : s.rear ≡ last cs
    pub chain : Chain s.heap cs
    pub distinct : IsDistinct cs
    pub old : IsBelow s.fresh cs
    pub size : s.size ≡ q.size
    pub counted : q.size ≡ length cs

  abbrev pub StandsFor : Linked A → Queue A → Type 0
  StandsFor s q = (cs : List (ℕ × A)) × Laid s q cs
