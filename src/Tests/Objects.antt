-- ===== src/Tests/Objects.antt =====
-- A kernel that meets the laws.
use mathlib.Core.Path.{subst}
use cpu_scheduler.Base.{
  ℕ, ◌+◌, ◌*◌, ◌≤◌, ◌≡◌, ◌≢◌, refl, ap, sym, ◌∙◌, inl, inr, Bool, true, false, leb, Option, none,
  some, ℤ, pos, negsuc, minus_one, eqb_ℤ, eqb_ℤ-refl, eqb_ℤ→eq, arith, Bool-cases, Option-cases,
  if◌then◌else◌,
}
use cpu_scheduler.Ipc.{
  Kernel, Laws, OneUser, Kind, queue, memory, semaphore, Mode, attach, create, exclusive, eexist,
  Object, without,
}
use cpu_scheduler.Ipc.Create.{failed}

abbrev pub same_kind : Kind → Kind → Bool
same_kind queue queue = true
same_kind memory memory = true
same_kind semaphore semaphore = true
same_kind _ _ = false

-- The id of the object with a key; the state has the sizes of the objects that are there.
abbrev pub id_of : ℤ → ℤ
id_of (pos n) = pos (2 * n)
id_of (negsuc n) = pos (2 * n + 1)

abbrev pub Sizes : Type 0
Sizes = Kind → ℤ → Option ℕ

abbrev pub object : ℤ → Option ℕ → Option Object
object key none = none
object key (some n) = some (record { id = id_of key; size = n; ours = true })

abbrev pub with_object : Kind → ℤ → ℕ → Sizes → Sizes
with_object k key n s j at =
    if same_kind j k then (if eqb_ℤ at key then some n else s j at) else s j at

abbrev pub get_missing : Kind → ℤ → ℕ → Mode → Sizes → ℤ × Sizes
get_missing k key n attach s = (minus_one, s)
get_missing k key n create s = (id_of key, with_object k key n s)
get_missing k key n exclusive s = (id_of key, with_object k key n s)

abbrev pub get_there : ℤ → ℕ → ℕ → Mode → Sizes → ℤ × Sizes
get_there key size n exclusive s = (minus_one, s)
get_there key size n attach s = if leb n size then (id_of key, s) else (minus_one, s)
get_there key size n create s = if leb n size then (id_of key, s) else (minus_one, s)

abbrev pub get_case : Option ℕ → Kind → ℤ → ℕ → Mode → Sizes → ℤ × Sizes
get_case none k key n m s = get_missing k key n m s
get_case (some size) k key n m s = get_there key size n m s

abbrev pub get : Kind → ℤ → ℕ → Mode → Sizes → ℤ × Sizes
get k key n m s = get_case (s k key) k key n m s

abbrev pub removed : ℤ → ℤ → Option ℕ → Option ℕ
removed key id none = none
removed key id (some n) = if eqb_ℤ (id_of key) id then none else some n

abbrev pub kernel : Kernel
kernel = record {
  State = Sizes;
  ftok = λ file proj. pos proj;
  get = get;
  errno = λ s. eexist;
  remove = λ k id s j at. if same_kind j k then removed at id (s j at) else s j at;
  receive = λ id s. (false, s);
  shmat = λ id s. (pos 4096, s);
  shmdt = λ at s. s;
  store = λ at slot v s. s;
  setval = λ id v s. (if failed id then minus_one else pos 0, s);
  found = λ k key s. object key (s k key);
  pending = λ id s. 0;
}

same_kind_refl : (k : Kind) → same_kind k k ≡ true
same_kind_refl queue = refl
same_kind_refl memory = refl
same_kind_refl semaphore = refl

same_kind→eq : (j k : Kind) → same_kind j k ≡ true → j ≡ k
same_kind→eq queue queue h = refl
same_kind→eq memory memory h = refl
same_kind→eq semaphore semaphore h = refl
same_kind→eq queue memory h = cc
same_kind→eq queue semaphore h = cc
same_kind→eq memory queue h = cc
same_kind→eq memory semaphore h = cc
same_kind→eq semaphore queue h = cc
same_kind→eq semaphore memory h = cc

id_of-valid : (key : ℤ) → id_of key ≢ minus_one
id_of-valid (pos n) h = cc
id_of-valid (negsuc n) h = cc

id_of-inj : (a b : ℤ) → id_of a ≡ id_of b → a ≡ b
id_of-inj (pos a) (pos b) h = ground arith
id_of-inj (pos a) (negsuc b) h = absurd (ground arith)
id_of-inj (negsuc a) (pos b) h = absurd (ground arith)
id_of-inj (negsuc a) (negsuc b) h = ground arith

object-id : (key : ℤ) (size : Option ℕ) (o : Object) → object key size ≡ some o → id_of key ≡ o.id
object-id key none o h = cc
object-id key (some n) o h = cc

with_object_self : (k : Kind) (key : ℤ) (n : ℕ) (s : Sizes) → with_object k key n s k key ≡ some n
with_object_self k key n s = rw (same_kind_refl k, eqb_ℤ-refl key) refl

pub with_object-keeps :
    (k j : Kind) (key at : ℤ) (n : ℕ) (s : Sizes)
    → s k key ≡ none
    → (o : Object) → object at (s j at) ≡ some o
    → object at (with_object k key n s j at) ≡ some o
with_object-keeps k j key at n s missing o h = elim (Bool-cases (same_kind j k)) [
  | inr e ↦ rw e h
  | inl e ↦ elim (Bool-cases (eqb_ℤ at key)) [
    | inr f ↦ rw (e, f) h
    | inl f ↦
        let g : s j at ≡ none =
          ap (λ i. s i at) (same_kind→eq j k e) ∙ ap (s k) (eqb_ℤ→eq at key f) ∙ missing in
        absurd (ground arith)
  ]
]

-- What a call on a missing object, and on one that is there, has to do.
abbrev pub Found : Kind → ℤ → ℕ → ℤ × Sizes → Type 0
Found k key n r =
    r.0 ≢ minus_one → (o : Object) × (object key (r.1 k key) ≡ some o) × (o.id ≡ r.0) × (n ≤ o.size)

missing-Found :
    (k : Kind) (key : ℤ) (n : ℕ) (m : Mode) (s : Sizes) → Found k key n (get_missing k key n m s)
missing-Found k key n attach s h = absurd (h refl)
missing-Found k key n create s h = (
  record { id = id_of key; size = n; ours = true },
  rw (with_object_self k key n s) refl,
  refl,
  omega arith,
)
missing-Found k key n exclusive s h = (
  record { id = id_of key; size = n; ours = true },
  rw (with_object_self k key n s) refl,
  refl,
  omega arith,
)

looked_up :
    (k : Kind) (key : ℤ) (size n : ℕ) (s : Sizes)
    → s k key ≡ some size
    → Found k key n (if leb n size then (id_of key, s) else (minus_one, s))
looked_up k key size n s there = elim (Bool-cases (leb n size)) [
  | inl e ↦ rw e (λ h.
      (record { id = id_of key; size = size; ours = true }, rw there refl, refl, ground arith))
  | inr e ↦ rw e (λ h. absurd (h refl))
]

there-Found :
    (k : Kind) (key : ℤ) (size n : ℕ) (m : Mode) (s : Sizes)
    → s k key ≡ some size
    → Found k key n (get_there key size n m s)
there-Found k key size n attach s there = looked_up k key size n s there
there-Found k key size n create s there = looked_up k key size n s there
there-Found k key size n exclusive s there = λ h. absurd (h refl)

law_get-Found :
    (k : Kind) (key : ℤ) (n : ℕ) (m : Mode) (s : Sizes) → Found k key n (get k key n m s)
law_get-Found k key n m s = elim (Option-cases (s k key)) [
  | inl e ↦ subst (λ c. Found k key n (get_case c k key n m s)) (sym e) (missing-Found k key n m s)
  | inr (size, e) ↦
      subst (λ c. Found k key n (get_case c k key n m s)) (sym e) (there-Found k key size n m s e)
]

abbrev pub Keeps : Kind → ℤ → Sizes → ℤ × Sizes → Type 0
Keeps j at s r = (o : Object) → object at (s j at) ≡ some o → object at (r.1 j at) ≡ some o

missing-Keeps :
    (k : Kind) (key : ℤ) (n : ℕ) (m : Mode) (s : Sizes) (j : Kind) (at : ℤ)
    → s k key ≡ none
    → Keeps j at s (get_missing k key n m s)
missing-Keeps k key n attach s j at missing o h = h
missing-Keeps k key n create s j at missing o h = with_object-keeps k j key at n s missing o h
missing-Keeps k key n exclusive s j at missing o h = with_object-keeps k j key at n s missing o h

there_same : (key : ℤ) (size n : ℕ) (m : Mode) (s : Sizes) → (get_there key size n m s).1 ≡ s
there_same key size n attach s = ground arith
there_same key size n create s = ground arith
there_same key size n exclusive s = refl

law_get-Keeps :
    (k : Kind) (key : ℤ) (n : ℕ) (m : Mode) (s : Sizes) (j : Kind) (at : ℤ)
    → Keeps j at s (get k key n m s)
law_get-Keeps k key n m s j at = elim (Option-cases (s k key)) [
  | inl e ↦
      subst (λ c. Keeps j at s (get_case c k key n m s)) (sym e) (missing-Keeps k key n m s j at e)
  | inr (size, e) ↦
      subst (λ c. Keeps j at s (get_case c k key n m s)) (sym e)
        (λ o h. ap (λ t. object at (t j at)) (there_same key size n m s) ∙ h)
]

attach_case :
    (c : Option ℕ) (k : Kind) (key : ℤ) (n : ℕ) (s : Sizes) (o : Object)
    → object key c ≡ some o
    → n ≤ o.size
    → get_case c k key n attach s ≡ (o.id, s)
attach_case none k key n s o f b = cc
attach_case (some size) k key n s o f b =
    let e : id_of key ≡ o.id = object-id key (some size) o f in
    let big : n ≤ size = ground arith in
    let fits : leb n size ≡ true = ground arith in rw (fits, e) refl

attach_same :
    (c : Option ℕ) (k : Kind) (key : ℤ) (n : ℕ) (s : Sizes) → (get_case c k key n attach s).1 ≡ s
attach_same none k key n s = refl
attach_same (some size) k key n s = there_same key size n attach s

object-removed :
    (key id : ℤ) (c : Option ℕ) → object key (removed key id c) ≡ without id (object key c)
object-removed key id none = refl
object-removed key id (some n) = elim (Bool-cases (eqb_ℤ (id_of key) id)) [
  | inl e ↦ rw e refl
  | inr e ↦ rw e refl
]

object-ours : (key : ℤ) (c : Option ℕ) (o : Object) → object key c ≡ some o → o.ours ≡ true
object-ours key none o h = cc
object-ours key (some n) o h = cc

pub one_user : OneUser kernel
one_user s k key o h = object-ours key (s k key) o h

pub laws : Laws kernel
laws = record {
  get_found = law_get-Found;
  get_keeps = λ k key n m s j at o h. law_get-Keeps k key n m s j at o h;
  get_attach = λ k key n s o f b. attach_case (s k key) k key n s o f b;
  get_attach_found =
      λ k key n s j at. ap (λ t. object at (t j at)) (attach_same (s k key) k key n s);
  found_valid = λ k key s o f e. id_of-valid key (object-id key (s k key) o f ∙ e);
  found_apart = λ k a b s o p n f g e.
      n (id_of-inj a b (object-id a (s k a) o f ∙ e ∙ sym (object-id b (s k b) p g)));
  remove_found = λ k id key s. rw (same_kind_refl k) (object-removed key id (s k key));
  remove_other = λ k j id key s n. elim (Bool-cases (same_kind j k)) [
    | inl e ↦ absurd (n (same_kind→eq j k e))
    | inr e ↦ rw e refl
  ];
  receive_found = λ id s k key. refl;
  shmat_found = λ id s k key. refl;
  shmdt_found = λ at s k key. refl;
  store_found = λ at slot v s k key. refl;
  setval_found = λ id v s k key. refl;
  setval_bad = λ v s. refl;
}
