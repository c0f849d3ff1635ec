-- ===== src/Ipc/Removal.antt =====
-- States of the kernel between which objects are only removed.
use mathlib.Core.Path.{subst}
use cpu_scheduler.Base.{
  ℕ, ◌≡◌, refl, ap, inl, inr, ◌⊎◌, false, true, ◌||◌, ◌&&◌, Option, none, some, ℤ, pos, minus_one,
  eqb_ℤ, eqb_ℤ-refl, eqb_ℤ→eq, sym, ◌∙◌, Bool-cases,
}
use cpu_scheduler.Ipc.{Kernel, Laws, Kind, Kind-discrete, memory, attach, Object, OneUser, without}
use cpu_scheduler.Ipc.Create.{failed, load_key, remove_unless_failed, destroy_load}
use cpu_scheduler.Ipc.Objects.{Holds}

-- At most removals lie between two states of the kernel.
abbrev pub Fewer : (K : Kernel) → K.State → K.State → Type 0
Fewer K s t = (k : Kind) (key : ℤ) → (K.found k key t ≡ none) ⊎ (K.found k key t ≡ K.found k key s)

module _ (K : Kernel) (laws : Laws K) where
  pub Fewer-trans : (s t u : K.State) → Fewer K s t → Fewer K t u → Fewer K s u
  Fewer-trans s t u f g k key = elim (g k key) [
    | inl e ↦ inl e
    | inr e ↦ elim (f k key) [ inl d ↦ inl (e ∙ d) | inr d ↦ inr (e ∙ d) ]
  ]

  without-Fewer : (id : ℤ) (o : Option Object) → (without id o ≡ none) ⊎ (without id o ≡ o)
  without-Fewer id none = inl refl
  without-Fewer id (some o) = elim (Bool-cases (eqb_ℤ o.id id && o.ours)) [
    | inl e ↦ inl (rw e refl)
    | inr e ↦ inr (rw e refl)
  ]

  pub remove-Fewer : (k : Kind) (id : ℤ) (s : K.State) → Fewer K s (K.remove k id s)
  remove-Fewer k id s j key = elim (Kind-discrete j k) [
    | yes e ↦
        subst
          (λ i.
            (K.found i key (K.remove k id s) ≡ none)
            ⊎ (K.found i key (K.remove k id s) ≡ K.found i key s))
          (sym e) (rw (laws.remove_found k id key s) (without-Fewer id (K.found k key s)))
    | no n ↦ inr (laws.remove_other k j id key s n)
  ]

  pub unless-Fewer : (k : Kind) (id : ℤ) (s : K.State) → Fewer K s (remove_unless_failed K k id s)
  unfolding remove_unless_failed
  unless-Fewer k id s = elim (Bool-cases (failed id)) [
    | inl e ↦ rw e (λ j key. inr refl)
    | inr e ↦ rw e (remove-Fewer k id s)
  ]

  pub destroy_load-Fewer : (to : ℤ) (s : K.State) → Fewer K s (destroy_load K to s)
  unfolding destroy_load
  destroy_load-Fewer to s = elim (Bool-cases (eqb_ℤ to (pos 0) || failed to)) [
    | inl e ↦ rw e (λ j key. inr refl)
    | inr e ↦
        let a = K.get memory (load_key K) 16 attach (K.shmdt to s) in
        rw e (
          Fewer-trans s a.1 _
            (λ j key. inr (
              laws.get_attach_found memory (load_key K) 16 (K.shmdt to s) j key
              ∙ laws.shmdt_found to s j key))
            (unless-Fewer memory a.0 a.1))
  ]

  -- What is not there does not come back.
  Fewer-none :
      (k : Kind) (key : ℤ) (s t : K.State)
      → Fewer K s t
      → K.found k key s ≡ none
      → K.found k key t ≡ none
  Fewer-none k key s t f e = elim (f k key) [ inl d ↦ d | inr d ↦ d ∙ e ]

  -- An object goes with its id.
  pub removed_gone :
      (k : Kind) (key : ℤ) (n : ℕ) (id : ℤ) (s t u : K.State)
      → Holds K k key n id s
      → Fewer K s t
      → Fewer K (K.remove k id t) u
      → ((o : Object) → K.found k key s ≡ some o → o.ours ≡ true)
      → K.found k key u ≡ none
  removed_gone k key n id s t u (o, f, e, b) before after mine =
      let left : K.found k key (K.remove k id t) ≡ none =
        laws.remove_found k id key t ∙ elim (before k key) [
          | inl d ↦ rw d refl
          | inr d ↦ rw (d, f, e, eqb_ℤ-refl id, mine o f) refl
        ] in
      Fewer-none k key (K.remove k id t) u after left

  module _ (one : OneUser K) where
    pub gone :
        (k : Kind) (key : ℤ) (n : ℕ) (id : ℤ) (s t u : K.State)
        → Holds K k key n id s
        → Fewer K s t
        → Fewer K (remove_unless_failed K k id t) u
        → K.found k key u ≡ none
    unfolding remove_unless_failed
    gone k key n id s t u (o, f, e, b) before after =
        let valid : failed id ≡ false = elim (Bool-cases (failed id)) [
          | inl g ↦ absurd (laws.found_valid k key s o f (e ∙ eqb_ℤ→eq id minus_one g))
          | inr g ↦ g
        ] in
        removed_gone k key n id s t u (o, f, e, b) before
          (λ j at.
            subst (λ x. (K.found j at u ≡ none) ⊎ (K.found j at u ≡ K.found j at x)) (rw valid refl)
              (after j at))
          (one s k key)

    pub load_gone :
        (to id : ℤ) (s t u : K.State)
        → Holds K memory (load_key K) 16 id s
        → (eqb_ℤ to (pos 0) || failed to) ≡ false
        → Fewer K s t
        → Fewer K (destroy_load K to t) u
        → K.found memory (load_key K) u ≡ none
    unfolding destroy_load
    load_gone to id s t u (o, f, e, b) valid before after =
        let d = K.shmdt to t in
        let a = K.get memory (load_key K) 16 attach d in
        let detached : (K.found memory (load_key K) d ≡ none)
            ⊎ (K.found memory (load_key K) d ≡ some o) =
          elim (before memory (load_key K)) [
            | inl g ↦ inl (laws.shmdt_found to t memory (load_key K) ∙ g)
            | inr g ↦ inr (laws.shmdt_found to t memory (load_key K) ∙ g ∙ f)
          ] in
        let later : Fewer K (remove_unless_failed K memory a.0 a.1) u = λ j at.
          subst (λ x. (K.found j at u ≡ none) ⊎ (K.found j at u ≡ K.found j at x)) (rw valid refl)
            (after j at) in
        elim detached [
          | inl g ↦ Fewer-none memory (load_key K) (remove_unless_failed K memory a.0 a.1) u later (
              Fewer-none memory (load_key K) a.1 (remove_unless_failed K memory a.0 a.1)
                (unless-Fewer memory a.0 a.1)
                (laws.get_attach_found memory (load_key K) 16 d memory (load_key K) ∙ g))
          | inr g ↦
              let same = laws.get_attach memory (load_key K) 16 d o g b in
              gone memory (load_key K) 16 a.0 a.1 a.1 u
                (o, ap (λ x. K.found memory (load_key K) x.1) same ∙ g, sym (ap (λ x. x.0) same), b)
                (λ j at. inr refl) later
        ]
