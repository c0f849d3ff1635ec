-- ===== src/Child/Input.antt =====
-- The array of requests that process/RR_process.c fills.
use mathlib.Core.List.{append_assoc, append-nil}
use cpu_scheduler.Base.{
  ℕ, ◌≤◌, ◌<◌, ◌≡◌, refl, sym, ap, ◌∙◌, inl, inr, false, Option, none, some, List, [], ◌∷◌, ◌++◌,
  leb, arith, length, length-append, Bool-cases, All,
}
use cpu_scheduler.Types.{Request}
use cpu_scheduler.Generator.Input.{is_skipped}
use cpu_scheduler.Child.{
  Scanned, RequestFields, complete, fewer, written, fits, to_request, read_requests,
}

module _ (sscanf : List ℕ → Scanned) where
  -- The array from one state on: only whole requests have come behind it, within its bounds.
  abbrev pub Filled : List Request → List Request → Type 0
  Filled got reqs =
      (more : List Request) × (reqs ≡ got ++ more)
      × (length reqs ≤ 100)
      × All (λ r. length r.address ≤ 9) more

  -- A line that is not skipped has an address of ten characters or more.
  abbrev pub HasLongAddress : List (List ℕ) → Type 0
  HasLongAddress lines =
      (before : List (List ℕ)) × (line : List ℕ) × (after : List (List ℕ)) × (lines
        ≡ before ++ line ∷ after)
      × (is_skipped line ≡ false)
      × (9 < length (written (sscanf line)))

  abbrev pub Reading : List (List ℕ) → List Request → Option (List Request) → Type 0
  Reading lines got none = HasLongAddress lines
  Reading lines got (some reqs) = Filled got reqs

  Reading-more :
      (line : List ℕ) (rest : List (List ℕ)) (got : List Request) (o : Option (List Request))
      → Reading rest got o
      → Reading (line ∷ rest) got o
  Reading-more line rest got none (before, l, after, e, h, k) =
      (line ∷ before, l, after, ap (λ ls. line ∷ ls) e, h, k)
  Reading-more line rest got (some reqs) h = h

  -- One more request in the array, with an address that has room.
  Reading-one :
      (line : List ℕ) (rest : List (List ℕ)) (got : List Request) (r : Request)
      (o : Option (List Request))
      → length r.address ≤ 9
      → Reading rest (got ++ r ∷ []) o
      → Reading (line ∷ rest) got o
  Reading-one line rest got r none room h = Reading-more line rest got none h
  Reading-one line rest got r (some reqs) room (more, e, b, a) =
      (r ∷ more, e ∙ append_assoc got (r ∷ []) more, b, (room, a))

  scanned_line :
      (line : List ℕ) (rest : List (List ℕ)) (got : List Request) (s : Scanned)
      → length (written s) ≤ 9
      → Reading rest got (read_requests sscanf rest got)
      → ((f : RequestFields)
          → Reading rest
              (got ++ to_request f ∷ [])
              (read_requests sscanf rest (got ++ to_request f ∷ [])))
      → Reading (line ∷ rest) got (elim s as (λ _. Option (List Request)) [
        | fewer _ ↦ read_requests sscanf rest got
        | complete f ↦ read_requests sscanf rest (got ++ to_request f ∷ [])
      ])
  unfolding to_request
  scanned_line line rest got (fewer address) room on next = Reading-more line rest got _ on
  scanned_line line rest got (complete f) room on next =
      Reading-one line rest got (to_request f) _ room (next f)

  -- The reading loop, begun with at most 100 requests, keeps them in front, ends with at most 100,
  -- and each one that it adds has an address that fits in its array with the end of the string; or
  -- it writes behind the end of an address, and then some line that it does not skip has an
  -- address of ten characters or more.
  pub read_requests_bound :
      (lines : List (List ℕ)) (got : List Request)
      → length got ≤ 100
      → Reading lines got (read_requests sscanf lines got)
  unfolding read_requests
  read_requests_bound [] got h = ([], sym (append-nil got), h, tt)
  read_requests_bound (line ∷ rest) got h = elim (Bool-cases (is_skipped line)) [
    | inl e ↦ rw e (Reading-more line rest got _ (read_requests_bound rest got h))
    | inr e ↦ elim (Bool-cases (leb 100 (length got))) [
      | inl f ↦ rw (e, f) ([], sym (append-nil got), h, tt)
      | inr f ↦ elim (Bool-cases (fits (written (sscanf line)))) [
        | inr g ↦ rw (e, f, g) ([], line, rest, refl, e, ground arith)
        | inl g ↦
            rw (e, f, g)
              (scanned_line line rest got (sscanf line) (ground arith)
                (read_requests_bound rest got h)
                (λ r.
                  read_requests_bound rest (got ++ to_request r ∷ [])
                    (ground (arith, length-append got (to_request r ∷ [])))))
      ]
    ]
  ]
