-- ===== src/Page/Ownership/Accounting.antt =====
-- The mappings of a page buffer are those that its map holds.
use asymmetricfs.Prelude.{
  ℕ, ◌+◌, ◌≤◌, ◌<◌, ◌≡◌, refl, sym, ◌∙◌, inl, inr, Bool, List, [], ◌∷◌, Option, none, some, ltb,
  ◌==◌, if◌then◌else◌, Bool-cases, arith,
}
use asymmetricfs.MemoryLock.{MemoryLock}
use asymmetricfs.Page.Ownership.{
  Mappings, Owner, Owners, Change, ask, shrink, empty, has_key, emplace_owner, move_allocation,
  mapped, make_allocation, destroy_allocation, place, entry_at, destroy_allocations, erase_from,
  kept, change, changes,
}

-- The system accounts for its mappings: `live s p` is the size of the mapping that begins at `p`,
-- and 0 if there is none.
pub record IsAccounted (M : Mappings) : Type 0 where
  pub live : M.State → ℕ → ℕ
  pub maps :
      (locked : Bool) (n p : ℕ) (s t : M.State)
      → M.mmap locked n s ≡ (some p, t)
      → (0 < n) × ((live s p ≡ 0) × ((x : ℕ) → live t x ≡ (if x == p then n else live s x)))
  pub maps_not :
      (locked : Bool) (n : ℕ) (s t : M.State)
      → M.mmap locked n s ≡ (none, t)
      → (x : ℕ) → live t x ≡ live s x
  pub unmaps :
      (p n : ℕ) (s : M.State)
      → live s p ≡ n
      → (x : ℕ) → live (M.munmap p n s) x ≡ (if x == p then 0 else live s x)

-- The bytes at an address that an owner has.
unfoldable pub owned : Option ℕ → ℕ → ℕ → ℕ
owned none n x = 0
owned (some p) n x = if x == p then n else 0

unfoldable pub held : Owners → ℕ → ℕ
unfolding owned
held [] x = 0
held ((k, o) ∷ m) x = owned o.ptr o.size x + held m x

-- An owner has a mapping that is not among some.
unfoldable pub IsNew : Option ℕ → ℕ → (ℕ → ℕ) → Type 0
IsNew none n f = Unit
IsNew (some p) n f = (0 < n) × (f p ≡ 0)

-- The owners have mappings that differ, and are not among those of others.
unfoldable pub IsApart : (ℕ → ℕ) → Owners → Type 0
IsApart others [] = Unit
IsApart others ((k, o) ∷ m) = IsNew o.ptr o.size (λ x. others x + held m x) × IsApart others m

IsNew-below :
    (p : Option ℕ) (n : ℕ) (f g : ℕ → ℕ) → ((x : ℕ) → g x ≤ f x) → IsNew p n f → IsNew p n g
unfolding IsNew
IsNew-below none n f g below new = tt
IsNew-below (some p) n f g below (some_bytes, free) = (some_bytes, omega (arith, below p))

IsNew-beside :
    (p q : Option ℕ) (n k : ℕ) (f : ℕ → ℕ)
    → IsNew p n f
    → IsNew q k (λ x. owned p n x + f x)
    → IsNew p n (λ x. owned q k x + f x)
unfolding IsNew owned
IsNew-beside none q n k f new other = tt
IsNew-beside (some p) none n k f (a, b) other = (a, omega arith)
IsNew-beside (some p) (some q) n k f (a, b) (c, d) =
    (a, ground (arith, Bool-cases (p == q), Bool-cases (q == p)))

IsApart-beside :
    (p : Option ℕ) (n : ℕ) (f : ℕ → ℕ) (m : Owners)
    → IsNew p n (λ x. f x + held m x)
    → IsApart f m
    → IsApart (λ x. f x + owned p n x) m
unfolding IsApart held
IsApart-beside p n f [] new apart = tt
IsApart-beside p n f ((k, o) ∷ m) new (a, b) = (
  IsNew-below o.ptr o.size (λ x. owned p n x + (f x + held m x))
      (λ x. (f x + owned p n x) + held m x) (λ x. omega arith)
      (IsNew-beside o.ptr p o.size n (λ x. f x + held m x) a
        (IsNew-below p n (λ x. f x + (owned o.ptr o.size x + held m x))
          (λ x. owned o.ptr o.size x + (f x + held m x)) (λ x. omega arith) new)),
  IsApart-beside p n f m
      (IsNew-below p n (λ x. f x + (owned o.ptr o.size x + held m x)) (λ x. f x + held m x)
        (λ x. omega arith) new)
      b,
)

IsApart-below : (f g : ℕ → ℕ) (m : Owners) → ((x : ℕ) → g x ≤ f x) → IsApart f m → IsApart g m
unfolding IsApart
IsApart-below f g [] below apart = tt
IsApart-below f g ((k, o) ∷ m) below (new, apart) = (
  IsNew-below o.ptr o.size _ _ (λ x. omega (arith, below x)) new,
  IsApart-below f g m below apart,
)

-- A new entry adds its bytes.
held-emplace_owner :
    (key : ℕ) (b : Owner) (m : Owners) (x : ℕ)
    → held (emplace_owner key b m) x ≡ owned b.ptr b.size x + held m x
unfolding held emplace_owner
held-emplace_owner key b [] x = refl
held-emplace_owner key b ((k, o) ∷ m) x =
    ground (arith, held-emplace_owner key b m x, Bool-cases (ltb key k))

emplace_owner-IsApart :
    (key : ℕ) (b : Owner) (f : ℕ → ℕ) (m : Owners)
    → IsNew b.ptr b.size (λ x. f x + held m x)
    → IsApart f m
    → IsApart f (emplace_owner key b m)
unfolding IsApart held emplace_owner
emplace_owner-IsApart key b f [] new apart = (new, tt)
emplace_owner-IsApart key b f ((k, o) ∷ m) new (old, apart) = elim (Bool-cases (ltb key k)) [
  | inl before ↦ rw before (new, (old, apart))
  | inr behind ↦ rw behind (
    IsNew-below o.ptr o.size (λ x. owned b.ptr b.size x + (f x + held m x))
        (λ x. f x + held (emplace_owner key b m) x)
        (λ x. omega (arith, held-emplace_owner key b m x))
        (IsNew-beside o.ptr b.ptr o.size b.size (λ x. f x + held m x) old
          (IsNew-below b.ptr b.size (λ x. f x + (owned o.ptr o.size x + held m x))
            (λ x. owned o.ptr o.size x + (f x + held m x)) (λ x. omega arith) new)),
    emplace_owner-IsApart key b f m
        (IsNew-below b.ptr b.size (λ x. f x + (owned o.ptr o.size x + held m x))
          (λ x. f x + held m x) (λ x. omega arith) new)
        apart,
  )
]

module _ (M : Mappings) (ms : IsAccounted M) where
  open M use {State}

  -- The mappings are those of the entries, beside others.
  unfoldable pub HoldsBeside : (ℕ → ℕ) → Owners × State → Type 0
  HoldsBeside f (m, s) = ((x : ℕ) → ms.live s x ≡ f x + held m x) × IsApart f m

  destroy_allocation_lem :
      (p : Option ℕ) (n : ℕ) (f : ℕ → ℕ) (s : State)
      → IsNew p n f
      → ((x : ℕ) → ms.live s x ≡ owned p n x + f x)
      → (x : ℕ) → ms.live (destroy_allocation M (record { ptr = p; size = n }) s) x ≡ f x
  unfolding destroy_allocation owned IsNew
  destroy_allocation_lem none n f s new holds x = holds x ∙ omega arith
  destroy_allocation_lem (some p) n f s (some_bytes, free) holds x =
      let whole : ms.live s p ≡ n = ground (arith, holds p, Bool-cases (p == p)) in
      grind (arith, ms.unmaps p n s whole x, holds x, Bool-cases (x == p))

  destroy_allocations_lem :
      (f : ℕ → ℕ) (m : Owners) (s : State)
      → HoldsBeside f (m, s)
      → (x : ℕ) → ms.live (destroy_allocations M m s) x ≡ f x
  unfolding HoldsBeside destroy_allocations held IsApart
  destroy_allocations_lem f [] s (holds, apart) x = holds x ∙ omega arith
  destroy_allocations_lem f ((k, o) ∷ m) s (holds, (new, apart)) x =
      destroy_allocations_lem f m (destroy_allocation M o s)
        (
          destroy_allocation_lem o.ptr o.size (λ x. f x + held m x) s new
              (λ x. holds x ∙ omega arith),
          apart,
        )
        x

  -- erase leaves the bytes of what it keeps.
  held-erase_from :
      (n : ℕ) (m : Owners) (s : State) (x : ℕ) → held (erase_from M n m s).0 x ≤ held m x
  unfolding erase_from held
  held-erase_from n [] s x = omega arith
  held-erase_from n ((k, o) ∷ m) s x = ground (arith, held-erase_from n m s x, Bool-cases (ltb k n))

  erase_from-HoldsBeside :
      (f : ℕ → ℕ) (n : ℕ) (m : Owners) (s : State)
      → HoldsBeside f (m, s)
      → HoldsBeside f (erase_from M n m s)
  unfolding HoldsBeside erase_from held IsApart
  erase_from-HoldsBeside f n [] s h = h
  erase_from-HoldsBeside f n ((k, o) ∷ m) s (holds, (new, apart)) = elim (Bool-cases (ltb k n)) [
    | inl below ↦
        let (rest_holds, rest_apart) =
          erase_from-HoldsBeside (λ x. f x + owned o.ptr o.size x) n m s
            (λ x. holds x ∙ omega arith, IsApart-beside o.ptr o.size f m new apart) in
        rw below (
          λ x. rest_holds x ∙ omega arith,
          (
            IsNew-below o.ptr o.size (λ x. f x + held m x)
                (λ x. f x + held (erase_from M n m s).0 x)
                (λ x. omega (arith, held-erase_from n m s x)) new,
            IsApart-below _ f _ (λ x. omega arith) rest_apart,
          ),
        )
    | inr above ↦
        rw above
          (λ x. destroy_allocations_lem f ((k, o) ∷ m) s (holds, (new, apart)) x ∙ omega arith, tt)
  ]

  place-HoldsBeside :
      (f : ℕ → ℕ) (key n : ℕ) (m : Owners) (s : State) (locked : Bool) (r : Option ℕ × State)
      → M.mmap locked n s ≡ r
      → HoldsBeside f (m, s)
      → HoldsBeside f (kept M m (place M key m (mapped M n r)))
  unfolding place mapped kept HoldsBeside move_allocation destroy_allocation IsNew owned
  place-HoldsBeside f key n m s locked (none, t) e (holds, apart) =
      (λ x. ms.maps_not locked n s t e x ∙ holds x, apart)
  place-HoldsBeside f key n m s locked (some p, t) e (holds, apart) =
      let o : Owner = record { ptr = some p; size = n } in
      let (some_bytes, (free, now)) = ms.maps locked n p s t e in
      let new : IsNew (some p) n (λ x. f x + held m x) = (some_bytes, sym (holds p) ∙ free) in
      (
        λ x. ground (
          arith,
          now x,
          holds x,
          held-emplace_owner key o m x,
          sym (holds p) ∙ free,
          Bool-cases (x == p),
        ),
        emplace_owner-IsApart key o f m new apart,
      )

  change-HoldsBeside :
      (f : ℕ → ℕ) (mlock : MemoryLock) (c : Change) (x : Owners × State)
      → HoldsBeside f x
      → HoldsBeside f (change M mlock c x)
  unfolding change entry_at make_allocation HoldsBeside held IsApart kept
  change-HoldsBeside f mlock (ask base len) (m, s) h = elim (Bool-cases (has_key base m)) [
    | inl there ↦ rw there h
    | inr missing ↦ rw missing (place-HoldsBeside f base len m s _ _ refl h)
  ]
  change-HoldsBeside f mlock (shrink n) (m, s) h = erase_from-HoldsBeside f n m s h
  change-HoldsBeside f mlock empty (m, s) h =
      (λ x. destroy_allocations_lem f m s h x ∙ omega arith, tt)

  changes-HoldsBeside :
      (f : ℕ → ℕ) (mlock : MemoryLock) (cs : List Change) (x : Owners × State)
      → HoldsBeside f x
      → HoldsBeside f (changes M mlock cs x)
  unfolding changes
  changes-HoldsBeside f mlock [] x h = h
  changes-HoldsBeside f mlock (c ∷ cs) x h =
      changes-HoldsBeside f mlock cs (change M mlock c x) (change-HoldsBeside f mlock c x h)

  -- Let the system account for its mappings. Let a map of allocations, empty at first, be asked for
  -- allocations, which may fail, and be shrunk and emptied, in any order. Then the mappings are
  -- those from before and those that the map holds, each with its size, no two at one address and
  -- none at that of one from before; and when the map is destroyed the mappings are those from
  -- before.
  pub changes-Unmaps :
      (mlock : MemoryLock) (cs : List Change) (s : State)
      → let (m, t) = changes M mlock cs ([], s) in
        ((x : ℕ) → ms.live t x ≡ ms.live s x + held m x)
        × (IsApart (ms.live s) m × ((x : ℕ) → ms.live (destroy_allocations M m t) x ≡ ms.live s x))
  unfolding HoldsBeside held IsApart
  changes-Unmaps mlock cs s =
      let (m, t) = changes M mlock cs ([], s) in
      let h = changes-HoldsBeside (ms.live s) mlock cs ([], s) (λ x. omega arith, tt) in
      (h.0, (h.1, destroy_allocations_lem (ms.live s) m t h))
