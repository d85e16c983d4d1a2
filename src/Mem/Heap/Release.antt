-- ===== src/Mem/Heap/Release.antt =====
-- `kfree` and `try_segment_merge` of src/kernel/mem/heap/heap.cc on the chain of a page.
use slayer_os.Base.{
  ℕ, ◌+◌, ◌<◌, ◌≤◌, ◌^◌, ◌≡◌, ◌≢◌, refl, sym, ap, true, some, List, [], ◌∷◌, ◌⊎◌, arith, inl, inr,
  Bool-cases, if◌then◌else◌, u64, eq→==, ne→==,
}
use slayer_os.Mem.Heap.{Segment, segment_header, try_segment_merge, release}
use slayer_os.Mem.Heap.Chain.{Tiled, Tiled-le, live, Inserted, here, there}

Inserted-cons :
    {A : Type 0} {x y : A} {xs ys : List A}
    → Inserted x xs (y ∷ ys)
    → ((x ≡ y) × (xs ≡ ys)) ⊎ ((zs : List A) × (xs ≡ y ∷ zs) × Inserted x zs ys)
Inserted-cons here = inl (refl, refl)
Inserted-cons (there {xs = zs} i) = inr (zs, refl, i)

Inserted-nil : {A : Type 0} {x : A} {xs : List A} → ¬ Inserted x xs []
Inserted-nil i = elim i [ ]

-- The blocks of a chain lie behind its first header.
live-above :
    (lo hi : ℕ) (gs : List Segment) (addr n : ℕ) (xs : List (ℕ × ℕ))
    → Tiled lo hi gs
    → Inserted (addr, n) xs (live gs)
    → lo + segment_header ≤ addr
unfolding live
live-above lo hi [] addr n xs t i = absurd (Inserted-nil i)
live-above lo hi (g ∷ gs) addr n xs t i = elim (Bool-cases g.free) [
  | inl free ↦
      omega (arith, live-above (lo + segment_header + g.size) hi gs addr n xs t.2 (rw free at i))
  | inr used ↦ elim (Inserted-cons (rw used at i)) [
    | inl (e, _) ↦ omega (arith, t.1, ap (λ p. p.0) e)
    | inr (zs, _, rest) ↦
        omega (arith, live-above (lo + segment_header + g.size) hi gs addr n zs t.2 rest)
  ]
]

-- What releasing the block of `n` bytes at `addr` has done to a chain: the blocks in use are `xs`.
pub record Released (lo hi n : ℕ) (xs : List (ℕ × ℕ)) (gs' : List Segment) (gained : ℕ)
    : Type 0 where
  pub tiled : Tiled lo hi gs'
  pub others : live gs' ≡ xs
  pub at_least : n ≤ gained
  pub at_most : gained ≤ n + segment_header

merge-Released :
    (lo hi : ℕ) (g : Segment) (gs : List Segment)
    → hi < 2 ^ 64
    → Tiled lo hi (g ∷ gs)
    → let (gs', more) = try_segment_merge (record g { free = true }) gs in
      Released lo hi g.size (live gs) gs' (g.size + more)
unfolding try_segment_merge live
merge-Released lo hi g [] small t = record {
  tiled = t;
  others = refl;
  at_least = omega arith;
  at_most = omega arith;
}
merge-Released lo hi g (next ∷ gs) small t = elim (Bool-cases next.free) [
  | inl free ↦
      let top = Tiled-le _ hi gs t.2.2 in
      let sum : lo + segment_header + u64 (g.size + (next.size + segment_header))
          ≡ lo + segment_header + g.size + segment_header + next.size =
        omega arith in
      rw free (record {
        tiled = (t.0, t.1, rw sum t.2.2);
        others = refl;
        at_least = omega arith;
        at_most = omega arith;
      })
  | inr used ↦
      simp used
        (record { tiled = t; others = rw used; at_least = omega arith; at_most = omega arith })
]

-- What stands behind one more segment.
Released-cons :
    (lo hi n : ℕ) (xs ys : List (ℕ × ℕ)) (g : Segment) (gs gs' : List Segment) (gained : ℕ)
    → Tiled lo hi (g ∷ gs)
    → (if g.free then xs else (g.addr, g.size) ∷ xs) ≡ ys
    → Released (lo + segment_header + g.size) hi n xs gs' gained
    → Released lo hi n ys (g ∷ gs') gained
unfolding live
Released-cons lo hi n xs ys g gs gs' gained t e d = record {
  tiled = (t.0, t.1, d.tiled);
  others = rw d.others e;
  at_least = d.at_least;
  at_most = d.at_most;
}

pub release-skip :
    (addr : ℕ) (g : Segment) (gs gs' : List Segment) (gained : ℕ)
    → g.addr ≢ addr
    → release addr gs ≡ some (gs', gained)
    → release addr (g ∷ gs) ≡ some (g ∷ gs', gained)
unfolding release
release-skip addr g gs gs' gained ne e = rw (ne→== g.addr addr ne, e, release)

pub release-found :
    (addr : ℕ) (g : Segment) (gs : List Segment)
    → g.addr ≡ addr
    → let (gs', more) = try_segment_merge (record g { free = true }) gs in
      release addr (g ∷ gs) ≡ some (gs', g.size + more)
unfolding release
release-found addr g gs e = rw (eq→== g.addr addr e)

-- Releasing a block in use succeeds: the chain still tiles its page, exactly that block is no
-- longer in use, and the page gains its size, and a header more where it merges with the next one.
pub release-Released :
    (lo hi : ℕ) (gs : List Segment) (addr n : ℕ) (xs : List (ℕ × ℕ))
    → hi < 2 ^ 64
    → Tiled lo hi gs
    → Inserted (addr, n) xs (live gs)
    → (gs' : List Segment) × (gained : ℕ) × (release addr gs ≡ some (gs', gained))
      × Released lo hi n xs gs' gained
unfolding live
release-Released lo hi [] addr n xs small t i = absurd (Inserted-nil i)
release-Released lo hi (g ∷ gs) addr n xs small t i = elim (Bool-cases g.free) [
  | inl free ↦
      let i' : Inserted (addr, n) xs (live gs) = rw free at i in
      let above = live-above (lo + segment_header + g.size) hi gs addr n xs t.2 i' in
      let (gs', gained, e, d) =
        release-Released (lo + segment_header + g.size) hi gs addr n xs small t.2 i' in
      (
        g ∷ gs',
        gained,
        release-skip addr g gs gs' gained (λ same. omega (arith, t.1)) e,
        Released-cons lo hi n xs xs g gs gs' gained t (rw free) d,
      )
  | inr used ↦ elim (Inserted-cons (rw used at i)) [
    | inl (e, same) ↦
        let at : g.addr ≡ addr = sym (ap (λ p. p.0) e) in
        let size : g.size ≡ n = sym (ap (λ p. p.1) e) in
        (_, _, release-found addr g gs at, rw (same, ← size) (merge-Released lo hi g gs small t))
    | inr (zs, e, rest) ↦
        let above = live-above (lo + segment_header + g.size) hi gs addr n zs t.2 rest in
        let (gs', gained, e', d) =
          release-Released (lo + segment_header + g.size) hi gs addr n zs small t.2 rest in
        (
          g ∷ gs',
          gained,
          release-skip addr g gs gs' gained (λ same. omega (arith, t.1)) e',
          Released-cons lo hi n zs xs g gs gs' gained t (rw used (sym e)) d,
        )
  ]
]
