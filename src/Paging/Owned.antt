-- ===== src/Paging/Owned.antt =====
-- kernel/memory.c, `mem_free_page_dir`: the frames that a directory owns, and their release.
use quad_os.Base.{
  ℕ, zero, suc, ◌+◌, ◌/◌, ◌≡◌, refl, ◌∙◌, Bool, true, false, ◌||◌, List, [], ◌∷◌, ◌++◌, ◌==◌,
  Bool-cases, inl, inr, if◌then◌else◌, page_size, ok, Returns, Returns-bind, Returns-map, subst,
  arith,
}
use mathlib.Core.List.{append_assoc}
use quad_os.PhysAlloc.{Pmm, is_pf_used, pmm_free_pageframe}
use quad_os.PhysAlloc.Valid
use quad_os.PhysAlloc.Free.{free-Freed}
use quad_os.Paging.{Paging, Frames, owner, p_phys_addr}
use quad_os.Paging.Directories.{free_pages}

abbrev pub frame : ℕ → ℕ
frame entry = p_phys_addr entry / page_size

-- The frame of an entry with the mark of ownership.
abbrev pub owned : ℕ → List ℕ
owned entry = if owner entry then frame entry ∷ [] else []

-- The frames that a table owns by its entries from `j` on.
unfoldable pub owned_pages : ℕ → ℕ → (ℕ → ℕ) → List ℕ
owned_pages zero j table = []
owned_pages (suc left) j table = owned (table j) ++ owned_pages left (j + 1) table

-- The frames that a directory owns by its entries from `i` on: those of the tables, and the tables.
unfoldable pub owned_tables : ℕ → ℕ → ℕ → Frames → List ℕ
owned_tables zero i dir frames = []
owned_tables (suc left) i dir frames =
    let entry = frames dir i in
    (if entry == 0 then [] else owned_pages 1024 0 (frames (p_phys_addr entry)) ++ owned entry)
    ++ owned_tables left (i + 1) dir frames

abbrev pub member : ℕ → List ℕ → Bool
member f [] = false
member f (g ∷ gs) = (g == f) || member f gs

member-append : (f : ℕ) (xs ys : List ℕ) → member f (xs ++ ys) ≡ (member f xs || member f ys)
member-append f [] ys = refl
member-append f (x ∷ xs) ys = ground (arith, member-append f xs ys)

-- The frames are in use, and none is named twice.
abbrev pub CanFree : Pmm → List ℕ → Type 0
CanFree p [] = Unit
CanFree p (f ∷ fs) = (is_pf_used p f ≡ true) × (member f fs ≡ false) × CanFree p fs

-- Exactly these frames are free now that were in use.
abbrev pub Cleared : Pmm → List ℕ → Pmm → Type 0
Cleared p fs q = (f : ℕ) → is_pf_used q f ≡ (if member f fs then false else is_pf_used p f)

pub Cleared-append :
    (p q r : Pmm) (xs ys : List ℕ) → Cleared p xs q → Cleared q ys r → Cleared p (xs ++ ys) r
Cleared-append p q r xs ys a b f = ground (arith, a f, b f, member-append f xs ys)

CanFree-cleared :
    (p q : Pmm) (f : ℕ) (fs : List ℕ)
    → member f fs ≡ false
    → Cleared p (f ∷ []) q
    → CanFree p fs
    → CanFree q fs
CanFree-cleared p q f [] ne c h = tt
CanFree-cleared p q f (g ∷ gs) ne c h =
    (ground (arith, c g, ne, h.0), h.1, CanFree-cleared p q f gs (ground (arith, ne)) c h.2)

-- The allocator stays valid.
abbrev pub Kept : Pmm → Type 0
Kept pmm = Valid.IsValid pmm × (pmm.page_frame_min ≡ 1024)

-- What the release of the frames `fs` leaves, with the frames `rest` to go.
pub record Released (p : Pmm) (fs rest : List ℕ) (q : Pmm) : Type 0 where
  pub kept : Kept q
  pub cleared : Cleared p fs q
  pub can_go_on : CanFree q rest

pub free_owned :
    (entry : ℕ) (pmm : Pmm) (rest : List ℕ)
    → Kept pmm
    → CanFree pmm (owned entry ++ rest)
    → Returns
        (if owner entry then pmm_free_pageframe (p_phys_addr entry) pmm else ok pmm)
        (Released pmm (owned entry) rest)
free_owned entry pmm rest k can = elim (Bool-cases (owner entry)) [
  | inl o ↦
      let c = simp o at can in
      let (q, e, freed, valid) = free-Freed pmm (p_phys_addr entry) k.0 c.0 in
      let cleared : Cleared pmm (frame entry ∷ []) q = λ f. ground (arith, freed.cleared f) in
      simp (o, e)
        (record {
          kept = (valid, freed.limits.0 ∙ k.1);
          cleared = cleared;
          can_go_on = CanFree-cleared pmm q (frame entry) rest c.1 cleared c.2;
        })
  | inr o ↦ simp o (record { kept = k; cleared = λ f. refl; can_go_on = simp o at can })
]

pub Released-append :
    (p q r : Pmm) (xs ys rest : List ℕ)
    → Released p xs (ys ++ rest) q
    → Released q ys rest r
    → Released p (xs ++ ys) rest r
Released-append p q r xs ys rest a b = record {
  kept = b.kept;
  cleared = Cleared-append p q r xs ys a.cleared b.cleared;
  can_go_on = b.can_go_on;
}

pub free_pages-Released :
    (left j pt : ℕ) (p : Paging) (table : ℕ → ℕ) (rest : List ℕ)
    → ((i : ℕ) → p.frames pt i ≡ table i)
    → Kept p.pmm
    → CanFree p.pmm (owned_pages left j table ++ rest)
    → Returns (free_pages left j pt p) (Released p.pmm (owned_pages left j table) rest)
unfolding free_pages owned_pages
free_pages-Released zero j pt p table rest same k can = record {
  kept = k;
  cleared = λ f. refl;
  can_go_on = can;
}
free_pages-Released (suc left) j pt p table rest same k can =
    let e = table j in
    let later = owned_pages left (j + 1) table in
    let can' = subst (CanFree p.pmm) (append_assoc (owned e) later rest) can in
    simp (same j) (
      Returns-bind (if owner e then pmm_free_pageframe (p_phys_addr e) p.pmm else ok p.pmm) _
        (Released p.pmm (owned e) (later ++ rest)) _ (free_owned e p.pmm (later ++ rest) k can')
        (λ q one.
          Returns-map (free_pages left (j + 1) pt (record p { pmm = q })) _ _
            (free_pages-Released left (j + 1) pt (record p { pmm = q }) table rest same one.kept
              one.can_go_on)
            (λ r more. Released-append p.pmm q r (owned e) later rest one more)))
