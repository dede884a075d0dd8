-- ===== src/Ioc/Build.antt =====
-- `GetInstance` and `RegisterSingletonClass`: a type without an instance is made by its creator, whose
-- arguments are got in the same way. The fuel bounds how deep creators call one another; constructor
-- arguments are got from the left.
use store_cpp.Base.{
  ℕ, zero, suc, ◌<◌, ◌≡◌, refl, List, [], ◌∷◌, ◌++◌, Option, none, some, Str, seq→eq, length, arith,
  All, Option-cases, inl, inr, ap, ◌∙◌, seq_refl,
}
use store_cpp.Base.Assoc.{Assoc, lookup, lookup-insert}
use store_cpp.Ioc.{Holder, Container, Got, pointer, fault, open_holder, register_instance}

-- The arguments that a constructor is called with; the inner `none` is a fault.
abbrev Gathered : Type 0
Gathered = Option (Option (List (Option ℕ)) × Container)

cons_gathered : Option ℕ → Gathered → Gathered
cons_gathered p none = none
cons_gathered p (some (none, c)) = some (none, c)
cons_gathered p (some (some ps, c)) = some (some (p ∷ ps), c)

gather_next : Option (Got × Container) → (Container → Gathered) → Gathered
unfolding cons_gathered
gather_next none more = none
gather_next (some (fault, c)) more = some (none, c)
gather_next (some (pointer p, c)) more = cons_gathered p (more c)

gather : (Str → Container → Option (Got × Container)) → List Str → Container → Gathered
unfolding gather_next
gather get [] c = some (some [], c)
gather get (d ∷ ds) c = gather_next (get d c) (gather get ds)

-- `new T(args...)`
build : Str → Gathered → Option (Got × Container)
build t none = none
build t (some (none, c)) = some (fault, c)
build t (some (some args, c)) = some (
  pointer (some (length c.heap)),
  record c { heap = c.heap ++ record { made_type = t; arguments = args } ∷ [] },
)

create : Str → Option (List Str) → (List Str → Gathered) → Container → Option (Got × Container)
unfolding build
create t none args c = some (pointer none, c)
create t (some deps) args c = build t (args deps)

-- A found instance is read through its holder, else the creator is tried.
resolve : Str → Option Holder → (List Str → Gathered) → Container → Option (Got × Container)
unfolding create open_holder
resolve t none args c = create t (lookup t c.creator_map) args c
resolve t (some h) args c = some (open_holder t h, c)

unfoldable pub get_instance : ℕ → Str → Container → Option (Got × Container)
unfolding resolve gather
get_instance zero t c = none
get_instance (suc f) t c =
    resolve t (lookup t c.instance_map) (λ deps. gather (get_instance f) deps c) c

-- The new object is held as the only instance of its type.
hold : Str → Option (Got × Container) → Option (Got × Container)
unfolding register_instance
hold t none = none
hold t (some (fault, c)) = some (fault, c)
hold t (some (pointer p, c)) = some (pointer p, register_instance t p c)

unfoldable pub register_singleton_class : ℕ → Str → List Str → Container → Option (Got × Container)
unfolding hold build gather
register_singleton_class f t deps c = hold t (build t (gather (get_instance f) deps c))

-- Every holder has the type that it is filed under.
abbrev pub WellTyped : Assoc Holder → Type 0
WellTyped m = (t : Str) (h : Holder) → lookup t m ≡ some h → h.type_name ≡ t

-- Creators only ask for types of a smaller rank.
abbrev pub Ranked : (Str → ℕ) → Assoc (List Str) → Type 0
Ranked rank m =
    (t : Str) (deps : List Str) → lookup t m ≡ some deps → All (λ d. rank d < rank t) deps

-- The call returns a pointer, and changes neither the instances nor the creators.
abbrev pub Returns : Option (Got × Container) → Container → Type 0
Returns r c =
    (p : Option ℕ) × (c' : Container) × (r ≡ some (pointer p, c'))
    × (c'.instance_map ≡ c.instance_map)
    × (c'.creator_map ≡ c.creator_map)

abbrev Gathers : Gathered → Container → Type 0
Gathers r c =
    (ps : List (Option ℕ)) × (c' : Container) × (r ≡ some (some ps, c'))
    × (c'.instance_map ≡ c.instance_map)
    × (c'.creator_map ≡ c.creator_map)

-- A getter that returns for the listed types, in every container with these maps.
gather_lem :
    (get : Str → Container → Option (Got × Container)) (im : Assoc Holder) (cm : Assoc (List Str))
    (P : Str → Type 0)
    → ((d : Str) (c : Container)
        → P d
        → c.instance_map ≡ im
        → c.creator_map ≡ cm
        → Returns (get d c) c)
    → (ds : List Str) (c : Container) → All P ds
    → c.instance_map ≡ im
    → c.creator_map ≡ cm
    → Gathers (gather get ds c) c
unfolding gather
gather_lem get im cm P returns [] c h i m = ([], c, refl, refl, refl)
gather_lem get im cm P returns (d ∷ ds) c (h, hs) i m =
    let (p, c1, e, i1, m1) = returns d c h i m in
    let (ps, c2, e2, i2, m2) = gather_lem get im cm P returns ds c1 hs (i1 ∙ i) (m1 ∙ m) in
    (
      p ∷ ps,
      c2,
      ap (λ r. gather_next r (gather get ds)) e ∙ ap (cons_gathered p) e2,
      i2 ∙ i1,
      m2 ∙ m1,
    )

build_lem : (t : Str) (r : Gathered) (c : Container) → Gathers r c → Returns (build t r) c
unfolding build
build_lem t r c (ps, c', e, i, m) = (some (length c'.heap), _, ap (build t) e, i, m)

-- With well typed instances and creators whose dependencies have a smaller rank, `GetInstance` ends
-- with a pointer (maybe null), never faults, and leaves both maps as they were.
pub get_instance-Returns :
    (rank : Str → ℕ) (im : Assoc Holder) (cm : Assoc (List Str))
    → WellTyped im
    → Ranked rank cm
    → (f : ℕ) (t : Str) (c : Container) → rank t < f
    → c.instance_map ≡ im
    → c.creator_map ≡ cm
    → Returns (get_instance f t c) c
unfolding get_instance
get_instance-Returns rank im cm typed ranked zero t c h i m = absurd (omega arith)
get_instance-Returns rank im cm typed ranked (suc f) t c h i m =
    elim (Option-cases (lookup t c.instance_map)) [
      | inr (holder, e) ↦ (
        holder.instance_,
        c,
        rw e (ground (arith, typed t holder (rw (← i) e), seq_refl t)),
        refl,
        refl,
      )
      | inl e ↦ (elim (Option-cases (lookup t c.creator_map)) [
        | inl e2 ↦ (none, c, rw e (rw e2), refl, refl)
        | inr (deps, e2) ↦ rw e (
            rw e2 (
              build_lem t _ c (
                gather_lem (get_instance f) im cm (λ d. rank d < f)
                  (λ d c' hd i' m'. get_instance-Returns rank im cm typed ranked f d c' hd i' m')
                  deps c (below deps (ranked t deps (rw (← m) e2))) i m)))
      ])
    ]
  where
    below : (ds : List Str) → All (λ d. rank d < rank t) ds → All (λ d. rank d < f) ds
    below [] hs = tt
    below (d ∷ ds) (hd, hs) = (omega arith, below ds hs)

-- Registering an instance keeps the instances well typed.
register_instance-WellTyped :
    (t : Str) (p : Option ℕ) (c : Container)
    → WellTyped c.instance_map
    → WellTyped (register_instance t p c).instance_map
unfolding register_instance
register_instance-WellTyped t p c typed t' h e = ground (
  arith,
  lookup-insert t t' (record { type_name = t; instance_ = p }) c.instance_map,
  typed t' h,
  seq→eq t t',
)
